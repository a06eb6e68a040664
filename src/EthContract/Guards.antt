-- ===== src/EthContract/Guards.antt =====
-- The guards of the messages of eth/contracts/Most.sol.
use most_aleph_zero_bridge.Common.{◌≡◌, ◌==◌, Bool, true, false, Env, reverts, ◌⊎◌, inl, inr, arith}
use most_aleph_zero_bridge.EthContract.Types.{
  EthChain, EthState, EthError, access_refused, ether_refused,
}
use most_aleph_zero_bridge.EthContract.Bridge.{
  send_request, send_request_native, receive_request, receive_ether, when_not_paused,
}
use most_aleph_zero_bridge.EthContract.Admin.{
  set_committee, add_pair, remove_pair, pause, unpause, renounce_ownership, recover_erc20,
  recover_native, only_owner, when_paused,
}
use most_aleph_zero_bridge.EthContract.Calls.{
  EthMostCall, sends, sends_native, receives, receives_ether, sets_committee, adds_pair,
  removes_pair, accesses, run_call,
}

-- The messages of the bridge itself, open to everybody.
abbrev pub is_bridging : {chain : EthChain} → EthMostCall chain → Bool
is_bridging (sends src amount dest) = true
is_bridging (sends_native dest) = true
is_bridging (receives h k a r d n) = true
is_bridging _ = false

-- The messages of the owner that the contract itself declares.
abbrev pub is_owners : {chain : EthChain} → EthMostCall chain → Bool
is_owners (sends src amount dest) = false
is_owners (sends_native dest) = false
is_owners (receives h k a r d n) = false
is_owners receives_ether = false
is_owners (accesses c) = false
is_owners _ = true

-- Those of them that change what requests rest on.
abbrev pub is_setup : {chain : EthChain} → EthMostCall chain → Bool
is_setup (sets_committee accounts threshold) = true
is_setup (adds_pair from to) = true
is_setup (removes_pair from) = true
is_setup _ = false

-- Ether without a message.
abbrev pub is_ether : {chain : EthChain} → EthMostCall chain → Bool
is_ether receives_ether = true
is_ether _ = false

-- The error of a refusal.
abbrev pub refusal : {chain : EthChain} → EthMostCall chain → EthError
refusal receives_ether = ether_refused
refusal _ = access_refused

module _ (chain : EthChain) (env : Env) (s : EthState chain) where
  paused_bridging_reverts :
      (c : EthMostCall chain)
      → is_bridging c ≡ true
      → chain.is_paused s.access ≡ true
      → run_call chain c env s ≡ reverts (refusal c)
  unfolding run_call send_request send_request_native receive_request when_not_paused
  paused_bridging_reverts (sends src amount dest) b p = ground arith
  paused_bridging_reverts (sends_native dest) b p = ground arith
  paused_bridging_reverts (receives h k a r d n) b p = ground arith
  paused_bridging_reverts _ b p = absurd (cc)

  strangers_revert :
      (c : EthMostCall chain)
      → is_owners c ≡ true
      → chain.is_owner s.access env.caller ≡ false
      → run_call chain c env s ≡ reverts (refusal c)
  unfolding run_call set_committee add_pair remove_pair pause unpause renounce_ownership
      recover_erc20 recover_native only_owner
  strangers_revert (sends src amount dest) o p = absurd (cc)
  strangers_revert (sends_native dest) o p = absurd (cc)
  strangers_revert (receives h k a r d n) o p = absurd (cc)
  strangers_revert receives_ether o p = absurd (cc)
  strangers_revert (accesses c) o p = absurd (cc)
  strangers_revert _ o p = ground arith

  setup_reverts :
      (c : EthMostCall chain)
      → is_setup c ≡ true
      → chain.is_paused s.access ≡ false
      → run_call chain c env s ≡ reverts (refusal c)
  unfolding run_call set_committee add_pair remove_pair only_owner when_paused
  setup_reverts (sets_committee accounts threshold) o p = ground arith
  setup_reverts (adds_pair from to) o p = ground arith
  setup_reverts (removes_pair from) o p = ground arith
  setup_reverts _ o p = absurd (cc)

  foreign_ether_reverts :
      (c : EthMostCall chain)
      → is_ether c ≡ true
      → (env.caller == s.weth_address) ≡ false
      → run_call chain c env s ≡ reverts (refusal c)
  unfolding run_call receive_ether
  foreign_ether_reverts receives_ether e other = ground arith
  foreign_ether_reverts _ e other = absurd (cc)

  -- What the contract's guards refuse: while it is paused, every message that sends or receives a
  -- request; from all but the owner, every message for the owner; while it is not paused, a new
  -- committee or a change of the supported pairs, the owner's too; and ether without a message from
  -- all but the wrapped ether's contract.
  pub guarded_calls_revert :
      (c : EthMostCall chain)
      → ((is_bridging c ≡ true) × (chain.is_paused s.access ≡ true))
        ⊎ ((is_owners c ≡ true) × (chain.is_owner s.access env.caller ≡ false))
        ⊎ ((is_setup c ≡ true) × (chain.is_paused s.access ≡ false))
        ⊎ ((is_ether c ≡ true) × ((env.caller == s.weth_address) ≡ false))
      → run_call chain c env s ≡ reverts (refusal c)
  guarded_calls_revert c (inl (b, p)) = paused_bridging_reverts c b p
  guarded_calls_revert c (inr (inl (o, n))) = strangers_revert c o n
  guarded_calls_revert c (inr (inr (inl (o, n)))) = setup_reverts c o n
  guarded_calls_revert c (inr (inr (inr (e, n)))) = foreign_ether_reverts c e n
