-- ===== src/EthContract/Admin.antt =====
-- The initializer and the owner's messages of eth/contracts/Most.sol.
use most_aleph_zero_bridge.Common.{
  ℕ, true, false, not, Option, List, [], ◌∷◌, fail_if, asks, gets, ok_or, returns, reverts, ◌>>=◌,
  ◌>>◌, ltb, ◌==◌, length,
}
use most_aleph_zero_bridge.EthContract.Encoding.{member_id}
use most_aleph_zero_bridge.EthContract.Types.{
  EthChain, committee_updated, zero_signature_threshold, not_enough_guardians,
  duplicate_committee_member, eth_transfer, access_refused, overflow, call_reverted,
}
use most_aleph_zero_bridge.EthContract.Bridge.{EthCall, writes, emits, calls, set, increment}

module _ (chain : EthChain) where
  unfoldable pub only_owner : EthCall chain (Unit {0})
  only_owner = do
    sender ← asks (λ env. env.caller)
    owner ← gets (λ s. chain.is_owner s.access sender)
    fail_if (not owner) access_refused

  unfoldable pub when_paused : EthCall chain (Unit {0})
  when_paused = do
    paused ← gets (λ s. chain.is_paused s.access)
    fail_if (not paused) access_refused

  -- The loop of `_setCommittee`.
  unfoldable pub add_members : List ℕ → EthCall chain (Unit {0})
  add_members [] env s = returns tt s
  add_members (account ∷ accounts) env s =
      let id = member_id chain.keccak256 s.committee_id account in
      elim (s.committee id) [
        | true ↦ reverts duplicate_committee_member
        | false ↦
            add_members accounts env
              (record s { self = record (s.self) { committee = set s.committee id true } })
      ]

  unfoldable pub set_members : List ℕ → ℕ → EthCall chain (Unit {0})
  unfolding add_members
  set_members accounts threshold = do
    fail_if (threshold == 0) zero_signature_threshold
    fail_if (ltb (length accounts) threshold) not_enough_guardians
    add_members accounts
    writes chain (λ m. record m {
      committee_size = set m.committee_size m.committee_id (length accounts);
      signature_threshold = set m.signature_threshold m.committee_id threshold;
    })

  unfoldable pub set_committee : List ℕ → ℕ → EthCall chain (Unit {0})
  unfolding only_owner when_paused set_members
  set_committee accounts threshold = do
    only_owner
    when_paused
    m ← gets (λ s. s.self)
    next_id ← ok_or (increment m.committee_id) overflow
    writes chain (λ m. record m { committee_id = next_id })
    set_members accounts threshold
    emits chain (committee_updated next_id)

  unfoldable pub add_pair : ℕ → ℕ → EthCall chain (Unit {0})
  unfolding only_owner when_paused
  add_pair from to = do
    only_owner
    when_paused
    writes chain (λ m. record m { supported_pairs = set m.supported_pairs from to })

  unfoldable pub remove_pair : ℕ → EthCall chain (Unit {0})
  unfolding only_owner when_paused
  remove_pair from = do
    only_owner
    when_paused
    writes chain (λ m. record m { supported_pairs = set m.supported_pairs from 0 })

  -- An inherited message on the owner or the pause.
  abbrev pub changes_access : (chain.Access → Option (chain.Access)) → EthCall chain (Unit {0})
  changes_access f = do
    m ← gets (λ s. s.self)
    changed ← ok_or (f m.access) access_refused
    writes chain (λ m. record m { access = changed })

  unfoldable pub pause : EthCall chain (Unit {0})
  unfolding only_owner
  pause = do only_owner; changes_access (chain.set_paused true)

  unfoldable pub unpause : EthCall chain (Unit {0})
  unfolding only_owner
  unpause = do only_owner; changes_access (chain.set_paused false)

  -- `renounceOwnership`, which keeps the owner.
  unfoldable pub renounce_ownership : EthCall chain (Unit {0})
  unfolding only_owner
  renounce_ownership = only_owner

  unfoldable pub recover_erc20 : ℕ → ℕ → ℕ → EthCall chain (Unit {0})
  unfolding only_owner
  recover_erc20 token to amount = do
    only_owner
    self ← asks (λ env. env.account_id)
    calls chain (chain.safe_transfer self token to amount) call_reverted

  unfoldable pub recover_native : ℕ → ℕ → EthCall chain (Unit {0})
  unfolding only_owner
  recover_native to amount = do
    only_owner
    self ← asks (λ env. env.account_id)
    calls chain (chain.send_ether self to amount) eth_transfer

  -- `initialize` on storage that is all zero. The inherited part comes out with its owner, and
  -- paused, from the initializers of the inherited contracts.
  unfoldable pub initialize :
      List ℕ → ℕ → (chain.Access → Option (chain.Access)) → ℕ → EthCall chain (Unit {0})
  unfolding set_members
  initialize accounts threshold inherited weth = do
    writes chain (λ m. record m { committee_id = 0; weth_address = weth })
    set_members accounts threshold
    changes_access inherited
