-- ===== src/EthContract/Numbers.antt =====
-- The numbering of outgoing requests by eth/contracts/Most.sol.
use most_aleph_zero_bridge.Common.{
  ℕ, ◌+◌, ◌≡◌, List, [], ◌∷◌, Env, after, arith, Outcome, returns, reverts, traps, true, refl,
}
use most_aleph_zero_bridge.EthContract.Types.{
  EthChain, EthState, EthEvent, crosschain_transfer_request,
}
use most_aleph_zero_bridge.EthContract.Encoding.{member_id}
use most_aleph_zero_bridge.EthContract.Bridge.{
  receive_ether, set, send_request, send_request_native, receive_request, sign_request,
  execute_request, return_tokens, announce, token_transfer_return_success, when_not_paused,
  only_committee_member,
}
use most_aleph_zero_bridge.EthContract.Admin.{
  set_committee, set_members, add_members, add_pair, remove_pair, pause, unpause, recover_erc20,
  recover_native, renounce_ownership, only_owner, when_paused,
}
use most_aleph_zero_bridge.EthContract.Calls.{
  EthMostCall, sets_committee, EthTransaction, run_call, step, run,
}

-- The nonces of the transfer requests among the events, newest first.
abbrev pub nonces : List EthEvent → List ℕ
nonces [] = []
nonces (crosschain_transfer_request r ∷ es) = r.request_nonce ∷ nonces es
nonces (_ ∷ es) = nonces es

-- The numbers n - 1, n - 2, …, 0.
abbrev pub CountsDown : ℕ → List ℕ → Type 0
CountsDown n [] = n ≡ 0
CountsDown n (m ∷ ms) = (n ≡ m + 1) × CountsDown m ms

-- The stored nonce is the number of requests so far, and they have the nonces below it.
abbrev pub IsEthNumbered : {chain : EthChain} → EthState chain → Type 0
IsEthNumbered s = CountsDown s.request_nonce (nonces s.events)

module _ (chain : EthChain) where
  abbrev pub KeepsNumbers : {E A : Type 0} → EthState chain → Outcome E (EthState chain) A → Type 0
  KeepsNumbers s (returns a t) =
      (t.request_nonce ≡ s.request_nonce) × (nonces t.events ≡ nonces s.events)
  KeepsNumbers s (reverts e) = Unit
  KeepsNumbers s traps = Unit

  pub add_members-KeepsNumbers :
      (accounts : List ℕ) (env : Env) (s : EthState chain)
      → KeepsNumbers s (add_members chain accounts env s)
  unfolding add_members
  add_members-KeepsNumbers [] env s = (refl, refl)
  add_members-KeepsNumbers (a ∷ accounts) env s =
      let id = member_id chain.keccak256 s.committee_id a in
      ground (
        arith,
        add_members-KeepsNumbers accounts env
            (record s { self = record (s.self) { committee = set s.committee id true } }),
      )

  set_committee-KeepsNumbers :
      (accounts : List ℕ) (threshold : ℕ) (env : Env) (s : EthState chain)
      → KeepsNumbers s (set_committee chain accounts threshold env s)
  unfolding set_committee set_members only_owner when_paused
  set_committee-KeepsNumbers accounts threshold env s = ground (
    arith,
    add_members-KeepsNumbers accounts env
        (record s { self = record (s.self) { committee_id = s.committee_id + 1 } }),
  )

  call-IsEthNumbered :
      (c : EthMostCall chain) (env : Env) (s : EthState chain)
      → IsEthNumbered s
      → IsEthNumbered (after (run_call chain c env s) s)
  unfolding run_call receive_ether send_request send_request_native announce add_pair remove_pair
      pause unpause renounce_ownership recover_erc20 recover_native only_owner when_paused
      when_not_paused receive_request only_committee_member sign_request execute_request
      return_tokens token_transfer_return_success
  call-IsEthNumbered (sets_committee accounts threshold) env s v =
      ground (arith, set_committee-KeepsNumbers accounts threshold env s)
  call-IsEthNumbered _ env s v = ground arith

  pub run-IsEthNumbered :
      (s : EthState chain) (txs : List (EthTransaction chain))
      → IsEthNumbered s
      → IsEthNumbered (run chain s txs)
  unfolding run step
  run-IsEthNumbered s [] v = v
  run-IsEthNumbered s (tx ∷ txs) v =
      run-IsEthNumbered (step chain s tx) txs
        (call-IsEthNumbered tx.call tx.env (record s { world = tx.world }) v)
