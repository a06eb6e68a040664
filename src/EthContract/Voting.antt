-- ===== src/EthContract/Voting.antt =====
-- A vote under way in eth/contracts/Most.sol, whatever other calls come in between.
use mathlib.Core.Path.{subst}
use most_aleph_zero_bridge.Common.{
  ℕ, ◌+◌, Outcome, returns, reverts, traps, ◌≡◌, ◌⊎◌, inl, inr, sym, refl, Bool, true, false, List,
  [], ◌∷◌, Env, after, arith,
}
use most_aleph_zero_bridge.EthContract.Types.{EthChain, EthState}
use most_aleph_zero_bridge.EthContract.Encoding.{member_id}
use most_aleph_zero_bridge.EthContract.Bridge.{
  receive_ether, set, send_request, send_request_native, announce, when_not_paused,
}
use most_aleph_zero_bridge.EthContract.Admin.{
  renounce_ownership, set_committee, set_members, add_members, add_pair, remove_pair, pause,
  unpause, recover_erc20, recover_native, only_owner, when_paused,
}
use most_aleph_zero_bridge.EthContract.Calls.{
  EthMostCall, sends, sends_native, receives, sets_committee, EthTransaction, run_call, step, run,
}
use most_aleph_zero_bridge.EthContract.Votes.{votes_of, IsEthTallied, received-IsEthTallied}

-- Whether a call is a vote.
abbrev pub is_vote : {chain : EthChain} → EthMostCall chain → Bool
is_vote (receives h k a r d n) = true
is_vote _ = false

pub call-cases :
    {chain : EthChain} (c : EthMostCall chain)
    → (is_vote c ≡ false)
      ⊎ ((h : ℕ) × (k : ℕ) × (a : ℕ) × (r : ℕ) × (d : ℕ) × (n : ℕ) × (c ≡ receives h k a r d n))
call-cases (receives h k a r d n) = inr (h, k, a, r, d, n, refl)
call-cases _ = inl refl

module _ (chain : EthChain) where
  abbrev pub KeepsTally : {E A : Type 0} → EthState chain → Outcome E (EthState chain) A → Type 0
  KeepsTally s (returns a t) = votes_of t ≡ votes_of s
  KeepsTally s (reverts e) = Unit
  KeepsTally s traps = Unit

  pub add_members-KeepsTally :
      (accounts : List ℕ) (env : Env) (s : EthState chain)
      → KeepsTally s (add_members chain accounts env s)
  unfolding add_members
  add_members-KeepsTally [] env s = refl
  add_members-KeepsTally (a ∷ accounts) env s =
      let id = member_id chain.keccak256 s.committee_id a in
      ground (
        arith,
        add_members-KeepsTally accounts env
            (record s { self = record (s.self) { committee = set s.committee id true } }),
      )

  set_committee-KeepsTally :
      (accounts : List ℕ) (threshold : ℕ) (env : Env) (s : EthState chain)
      → KeepsTally s (set_committee chain accounts threshold env s)
  unfolding set_committee set_members only_owner when_paused
  set_committee-KeepsTally accounts threshold env s = ground (
    arith,
    add_members-KeepsTally accounts env
        (record s { self = record (s.self) { committee_id = s.committee_id + 1 } }),
  )

  -- Every call but a vote leaves the votes alone.
  pub call-votes_of :
      (c : EthMostCall chain) (env : Env) (s : EthState chain)
      → is_vote c ≡ false
      → votes_of (after (run_call chain c env s) s) ≡ votes_of s
  unfolding run_call receive_ether renounce_ownership send_request send_request_native announce
      add_pair remove_pair pause unpause recover_erc20 recover_native only_owner when_paused
      when_not_paused set_committee set_members
  call-votes_of (sends src amount dest) env s e = ground arith
  call-votes_of (sends_native dest) env s e = ground arith
  call-votes_of (receives h k a r d n) env s e = absurd (cc)
  call-votes_of (sets_committee accounts threshold) env s e =
      ground (arith, set_committee-KeepsTally accounts threshold env s)
  call-votes_of _ env s e = ground arith

  pub step-IsEthTallied :
      (tx : EthTransaction chain) (s : EthState chain)
      → IsEthTallied (votes_of s)
      → IsEthTallied (votes_of (step chain s tx))
  unfolding step run_call
  step-IsEthTallied tx s v =
      let met : EthState chain = record s { world = tx.world } in
      elim (call-cases tx.call) [
        | inl other ↦ subst IsEthTallied (sym (call-votes_of tx.call tx.env met other)) v
        | inr (h, k, a, r, d, n, e) ↦ rw (e) (received-IsEthTallied chain tx.env h k a r d n met v)
      ]

  pub run-IsEthTallied :
      (s : EthState chain) (txs : List (EthTransaction chain))
      → IsEthTallied (votes_of s)
      → IsEthTallied (votes_of (run chain s txs))
  unfolding run
  run-IsEthTallied s [] v = v
  run-IsEthTallied s (tx ∷ txs) v =
      run-IsEthTallied (step chain s tx) txs (step-IsEthTallied tx s v)
