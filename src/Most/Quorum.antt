-- ===== src/Most/Quorum.antt =====
-- A vote in azero/contracts/most/lib.rs comes to its end.
use most_aleph_zero_bridge.Most.Voters.{executions_once, distinct_voters, executions}
use most_aleph_zero_bridge.Most.Committee.{IsDistinct}
use most_aleph_zero_bridge.Shared.{hash_request_data}
use most_aleph_zero_bridge.Most.Query.{
  request_status, ensure_not_halted, is_in_committee, only_committee_member, read_data,
}
use most_aleph_zero_bridge.Most.Sending.{send_request-Sent}
use most_aleph_zero_bridge.Most.Bridge.{
  send_pocket_money, mint_to, execute_request, sign_request, send_request, payout_rewards,
  receive_request,
}
use most_aleph_zero_bridge.Most.Calls.{receives, run, Transaction, run_call, step}
use most_aleph_zero_bridge.Most.Votes.{counted_votes}
use most_aleph_zero_bridge.Most.Setting.{leaves_committee}
use most_aleph_zero_bridge.Most.View.{view_inv, bridge_events, bridge_view, BridgeView}
use most_aleph_zero_bridge.Most.Types.{processed, Data, State}
use most_aleph_zero_bridge.Common.{
  All-map, length, ◌≤◌, All, List, Option-cases, Bool-cases, ◌+◌, checked_sub, u128_size,
  checked_add, inr, inl, Outcome-cases, after, [], ◌∷◌, returns, ◌<◌, false, arith, some, ◌⊎◌, true,
  ◌≡◌, contains, Env, insert, Mapping, ℕ,
}
use most_aleph_zero_bridge.Most.Chain.{Chain}
use most_aleph_zero_bridge.Most.Voting

module _ (chain : Chain) (hash committee_id token amount dest nonce : ℕ) (current threshold : ℕ)
    (members : Mapping (ℕ × ℕ) (Unit {0})) where
  abbrev IsVoting : State (chain.World) → Type 0
  IsVoting s = Voting.IsVoting chain hash current threshold members s

  -- A vote of this account is counted, or the request is executed without it.
  abbrev pub HasVoted : ℕ → BridgeView → Type 0
  HasVoted a v =
      (contains v.processed_requests hash ≡ true) ⊎ (contains v.signatures (hash, a) ≡ true)

  -- What an account's vote is.
  pub record IsVote (a : ℕ) (tx : Transaction chain) : Type 0 where
    pub by : tx.env.caller ≡ a
    pub votes_for : tx.call ≡ receives hash committee_id token amount dest nonce
    pub mints :
        (w : chain.World) × (chain.psp22_mint tx.env.account_id token dest amount tx.world
          ≡ returns tt w)

  -- Some of the transactions is a vote of this account.
  abbrev pub Votes : ℕ → List (Transaction chain) → Type 0
  Votes a [] = ⊥
  Votes a (tx ∷ txs) = IsVote a tx ⊎ Votes a txs

  receive_request-HasVoted :
      (env : Env) (s : State (chain.World)) (d : Data) (w : chain.World)
      → hash ≡ hash_request_data chain.keccak256 committee_id token amount dest nonce
      → contains s.committees (committee_id, env.caller) ≡ true
      → s.lazy_data ≡ some d
      → d.is_halted ≡ false
      → s.signature_thresholds d.committee_id ≡ some threshold
      → chain.psp22_mint env.account_id token dest amount s.world ≡ returns tt w
      → (contains s.processed_requests hash ≡ false
          → counted_votes (bridge_view s) hash + 1 < u128_size)
      → HasVoted env.caller (
          bridge_view
            (after (receive_request chain hash committee_id token amount dest nonce env s) s))
  unfolding receive_request read_data sign_request execute_request mint_to send_pocket_money
      checked_add insert only_committee_member is_in_committee ensure_not_halted checked_sub
  receive_request-HasVoted env s d w hashed member stored running required minted few =
      elim (Bool-cases (contains s.processed_requests hash)) [
        | inl done ↦ ground arith
        | inr new ↦ elim (Bool-cases (contains s.signatures (hash, env.caller))) [
          | inl signed ↦ ground arith
          | inr unsigned ↦ ground arith
        ]
      ]

  module _ (hashed : hash ≡ hash_request_data chain.keccak256 committee_id token amount dest nonce)
      (small : threshold < u128_size) where
    -- The vote of a member is counted, or its request was executed before.
    vote-HasVoted :
        (a : ℕ) (tx : Transaction chain) (s : State (chain.World))
        → contains members (committee_id, a) ≡ true
        → IsVoting s
        → IsVote a tx
        → HasVoted a (bridge_view (step chain s tx))
    unfolding step run_call
    vote-HasVoted a tx s member v vote = elim (Option-cases s.lazy_data) [
      | inl missing ↦ absurd (ground (arith, v.open_state))
      | inr (d, stored) ↦
          let met : State (chain.World) = record s { world = tx.world } in
          rw (vote.votes_for, ← vote.by)
            (receive_request-HasVoted tx.env met d (vote.mints.0) hashed
              (ground (arith, v.open_state, vote.by)) stored (ground (arith, v.open_state))
              (ground (arith, v.open_state)) vote.mints.1
              (λ new. ground (arith, v.undecided, v.tallied.counted hash)))
    ]

    sends-HasVoted :
        (a src amt to : ℕ) (env : Env) (s : State (chain.World))
        → HasVoted a (bridge_view s)
        → HasVoted a (bridge_view (after (send_request chain src amt to env s) s))
    sends-HasVoted a src amt to env s v =
        elim (Outcome-cases (send_request chain src amt to env s)) [
          | inl (_, t, sent) ↦ ground (arith, send_request-Sent chain env s src amt to sent)
          | inr failed ↦ ground arith
        ]

    receives-HasVoted :
        (a h k b r d n : ℕ) (env : Env) (s : State (chain.World))
        → HasVoted a (bridge_view s)
        → HasVoted a (bridge_view (after (receive_request chain h k b r d n env s) s))
    unfolding receive_request sign_request execute_request mint_to send_pocket_money insert
    receives-HasVoted a h k b r d n env s v = ground arith

    pays-HasVoted :
        (a k b : ℕ) (env : Env) (s : State (chain.World))
        → HasVoted a (bridge_view s)
        → HasVoted a (bridge_view (after (payout_rewards chain k b env s) s))
    unfolding payout_rewards
    pays-HasVoted a k b env s v = ground arith

    stays-HasVoted :
        (a : ℕ) (txs : List (Transaction chain)) (s : State (chain.World))
        → HasVoted a (bridge_view s)
        → HasVoted a (bridge_view (run chain s txs))
    stays-HasVoted a txs s =
        view_inv chain (HasVoted a) (sends-HasVoted a) (receives-HasVoted a) (pays-HasVoted a) s txs

    run-HasVoted :
        (a : ℕ) (txs : List (Transaction chain)) (s : State (chain.World))
        → contains members (committee_id, a) ≡ true
        → All (λ tx. leaves_committee tx.call ≡ true) txs
        → IsVoting s
        → Votes a txs
        → HasVoted a (bridge_view (run chain s txs))
    unfolding run
    run-HasVoted a [] s member e v cast = absurd cast
    run-HasVoted a (tx ∷ txs) s member e v (inl vote) =
        stays-HasVoted a txs (step chain s tx) (vote-HasVoted a tx s member v vote)
    run-HasVoted a (tx ∷ txs) s member e v (inr later) =
        run-HasVoted a txs (step chain s tx) member e.1
          (Voting.step-IsVoting chain hash current threshold members tx s e.0 v) later

    cast-HasVoted :
        (a : ℕ) (txs : List (Transaction chain)) (s : State (chain.World))
        → IsVoting s
        → All (λ tx. leaves_committee tx.call ≡ true) txs
        → (contains members (committee_id, a) ≡ true) × (Votes a txs ⊎ HasVoted a (bridge_view s))
        → HasVoted a (bridge_view (run chain s txs))
    cast-HasVoted a txs s v e (member, inl later) = run-HasVoted a txs s member e v later
    cast-HasVoted a txs s v e (member, inr before) = stays-HasVoted a txs s before

    -- Voters enough for the threshold leave no request undecided.
    enough_voters :
        (t : State (chain.World)) (voters : List ℕ)
        → IsVoting t
        → IsDistinct voters
        → All (λ a. HasVoted a (bridge_view t)) voters
        → threshold ≤ length voters
        → contains t.processed_requests hash ≡ true
    enough_voters t voters v distinct voted_all enough =
        elim (Bool-cases (contains t.processed_requests hash)) [
          | inl done ↦ done
          | inr new ↦ absurd (
              ground (
                arith,
                v.undecided,
                distinct_voters hash (bridge_events t.events) voters distinct
                    (All-map voters (λ a h. ground (arith, v.tallied.recorded hash a)) voted_all),
              ))
        ]

    -- A request comes to its end: while the bridge runs, the committee stands and the request has
    -- not got enough votes yet or is executed, take any history of calls that neither set a committee
    -- nor the halted flag, with any other calls in between. If as many distinct members of the
    -- request's committee as the threshold asks for vote in it with the right hash, or had voted
    -- before, and the token can be minted at each of these votes, then at its end the request's
    -- status is `Processed`, and it was executed exactly once. The threshold is below 2 ^ 128.
    pub quorum_executes :
        (s : State (chain.World)) (txs : List (Transaction chain)) (voters : List ℕ)
        → IsVoting s
        → All (λ tx. leaves_committee tx.call ≡ true) txs
        → IsDistinct voters
        → All
            (λ a.
              (contains members (committee_id, a) ≡ true)
              × (Votes a txs ⊎ HasVoted a (bridge_view s)))
            voters
        → threshold ≤ length voters
        → let t = run chain s txs in
          (request_status t.self hash ≡ processed) × (executions hash (bridge_events t.events) ≡ 1)
    unfolding request_status
    quorum_executes s txs voters v e distinct cast enough =
        let t = run chain s txs in
        let w = Voting.run-IsVoting chain hash current threshold members txs s e v in
        let done =
          enough_voters t voters w distinct (All-map voters (λ a. cast-HasVoted a txs s v e) cast)
            enough in
        (
          ground arith,
          executions_once hash (bridge_events t.events) w.tallied.once
              (ground (arith, w.tallied.finished hash)),
        )
