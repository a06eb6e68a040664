-- ===== src/EthContract/Execution.antt =====
-- The call that executes a request in eth/contracts/Most.sol, in a history of calls.
use mathlib.Core.Path.{subst}
use most_aleph_zero_bridge.Common.{
  ℕ, ◌≡◌, ◌⊎◌, inl, inr, sym, Bool, true, false, List, [], ◌∷◌, All, Env, after, arith, Bool-cases,
  Outcome-cases, ap, ◌∙◌,
}
use most_aleph_zero_bridge.EthContract.Types.{EthChain, EthState, EthEvent}
use most_aleph_zero_bridge.EthContract.Encoding.{member_id}
use most_aleph_zero_bridge.EthContract.Bridge.{receive_request, is_in_committee, bytes32_to_address}
use most_aleph_zero_bridge.EthContract.Calls.{
  EthMostCall, receives, EthTransaction, run_call, step, run,
}
use most_aleph_zero_bridge.EthContract.Voting.{call-cases, call-votes_of}
use most_aleph_zero_bridge.EthContract.Returning.{TokensReturn}
use most_aleph_zero_bridge.EthContract.Received.{
  EthReceived, was_processed, was_signed, was_counted, was_executed, receive_request-EthReceived,
}
use most_aleph_zero_bridge.EthContract.Open

module _ (chain : EthChain) (hash committee_id token amount receiver threshold weth : ℕ)
    (members : ℕ → Bool) where
  abbrev IsEthVoting : EthState chain → Type 0
  IsEthVoting s =
      Open.IsEthVoting chain hash committee_id token amount receiver threshold weth members s

  abbrev IsCalm : EthMostCall chain → Type 0
  IsCalm c = Open.IsCalm chain hash committee_id token amount receiver threshold weth members c

  -- A member's call at which the tokens are returned to the receiver, between two worlds.
  pub record Executes (env : Env) (w v : chain.World) : Type 0 where
    pub by_member : members (member_id chain.keccak256 committee_id env.caller) ≡ true
    pub told : List EthEvent
    pub moved :
        TokensReturn chain hash weth env.account_id
          (bytes32_to_address token)
          (bytes32_to_address receiver)
          amount
          w
          v
          told

  -- Some of the transactions executes the request.
  abbrev pub ExecutedIn : EthState chain → List (EthTransaction chain) → Type 0
  ExecutedIn s [] = ⊥
  ExecutedIn s (tx ∷ txs) =
      Executes tx.env tx.world (step chain s tx).world ⊎ ExecutedIn (step chain s tx) txs

  EthReceived-Executes :
      (h k a r d n : ℕ) (env : Env) (s t : EthState chain)
      → IsEthVoting s
      → IsCalm (receives h k a r d n)
      → s.processed_requests hash ≡ false
      → t.processed_requests hash ≡ true
      → is_in_committee chain s.self k env.caller ≡ true
      → EthReceived chain h k a r d n env s t
      → Executes env s.world t.world
  unfolding is_in_committee
  EthReceived-Executes h k a r d n env s t v calm new done member (was_processed old e) =
      absurd (ground arith)
  EthReceived-Executes h k a r d n env s t v calm new done member (was_signed old signed e) =
      absurd (ground arith)
  EthReceived-Executes h k a r d n env s t v calm new done member
        (was_counted old unsigned hashed short e) =
      absurd (ground arith)
  EthReceived-Executes h k a r d n env s t v calm new done member
        (was_executed told old unsigned hashed enough moved self events) =
      let same_hash : h ≡ hash = ground arith in
      let same = calm (sym hashed ∙ same_hash) in
      record {
        by_member = ground (arith, same, v.same_members);
        told = told;
        moved = rw (← same_hash, ← v.wraps, ← same.1, ← same.2, ← same.3) moved;
      }

  receives-Executes :
      (h k a r d n : ℕ) (env : Env) (s : EthState chain)
      → IsEthVoting s
      → IsCalm (receives h k a r d n)
      → s.processed_requests hash ≡ false
      → (after (receive_request chain h k a r d n env s) s).processed_requests hash ≡ true
      → Executes env s.world (after (receive_request chain h k a r d n env s) s).world
  receives-Executes h k a r d n env s v calm new done =
      elim (Outcome-cases (receive_request chain h k a r d n env s)) [
        | inl (_, t, returned) ↦
            let (paused, member, ended) =
              receive_request-EthReceived chain h k a r d n env s returned in
            rw (returned)
              (EthReceived-Executes h k a r d n env s t v calm new (ground arith) member ended)
        | inr failed ↦ absurd (ground arith)
      ]

  -- A call that marks the request as processed has executed it.
  step-Executes :
      (tx : EthTransaction chain) (s : EthState chain)
      → IsEthVoting s
      → IsCalm tx.call
      → s.processed_requests hash ≡ false
      → (step chain s tx).processed_requests hash ≡ true
      → Executes tx.env tx.world (step chain s tx).world
  unfolding step run_call
  step-Executes tx s v calm new done =
      let met : EthState chain = record s { world = tx.world } in
      elim (call-cases tx.call) [
        | inl other ↦
            let kept =
              ap (λ w. w.processed_requests hash) (call-votes_of chain tx.call tx.env met other) in
            absurd (ground arith)
        | inr (h, k, a, r, d, n, e) ↦ rw (e) (
            receives-Executes h k a r d n tx.env met
              (Open.met-IsEthVoting chain hash committee_id token amount receiver threshold weth
                members s tx.world v)
              (subst IsCalm e calm) new
              (subst (λ c. (after (run_call chain c tx.env met) met).processed_requests hash ≡ true)
                e done))
      ]

  -- A history at whose end the request is processed, and was not at its start, executes it.
  pub run-ExecutedIn :
      (txs : List (EthTransaction chain)) (s : EthState chain)
      → IsEthVoting s
      → All (λ tx. IsCalm tx.call) txs
      → s.processed_requests hash ≡ false
      → (run chain s txs).processed_requests hash ≡ true
      → ExecutedIn s txs
  unfolding run
  run-ExecutedIn [] s v calm new done = absurd (ground arith)
  run-ExecutedIn (tx ∷ txs) s v calm new done =
      elim (Bool-cases ((step chain s tx).processed_requests hash)) [
        | inl now ↦ inl (step-Executes tx s v calm.0 new now)
        | inr later ↦ inr (
            run-ExecutedIn txs (step chain s tx)
              (Open.step-IsEthVoting chain hash committee_id token amount receiver threshold weth
                members tx s calm.0 v)
              calm.1 later done)
      ]
