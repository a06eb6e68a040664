-- ===== src/Most/Voting.antt =====
-- A vote under way in azero/contracts/most/lib.rs: the committee stands, and the request is undecided
-- or executed, whatever other calls come in between.
use mathlib.Core.Path.{subst, refl, sym}
use most_aleph_zero_bridge.Most.Sending.{send_request-Sent}
use most_aleph_zero_bridge.Most.Bridge.{send_request, payout_rewards, receive_request}
use most_aleph_zero_bridge.Most.Calls.{
  pays_out, sends, MostCall, receives, run, Transaction, run_call, step,
}
use most_aleph_zero_bridge.Most.Votes.{run-IsTallied, IsTallied, votes}
use most_aleph_zero_bridge.Most.Receiving.{
  receive_request-Received, was_executed, was_counted, was_signed, was_processed, Received,
}
use most_aleph_zero_bridge.Most.Setting.{call-setting, leaves_committee, mode_of, setting}
use most_aleph_zero_bridge.Most.View.{call-bridge_view, bridge_events, bridge_view}
use most_aleph_zero_bridge.Most.Types.{State}
use most_aleph_zero_bridge.Common.{
  All, List, inr, inl, Outcome-cases, after, [], ◌∷◌, ◌<◌, false, arith, some, ◌⊎◌, true, ◌≡◌,
  contains, Env, insert, Mapping, ℕ,
}
use most_aleph_zero_bridge.Most.Chain.{Chain}

module _ (chain : Chain) (hash current threshold : ℕ) (members : Mapping (ℕ × ℕ) (Unit {0})) where
  -- The bridge runs with these members, and the current committee has this threshold.
  pub record IsOpen (s : State (chain.World)) : Type 0 where
    pub mode : mode_of s.lazy_data ≡ some (false, current)
    pub same_members : s.committees ≡ members
    pub required : s.signature_thresholds current ≡ some threshold

  -- The request is executed, or has not got enough votes yet.
  pub record IsVoting (s : State (chain.World)) : Type 0 where
    pub open_state : IsOpen s
    pub tallied : IsTallied (bridge_view s)
    pub undecided :
        (contains s.processed_requests hash ≡ true)
        ⊎ (votes hash (bridge_events s.events) < threshold)

  abbrev Undecided : State (chain.World) → Type 0
  Undecided s =
      (contains s.processed_requests hash ≡ true)
      ⊎ (votes hash (bridge_events s.events) < threshold)

  IsOpen-setting : (s t : State (chain.World)) → setting t ≡ setting s → IsOpen s → IsOpen t
  IsOpen-setting s t e o = record {
    mode = ground (arith, o.mode);
    same_members = ground (arith, o.same_members);
    required = ground (arith, o.required);
  }

  Undecided-Received :
      (h k a r d n : ℕ) (env : Env) (s t : State (chain.World))
      → IsVoting s
      → Received chain h k a r d n env s t
      → Undecided t
  unfolding insert
  Undecided-Received h k a r d n env s t v (was_processed old e) = ground arith
  Undecided-Received h k a r d n env s t v (was_signed old signed e) = ground arith
  Undecided-Received h k a r d n env s t v
        (was_counted d0 needed new unsigned hashed stored limit less e) =
      ground (arith, v.tallied.counted hash)
  Undecided-Received h k a r d n env s t v
        (was_executed d0 needed w new unsigned hashed stored limit enough minted e paid announced) =
      ground arith

  voting_call :
      (c : MostCall) (env : Env) (s : State (chain.World))
      → leaves_committee c ≡ true
      → IsVoting s
      → Undecided (after (run_call chain c env s) s)
  unfolding run_call payout_rewards
  voting_call (sends src amt to) env s e v =
      elim (Outcome-cases (send_request chain src amt to env s)) [
        | inl (_, t, sent) ↦
            ground (arith, v.undecided, send_request-Sent chain env s src amt to sent)
        | inr failed ↦ ground (arith, v.undecided)
      ]
  voting_call (receives h k a r d n) env s e v =
      elim (Outcome-cases (receive_request chain h k a r d n env s)) [
        | inl (_, t, received) ↦ ground (
          arith,
          Undecided-Received h k a r d n env s t v
              (receive_request-Received chain h k a r d n env s received),
        )
        | inr failed ↦ ground (arith, v.undecided)
      ]
  voting_call (pays_out k a) env s e v = ground (arith, v.undecided)
  voting_call c env s e v =
      subst (λ w. (contains w.processed_requests hash ≡ true) ⊎ (votes hash w.events < threshold))
        (sym (call-bridge_view chain c env s refl)) v.undecided

  pub step-IsVoting :
      (tx : Transaction chain) (s : State (chain.World))
      → leaves_committee tx.call ≡ true
      → IsVoting s
      → IsVoting (step chain s tx)
  unfolding step run
  step-IsVoting tx s e v =
      let met : State (chain.World) = record s { world = tx.world } in
      record {
        open_state =
            IsOpen-setting met (step chain s tx) (call-setting chain tx.env met tx.call e)
              (IsOpen-setting s met refl v.open_state);
        tallied = run-IsTallied chain s (tx ∷ []) v.tallied;
        undecided = voting_call tx.call tx.env met e (record {
          open_state = IsOpen-setting s met refl v.open_state;
          tallied = v.tallied;
          undecided = v.undecided;
        });
      }

  pub run-IsVoting :
      (txs : List (Transaction chain)) (s : State (chain.World))
      → All (λ tx. leaves_committee tx.call ≡ true) txs
      → IsVoting s
      → IsVoting (run chain s txs)
  unfolding run
  run-IsVoting [] s e v = v
  run-IsVoting (tx ∷ txs) s e v = run-IsVoting txs (step chain s tx) e.1 (step-IsVoting tx s e.0 v)
