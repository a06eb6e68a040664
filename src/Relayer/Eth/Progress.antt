-- ===== src/Relayer/Eth/Progress.antt =====
-- Nothing is lost by the listener of relayer/relayer/src/listeners/eth.rs: no block up to the one
-- cached in Redis has an unhandled event.
use most_aleph_zero_bridge.Relayer.Eth.Pending.{
  poll-Inv, AnswerFits, DoneBut, FitsU32, IsDone, SealedAt-more, InPhase, SealedAt, Inv,
}
use most_aleph_zero_bridge.Common.{
  if◌then◌else◌, ℕ, ◌+◌, ◌≤◌, ◌<◌, ◌≡◌, inl, inr, Bool, true, false, Option, none, some, List, [],
  ◌∷◌, All, arith, leb, Bool-cases,
}
use most_aleph_zero_bridge.Relayer.Blocks.{add_u32, read_first_unprocessed_block_number}
use most_aleph_zero_bridge.Relayer.Eth.{
  MostEvent, Phase, waiting, handling, halted, Answer, accepted, refused, failed, Listener, Action,
  polls, handles, resumes, finishes, stops, restarts, started, attempt, step, run,
}

module _ (block_events : ℕ → List MostEvent) (sync_step default_block : ℕ) where
  attempt-Inv :
      (answer : Answer) (event : MostEvent) (events : List MostEvent) (to_block : ℕ) (s : Listener)
      → Inv block_events sync_step default_block s
      → InPhase block_events sync_step default_block (handling (event ∷ events) to_block) s
      → Inv block_events sync_step default_block
          (attempt block_events sync_step default_block answer event events to_block s)
  unfolding attempt
  attempt-Inv accepted event events to_block s h q = record {
    sealed = SealedAt-more block_events sync_step default_block s.cached s.handled event h.sealed;
    cached_fits = h.cached_fits;
    in_phase = (λ b low high e inside. ground (arith, q.0 b low high e inside), q.1);
  }
  attempt-Inv (refused none) event events to_block s h q = record {
    sealed = h.sealed;
    cached_fits = h.cached_fits;
    in_phase = tt;
  }
  attempt-Inv (refused (some true)) event events to_block s h q = record {
    sealed = h.sealed;
    cached_fits = h.cached_fits;
    in_phase = q;
  }
  attempt-Inv (refused (some false)) event events to_block s h q = record {
    sealed = h.sealed;
    cached_fits = h.cached_fits;
    in_phase = tt;
  }
  attempt-Inv failed event events to_block s h q = record {
    sealed = h.sealed;
    cached_fits = h.cached_fits;
    in_phase = tt;
  }

  -- Nothing is left of a range: it is done.
  DoneBut-all :
      (bound : ℕ) (handled : List MostEvent)
      → DoneBut block_events sync_step default_block [] bound handled
      → (b : ℕ) → default_block ≤ b
      → b < bound
      → IsDone block_events sync_step default_block b handled
  DoneBut-all bound handled q b low high e inside = elim (q b low high e inside) [
    | inl none_left ↦ absurd none_left
    | inr done ↦ done
  ]

  started-Inv :
      (answer cached : Option ℕ) (handled : List MostEvent)
      → SealedAt block_events sync_step default_block answer handled
      → AnswerFits block_events sync_step default_block answer
      → SealedAt block_events sync_step default_block cached handled
      → AnswerFits block_events sync_step default_block cached
      → Inv block_events sync_step default_block
          (started block_events sync_step default_block answer cached handled)
  unfolding started read_first_unprocessed_block_number
  started-Inv none cached handled done fits sealed cached_fits = record {
    sealed = sealed;
    cached_fits = cached_fits;
    in_phase = λ b low high. absurd (omega arith);
  }
  started-Inv (some c) cached handled done fits sealed cached_fits = record {
    sealed = sealed;
    cached_fits = cached_fits;
    in_phase = λ b low high e inside. inr (done b low (omega arith) e inside);
  }

  restarts-Inv :
      (answered : Bool) (s : Listener)
      → Inv block_events sync_step default_block s
      → Inv block_events sync_step default_block (
          started block_events sync_step default_block
            (if answered then s.cached else none)
            s.cached
            s.handled)
  restarts-Inv true s h =
      started-Inv s.cached s.cached s.handled h.sealed h.cached_fits h.sealed h.cached_fits
  restarts-Inv false s h = started-Inv none s.cached s.handled tt tt h.sealed h.cached_fits

  step-Inv :
      (p : Phase) (a : Action) (s : Listener)
      → FitsU32 sync_step a
      → Inv block_events sync_step default_block s
      → InPhase block_events sync_step default_block p s
      → Inv block_events sync_step default_block (step block_events sync_step default_block p a s)
  unfolding step
  step-Inv waiting (polls best emergency) s fits h q =
      elim (Bool-cases (leb s.first_unprocessed_block_number best)) [
        | inl newer ↦
            rw (step, newer)
              (poll-Inv block_events sync_step default_block best emergency s fits (ground arith) h
                q)
        | inr older ↦ rw (step, older) h
      ]
  step-Inv (handling (event ∷ events) to_block) (handles answer) s fits h q =
      attempt-Inv answer event events to_block s h q
  step-Inv (handling [] to_block) (finishes true) s fits h q =
      let next : add_u32 to_block 1 ≡ to_block + 1 = ground arith in
      rw (step, next)
        (record {
          sealed = λ b low high. DoneBut-all (to_block + 1) s.handled q.0 b low (omega arith);
          cached_fits = q.1;
          in_phase = q.0;
        })
  step-Inv (handling [] to_block) (finishes false) s fits h q = record {
    sealed = h.sealed;
    cached_fits = h.cached_fits;
    in_phase = tt;
  }
  step-Inv (halted events to_block) (resumes (some false)) s fits h q = record {
    sealed = h.sealed;
    cached_fits = h.cached_fits;
    in_phase = q;
  }
  step-Inv (halted events to_block) (resumes none) s fits h q = record {
    sealed = h.sealed;
    cached_fits = h.cached_fits;
    in_phase = tt;
  }
  step-Inv (halted events to_block) (resumes (some true)) s fits h q = h
  step-Inv _ stops s fits h q = record {
    sealed = h.sealed;
    cached_fits = h.cached_fits;
    in_phase = tt;
  }
  step-Inv _ (restarts answered) s fits h q = restarts-Inv answered s h
  step-Inv _ _ s fits h q = h

  run-Inv :
      (s : Listener) (actions : List Action)
      → All (FitsU32 sync_step) actions
      → Inv block_events sync_step default_block s
      → Inv block_events sync_step default_block
          (run block_events sync_step default_block actions s)
  unfolding run
  run-Inv s [] fits h = h
  run-Inv s (a ∷ actions) fits h =
      run-Inv (step block_events sync_step default_block s.phase a s) actions fits.1
        (step-Inv s.phase a s fits.0 h h.in_phase)

  -- Along every run of the listener, with refused votes, halts, failures and restarts, whatever the
  -- emergency flag, and whether or not Redis can be read or written: every event of every block
  -- from the default block up to the block cached in Redis has been handled successfully. Block
  -- numbers fit 32 bits.
  pub run-SealedAt :
      (actions : List Action)
      → All (FitsU32 sync_step) actions
      → let s =
          run block_events sync_step default_block actions
            (started block_events sync_step default_block none none []) in
        SealedAt block_events sync_step default_block s.cached s.handled
  run-SealedAt actions fits =
      (run-Inv (started block_events sync_step default_block none none []) actions fits
        (started-Inv none none [] tt tt tt tt)).sealed
