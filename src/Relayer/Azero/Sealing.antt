-- ===== src/Relayer/Azero/Sealing.antt =====
-- Nothing is lost by the listener of relayer/relayer/src/listeners/azero.rs: in every interleaving of
-- its loop and tasks, with failures and restarts, no block up to the one cached in Redis has an
-- unhandled event.
use most_aleph_zero_bridge.Relayer.Azero.Loop.{
  advance-Inv, handle_events-Inv, add_next-Inv, poll-Inv, FitsU32,
}
use most_aleph_zero_bridge.Relayer.Azero.Tasks.{seals-Inv, fails-Inv, handles-Inv}
use most_aleph_zero_bridge.Relayer.Blocks.{read_first_unprocessed_block_number}
use most_aleph_zero_bridge.Relayer.Azero.Pending.{SealedAt, started-IsLive, IsSealed, InPhase, Inv}
use most_aleph_zero_bridge.Common.{
  ℕ, ◌+◌, ◌<◌, refl, inl, inr, Bool, true, false, Option, none, some, List, [], ◌∷◌, All, arith,
  leb, Option-cases, Bool-cases, u32_size,
}
use most_aleph_zero_bridge.Relayer.Azero.{
  read_first_unprocessed_block_number, Phase, waiting, adding, handling, Listener, Action, polls,
  adds, takes, advances, handles, fails, seals, stops, restarts, take_at, started, loop_step, step,
  run,
}

module _ {Event : Type 0} (block_events : ℕ → List Event) (sync_step default_block : ℕ) where
  loop_step-Inv :
      (p : Phase) (a : Action) (s : Listener Event)
      → FitsU32 sync_step a
      → Inv block_events default_block s
      → InPhase block_events default_block p s
      → Inv block_events default_block (loop_step block_events sync_step default_block p a s)
  unfolding loop_step
  loop_step-Inv waiting (polls best emergency) s fits h q =
      elim (Bool-cases (leb s.first_unprocessed_block_number best)) [
        | inl newer ↦
            rw (loop_step, newer)
              (poll-Inv block_events sync_step default_block best emergency s fits (ground arith) h
                q)
        | inr older ↦ rw (loop_step, older) h
      ]
  loop_step-Inv (adding b to_block) adds s fits h q =
      add_next-Inv block_events sync_step default_block b to_block s h q
  loop_step-Inv (handling blocks to_block) (takes i) s fits h q =
      elim (Option-cases (take_at i blocks)) [
        | inl missing ↦ rw (loop_step, missing) h
        | inr ((b, rest), e) ↦
            rw (loop_step, e)
              (handle_events-Inv block_events sync_step default_block i b to_block blocks rest s e h
                q)
      ]
  loop_step-Inv (handling [] to_block) advances s fits h q =
      advance-Inv block_events sync_step default_block to_block s h q
  loop_step-Inv _ _ s fits h q = h

  abbrev AnswerFits : Option ℕ → Type 0
  AnswerFits none = Unit {0}
  AnswerFits (some c) = c + 1 < u32_size

  -- The listener starts from what Redis answers, or from the default block.
  started-Inv :
      (answer cached : Option ℕ) (handled : List Event)
      → 0 < default_block
      → default_block < u32_size
      → SealedAt block_events default_block answer handled
      → AnswerFits answer
      → SealedAt block_events default_block cached handled
      → AnswerFits cached
      → Inv block_events default_block
          (started block_events sync_step default_block answer cached handled)
  unfolding started read_first_unprocessed_block_number
  started-Inv none cached handled pos small done fits sealed cached_fits = record {
    sealed = sealed;
    cached_fits = ground arith;
    in_phase =
        started-IsLive block_events default_block sync_step none cached handled pos small
          (λ b low high. absurd (omega arith));
  }
  started-Inv (some c) cached handled pos small done fits sealed cached_fits = record {
    sealed = sealed;
    cached_fits = ground arith;
    in_phase =
        started-IsLive block_events default_block sync_step (some c) cached handled (omega arith)
          (omega arith) (λ b low high. done b low (omega arith));
  }

  restarts-Inv :
      (answered : Bool) (s : Listener Event)
      → 0 < default_block
      → default_block < u32_size
      → Inv block_events default_block s
      → Inv block_events default_block
          (step block_events sync_step default_block (restarts answered) s)
  unfolding step
  restarts-Inv true s pos small h =
      started-Inv s.cached s.cached s.handled pos small h.sealed (ground arith) h.sealed
        (ground arith)
  restarts-Inv false s pos small h =
      started-Inv none s.cached s.handled pos small tt tt h.sealed (ground arith)

  step-Inv :
      (a : Action) (s : Listener Event)
      → 0 < default_block
      → default_block < u32_size
      → FitsU32 sync_step a
      → Inv block_events default_block s
      → Inv block_events default_block (step block_events sync_step default_block a s)
  unfolding step
  step-Inv (handles i j) s pos small fits h =
      handles-Inv block_events sync_step default_block i j s h
  step-Inv (fails i) s pos small fits h = fails-Inv block_events sync_step default_block i s h
  step-Inv (seals i written) s pos small fits h =
      seals-Inv block_events sync_step default_block i written s h
  step-Inv stops s pos small fits h = record {
    sealed = h.sealed;
    cached_fits = h.cached_fits;
    in_phase = refl;
  }
  step-Inv (restarts answered) s pos small fits h = restarts-Inv answered s pos small h
  step-Inv _ s pos small fits h = loop_step-Inv s.phase _ s fits h h.in_phase

  run-Inv :
      (s : Listener Event) (actions : List Action)
      → 0 < default_block
      → default_block < u32_size
      → All (FitsU32 sync_step) actions
      → Inv block_events default_block s
      → Inv block_events default_block (run block_events sync_step default_block actions s)
  unfolding run
  run-Inv s [] pos small fits h = h
  run-Inv s (a ∷ actions) pos small fits h =
      run-Inv (step block_events sync_step default_block a s) actions pos small fits.1
        (step-Inv a s pos small fits.0 h)

  -- In every interleaving of the main loop, the tasks that it spawns, failures, halts and restarts,
  -- whatever the emergency flag, and whether or not Redis can be read at a restart or written at a seal: every event of
  -- every block from the default block up to the block cached in Redis has been handled
  -- successfully. The default block is not 0 and block numbers fit 32 bits.
  pub run-IsSealed :
      (actions : List Action)
      → 0 < default_block
      → default_block < u32_size
      → All (FitsU32 sync_step) actions
      → IsSealed block_events default_block (
          run block_events sync_step default_block actions
            (started block_events sync_step default_block none none []))
  run-IsSealed actions pos small fits =
      (run-Inv (started block_events sync_step default_block none none []) actions pos small fits
        (started-Inv none none [] pos small tt tt tt tt)).sealed
