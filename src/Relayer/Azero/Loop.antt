-- ===== src/Relayer/Azero/Loop.antt =====
-- The main loop of relayer/relayer/src/listeners/azero.rs keeps what the pending blocks guarantee.
use most_aleph_zero_bridge.Relayer.Azero.Pending.{
  blocks_from-All, IsTask-up, add-IsLive, take_at-All, InPhase, IsLive, Inv,
}
use most_aleph_zero_bridge.Common.{
  ℕ, ◌+◌, ◌-◌, ◌≤◌, ◌<◌, ◌≡◌, refl, inl, inr, Bool, true, false, some, List, [], arith, leb,
  Bool-cases, u32_size, length,
}
use most_aleph_zero_bridge.Relayer.Azero.{
  add_u32, waiting, adding, handling, Listener, Action, polls, take_at, poll, add_next,
  handle_events, max_requests_per_block,
}

-- The blocks that a poll leads to, and the next one, stay within 32 bits.
abbrev pub FitsU32 : ℕ → Action → Type 0
FitsU32 sync_step (polls best emergency) = best + sync_step + 1 < u32_size
FitsU32 sync_step _ = Unit {0}

module _ {Event : Type 0} (block_events : ℕ → List Event) (sync_step default_block : ℕ) where
  pub poll-Inv :
      (best : ℕ) (emergency : Bool) (s : Listener Event)
      → best + sync_step + 1 < u32_size
      → s.first_unprocessed_block_number ≤ best
      → Inv block_events default_block s
      → IsLive block_events default_block s.first_unprocessed_block_number s
      → Inv block_events default_block (poll block_events sync_step default_block best emergency s)
  unfolding poll
  poll-Inv best true s fits old h live = h
  poll-Inv best false s fits old h live = record {
    sealed = h.sealed;
    cached_fits = h.cached_fits;
    in_phase = (
      record {
        fits = live.fits;
        ahead = live.ahead;
        positive = live.positive;
        covered = live.covered;
        tasks = live.tasks;
      },
      ground arith,
      omega arith,
      ground arith,
    );
  }

  pub add_next-Inv :
      (b to_block : ℕ) (s : Listener Event)
      → Inv block_events default_block s
      → InPhase block_events default_block (adding b to_block) s
      → Inv block_events default_block (add_next block_events sync_step default_block b to_block s)
  unfolding add_next
  add_next-Inv b to_block s h q = elim (Bool-cases (leb b to_block)) [
    | inl more ↦
        let next : add_u32 b 1 ≡ b + 1 = ground arith in
        rw (add_next, more, next)
          (record {
            sealed = h.sealed;
            cached_fits = h.cached_fits;
            in_phase = (
              add-IsLive block_events default_block b s (adding (b + 1) to_block) (ground arith)
                  q.0,
              ground arith,
              ground arith,
              q.3,
            );
          })
    | inr last ↦
        let reached : b ≡ to_block + 1 = ground arith in
        rw (add_next, last)
          (record {
            sealed = h.sealed;
            cached_fits = h.cached_fits;
            in_phase = (
              record {
                fits = q.3;
                ahead = ground (arith, (q.0).ahead);
                positive = (q.0).positive;
                covered = λ x low high. (q.0).covered x low (omega arith);
                tasks =
                    IsTask-up block_events default_block b (to_block + 1) s.handled
                      s.block_sealing_tasks (omega arith) (q.0).tasks;
              },
              blocks_from-All s.first_unprocessed_block_number
                  ((to_block + 1) - s.first_unprocessed_block_number) (to_block + 1)
                  (omega (arith, q.2)),
            );
          })
  ]

  pub handle_events-Inv :
      (i b to_block : ℕ) (blocks rest : List ℕ) (s : Listener Event)
      → take_at i blocks ≡ some (b, rest)
      → Inv block_events default_block s
      → InPhase block_events default_block (handling blocks to_block) s
      → Inv block_events default_block
          (handle_events block_events sync_step default_block b rest to_block s)
  unfolding handle_events
  handle_events-Inv i b to_block blocks rest s e h q =
      let parts = take_at-All (λ x. x < to_block + 1) i blocks e q.1 in
      elim (Bool-cases (leb max_requests_per_block (length (block_events b)))) [
        | inl many ↦
            rw (handle_events, many)
              (record { sealed = h.sealed; cached_fits = h.cached_fits; in_phase = refl })
        | inr few ↦
            rw (handle_events, few)
              (record {
                sealed = h.sealed;
                cached_fits = h.cached_fits;
                in_phase = (
                  record {
                    fits = (q.0).fits;
                    ahead = (q.0).ahead;
                    positive = (q.0).positive;
                    covered = (q.0).covered;
                    tasks = ((parts.0, λ x inside. inl inside), (q.0).tasks);
                  },
                  parts.1,
                );
              })
      ]

  pub advance-Inv :
      (to_block : ℕ) (s : Listener Event)
      → Inv block_events default_block s
      → InPhase block_events default_block (handling [] to_block) s
      → Inv block_events default_block
          (record s { phase = waiting; first_unprocessed_block_number = add_u32 to_block 1 })
  advance-Inv to_block s h q =
      let small : to_block + 1 < u32_size = (q.0).fits in
      let next : add_u32 to_block 1 ≡ to_block + 1 = ground arith in
      rw next (record {
        sealed = h.sealed;
        cached_fits = h.cached_fits;
        in_phase = record {
          fits = (q.0).fits;
          ahead = (q.0).ahead;
          positive = (q.0).positive;
          covered = (q.0).covered;
          tasks = (q.0).tasks;
        };
      })
