-- ===== src/Relayer/Azero/Tasks.antt =====
-- The event and sealing tasks of relayer/relayer/src/listeners/azero.rs keep what the pending blocks
-- guarantee.
use mathlib.Core.Path.{subst}
use most_aleph_zero_bridge.Relayer.Azero.Pending.{
  remove-IsLive, In, IsTask-more, take_at-In, IsDone, IsTask, take_at-All, earliest-IsDone, IsLive,
  SealedAt-more, SealedAt, CachedFits, take_at-nonempty, InPhase-tasks, InPhase, Inv,
}
use most_aleph_zero_bridge.Common.{
  ◌≢◌, ℕ, ◌+◌, ◌≤◌, ◌<◌, ◌≡◌, refl, inl, inr, Bool, true, false, Option, if◌then◌else◌, some, List,
  [], ◌∷◌, arith, Option-cases, u32_size,
}
use most_aleph_zero_bridge.Relayer.Blocks.{
  sub_u32, remove, first, first-least, first-some, elem-first,
}
use most_aleph_zero_bridge.Relayer.Azero.{
  Phase, waiting, adding, handling, stopped, SealingTask, Listener, handles, fails, seals, take_at,
  seal_processed_block, handle_one, seal_if_done, step,
}

module _ {Event : Type 0} (block_events : ℕ → List Event) (sync_step default_block : ℕ) where
  -- One of a task's events is handled.
  event_done-Inv :
      (i j : ℕ) (task : SealingTask Event) (others : List (SealingTask Event)) (s : Listener Event)
      (event : Event) (rest : List Event)
      → take_at i s.block_sealing_tasks ≡ some (task, others)
      → take_at j task.event_tasks ≡ some (event, rest)
      → Inv block_events default_block s
      → Inv block_events default_block (record s {
        block_sealing_tasks = record task { event_tasks = rest } ∷ others;
        handled = event ∷ s.handled;
      })
  event_done-Inv i j task others s event rest e at h = record {
    sealed = SealedAt-more block_events default_block s.cached s.handled event h.sealed;
    cached_fits = h.cached_fits;
    in_phase =
        InPhase-tasks block_events default_block s.phase s _ refl
          (λ front live. record {
            fits = live.fits;
            ahead = live.ahead;
            positive = live.positive;
            covered = λ b low high. ground (arith, live.covered b low high);
            tasks =
                let all =
                  take_at-All (IsTask block_events default_block front s.handled) i
                    s.block_sealing_tasks e live.tasks in
                (
                  (
                    all.0.0,
                    λ x inside.
                        ground (arith, all.0.1 x inside, take_at-In j task.event_tasks at x),
                  ),
                  IsTask-more block_events default_block front s.handled event others all.1,
                );
          })
          (λ none_left. absurd (take_at-nonempty i s.block_sealing_tasks e none_left)) h.in_phase;
  }

  -- While a task runs, the loop has not stopped, so there is a frontier.
  IsLive-front :
      (p : Phase) (s : Listener Event)
      → InPhase block_events default_block p s
      → s.block_sealing_tasks ≢ []
      → (front : ℕ) × IsLive block_events default_block front s
  IsLive-front waiting s h busy = (s.first_unprocessed_block_number, h)
  IsLive-front (adding b to_block) s h busy = (b, h.0)
  IsLive-front (handling blocks to_block) s h busy = (to_block + 1, h.0)
  IsLive-front stopped s h busy = absurd (busy h)

  -- A listener of which all but the cache is given keeps the loop's part of the invariant.
  cache-InPhase :
      (answer : Option ℕ) (t : Listener Event)
      → InPhase block_events default_block t.phase t
      → InPhase block_events default_block t.phase (record t { cached = answer })
  cache-InPhase answer t phased =
      InPhase-tasks block_events default_block t.phase t _ refl
        (λ f l. record {
          fits = l.fits;
          ahead = l.ahead;
          positive = l.positive;
          covered = l.covered;
          tasks = l.tasks;
        })
        (λ none_left. none_left) phased

  -- What is cached, given what is pending, keeps the invariant, whether or not it is written.
  cached-Inv :
      (written : Bool) (front m : ℕ) (t : Listener Event)
      → SealedAt block_events default_block t.cached t.handled
      → CachedFits block_events default_block t
      → InPhase block_events default_block t.phase t
      → IsLive block_events default_block front t
      → first t.pending_blocks ≡ some m
      → Inv block_events default_block
          (record t { cached = if written then some (sub_u32 m 1) else t.cached })
  cached-Inv false front m t sealed fits phased live e = record {
    sealed = sealed;
    cached_fits = fits;
    in_phase = cache-InPhase t.cached t phased;
  }
  cached-Inv true front m t sealed fits phased live e =
      let positive : 0 < m = live.positive m (elem-first t.pending_blocks e) in
      let bound : m ≤ front = first-least front t.pending_blocks e live.ahead in
      let small : front < u32_size = live.fits in
      record {
        sealed = λ b low high.
            earliest-IsDone block_events default_block front m t live e b low (omega arith);
        cached_fits = omega arith;
        in_phase = cache-InPhase (some (sub_u32 m 1)) t phased;
      }

  -- A task without events left seals its block.
  sealed-Inv :
      (written : Bool) (i : ℕ) (task : SealingTask Event) (others : List (SealingTask Event))
      (s : Listener Event)
      → take_at i s.block_sealing_tasks ≡ some (task, others)
      → task.event_tasks ≡ []
      → Inv block_events default_block s
      → Inv block_events default_block (
          seal_processed_block block_events sync_step default_block written task.block_number others
            s)
  unfolding seal_processed_block
  sealed-Inv written i task others s e finished h =
      let busy = take_at-nonempty i s.block_sealing_tasks e in
      let (front, live) = IsLive-front s.phase s h.in_phase busy in
      let parts = λ (f : ℕ) (l : IsLive block_events default_block f s).
        take_at-All (IsTask block_events default_block f s.handled) i s.block_sealing_tasks e
          l.tasks in
      let done : IsDone block_events default_block task.block_number s.handled = λ x inside.
        elim ((parts front live).0.1 x inside) [
          | inl left ↦ absurd (subst (In x) finished left)
          | inr handled ↦ handled
        ] in
      let t : Listener Event = record s {
        pending_blocks = remove task.block_number s.pending_blocks;
        block_sealing_tasks = others;
      } in
      let kept : (f : ℕ)
          → IsLive block_events default_block f s
          → IsLive block_events default_block f t =
        λ f l.
          remove-IsLive block_events default_block f task.block_number others s.cached s
            (parts f l).0.0 done (parts f l).1 l in
      let phased : InPhase block_events default_block s.phase t =
        InPhase-tasks block_events default_block s.phase s t refl kept
          (λ none_left. absurd (busy none_left)) h.in_phase in
      elim (Option-cases (first t.pending_blocks)) [
        | inl empty ↦
            absurd
              (let (m, found) = first-some front t.pending_blocks (kept front live).ahead in cc)
        | inr (m, found) ↦
            rw (seal_processed_block, found)
              (cached-Inv written front m t h.sealed h.cached_fits phased (kept front live) found)
      ]

  -- A task of which an event fails ends.
  failed-Inv :
      (i : ℕ) (task : SealingTask Event) (others : List (SealingTask Event)) (s : Listener Event)
      → take_at i s.block_sealing_tasks ≡ some (task, others)
      → Inv block_events default_block s
      → Inv block_events default_block (record s { block_sealing_tasks = others })
  failed-Inv i task others s e h = record {
    sealed = h.sealed;
    cached_fits = h.cached_fits;
    in_phase =
        InPhase-tasks block_events default_block s.phase s _ refl
          (λ front live. record {
            fits = live.fits;
            ahead = live.ahead;
            positive = live.positive;
            covered = live.covered;
            tasks =
                (take_at-All (IsTask block_events default_block front s.handled) i
                  s.block_sealing_tasks e live.tasks).1;
          })
          (λ none_left. absurd (take_at-nonempty i s.block_sealing_tasks e none_left)) h.in_phase;
  }

  -- What the actions of tasks keep.
  pub handles-Inv :
      (i j : ℕ) (s : Listener Event)
      → Inv block_events default_block s
      → Inv block_events default_block (step block_events sync_step default_block (handles i j) s)
  unfolding step handle_one
  handles-Inv i j s h = elim (Option-cases (take_at i s.block_sealing_tasks)) [
    | inl missing ↦ rw (step, missing) h
    | inr ((task, others), e) ↦ elim (Option-cases (take_at j task.event_tasks)) [
      | inl missing ↦ rw (step, e, handle_one, missing) h
      | inr ((event, rest), at) ↦
          rw (step, e, handle_one, at) (event_done-Inv i j task others s event rest e at h)
    ]
  ]

  pub fails-Inv :
      (i : ℕ) (s : Listener Event)
      → Inv block_events default_block s
      → Inv block_events default_block (step block_events sync_step default_block (fails i) s)
  unfolding step
  fails-Inv i s h = elim (Option-cases (take_at i s.block_sealing_tasks)) [
    | inl missing ↦ rw (step, missing) h
    | inr ((task, others), e) ↦ rw (step, e) (failed-Inv i task others s e h)
  ]

  seal_if_done-Inv :
      (written : Bool) (i : ℕ) (task : SealingTask Event) (others : List (SealingTask Event))
      (s : Listener Event) (events : List Event)
      → take_at i s.block_sealing_tasks ≡ some (task, others)
      → task.event_tasks ≡ events
      → Inv block_events default_block s
      → Inv block_events default_block (
          seal_if_done block_events sync_step default_block written events task.block_number others
            s)
  unfolding seal_if_done
  seal_if_done-Inv written i task others s [] e finished h =
      sealed-Inv written i task others s e finished h
  seal_if_done-Inv written i task others s (event ∷ events) e unfinished h = h

  pub seals-Inv :
      (i : ℕ) (written : Bool) (s : Listener Event)
      → Inv block_events default_block s
      → Inv block_events default_block
          (step block_events sync_step default_block (seals i written) s)
  unfolding step
  seals-Inv i written s h = elim (Option-cases (take_at i s.block_sealing_tasks)) [
    | inl missing ↦ rw (step, missing) h
    | inr ((task, others), e) ↦
        rw (step, e) (seal_if_done-Inv written i task others s task.event_tasks e refl h)
  ]
