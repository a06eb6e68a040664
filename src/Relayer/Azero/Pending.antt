-- ===== src/Relayer/Azero/Pending.antt =====
-- What the pending blocks of relayer/relayer/src/listeners/azero.rs guarantee at every moment.
use most_aleph_zero_bridge.Common.{
  ◌≢◌, ==_iff, ◌==◌, ℕ, zero, suc, ◌+◌, ◌≤◌, ◌<◌, ◌≡◌, ◌⊎◌, inl, inr, true, Option, none, some,
  List, [], ◌∷◌, All, arith, Option-cases, Bool-cases, u32_size,
}
use most_aleph_zero_bridge.Relayer.Blocks.{
  elem, insert, remove, first, blocks_from, read_first_unprocessed_block_number, elem-insert,
  elem-remove, first-least,
}
use most_aleph_zero_bridge.Relayer.Azero.{
  Phase, waiting, adding, handling, stopped, SealingTask, Listener, take_at, started,
}

abbrev pub In : {A : Type 0} → A → List A → Type 0
In x [] = ⊥
In x (y ∷ ys) = (x ≡ y) ⊎ In x ys

-- What is taken out of a list and what is left are all that was in it.
pub take_at-In :
    {A : Type 0} (n : ℕ) (xs : List A) {x : A} {rest : List A}
    → take_at n xs ≡ some (x, rest)
    → (y : A) → In y xs
    → (y ≡ x) ⊎ In y rest
unfolding take_at
take_at-In n [] e y h = absurd h
take_at-In zero (x ∷ xs) e y h = ground arith
take_at-In (suc n) (x ∷ xs) e y h = elim (Option-cases (take_at n xs)) [
  | inl missing ↦ ground arith
  | inr (found, at) ↦ ground (arith, take_at-In n xs at y)
]

-- What holds of all elements holds of the one taken and of the others.
pub take_at-All :
    {A : Type 0} (P : A → Type 0) (n : ℕ) (xs : List A) {x : A} {rest : List A}
    → take_at n xs ≡ some (x, rest)
    → All P xs
    → P x × All P rest
unfolding take_at
take_at-All P n [] e h = absurd (cc)
take_at-All P zero (x ∷ xs) e h = ground arith
take_at-All P (suc n) (x ∷ xs) e h = elim (Option-cases (take_at n xs)) [
  | inl missing ↦ ground arith
  | inr (found, at) ↦ ground (arith, take_at-All P n xs at h.1)
]

pub take_at-nonempty :
    {A : Type 0} (n : ℕ) (xs : List A) {found : A × List A} → take_at n xs ≡ some found → xs ≢ []
unfolding take_at
take_at-nonempty n [] e = absurd (cc)
take_at-nonempty n (x ∷ xs) e = λ h. cc

pub blocks_from-All :
    (from count : ℕ) (bound : ℕ)
    → from + count ≤ bound
    → All (λ b. b < bound) (blocks_from from count)
unfolding blocks_from
blocks_from-All from zero bound h = tt
blocks_from-All from (suc count) bound h =
    (omega arith, blocks_from-All (from + 1) count bound (omega arith))

module _ {Event : Type 0} (block_events : ℕ → List Event) (default_block : ℕ) where
  -- All events of a block are handled.
  abbrev pub IsDone : ℕ → List Event → Type 0
  IsDone b handled = (e : Event) → In e (block_events b) → In e handled

  -- The block that was cached last, and all before it from the default block on, are done.
  abbrev pub SealedAt : Option ℕ → List Event → Type 0
  SealedAt none handled = Unit {0}
  SealedAt (some c) handled = (b : ℕ) → default_block ≤ b → b ≤ c → IsDone b handled

  abbrev pub IsSealed : Listener Event → Type 0
  IsSealed s = SealedAt s.cached s.handled

  -- An event of the task's block is handled or still awaited.
  abbrev pub IsTask : ℕ → List Event → SealingTask Event → Type 0
  IsTask front handled task =
      (task.block_number < front)
      × ((e : Event) → In e (block_events task.block_number) → In e task.event_tasks ⊎ In e handled)

  -- Every block below `front` is done or pending, and `front` itself is pending.
  pub record IsLive (front : ℕ) (s : Listener Event) : Type 0 where
    pub fits : front < u32_size
    pub ahead : elem front s.pending_blocks ≡ true
    pub positive : (b : ℕ) → elem b s.pending_blocks ≡ true → 0 < b
    pub covered :
        (b : ℕ)
        → default_block ≤ b
        → b < front
        → elem b s.pending_blocks ≡ true ⊎ IsDone b s.handled
    pub tasks : All (IsTask front s.handled) s.block_sealing_tasks

  -- How far the pending blocks reach in each phase.
  abbrev pub InPhase : Phase → Listener Event → Type 0
  InPhase waiting s = IsLive s.first_unprocessed_block_number s
  InPhase (adding b to_block) s =
      IsLive b s
      × (b ≤ to_block + 1)
      × (s.first_unprocessed_block_number ≤ b)
      × (to_block + 1 < u32_size)
  InPhase (handling blocks to_block) s =
      IsLive (to_block + 1) s × All (λ b. b < to_block + 1) blocks
  InPhase stopped s = s.block_sealing_tasks ≡ []

  abbrev pub CachedFits : Listener Event → Type 0
  CachedFits s = elim s.cached [ none ↦ Unit {0} | some c ↦ c + 1 < u32_size ]

  pub record Inv (s : Listener Event) : Type 0 where
    pub sealed : IsSealed s
    pub cached_fits : CachedFits s
    pub in_phase : InPhase s.phase s

  -- An action of a task keeps what holds in the phase, if it keeps `IsLive`.
  pub InPhase-tasks :
      (p : Phase) (s t : Listener Event)
      → t.first_unprocessed_block_number ≡ s.first_unprocessed_block_number
      → ((front : ℕ) → IsLive front s → IsLive front t)
      → (s.block_sealing_tasks ≡ [] → t.block_sealing_tasks ≡ [])
      → InPhase p s
      → InPhase p t
  InPhase-tasks waiting s t e live none_left h = simp e (live s.first_unprocessed_block_number h)
  InPhase-tasks (adding b to_block) s t e live none_left h = (live b h.0, h.1, rw e (h.2), h.3)
  InPhase-tasks (handling blocks to_block) s t e live none_left h = (live (to_block + 1) h.0, h.1)
  InPhase-tasks stopped s t e live none_left h = none_left h

  -- One more event is handled.
  pub IsTask-more :
      (front : ℕ) (handled : List Event) (e : Event) (ts : List (SealingTask Event))
      → All (IsTask front handled) ts
      → All (IsTask front (e ∷ handled)) ts
  IsTask-more front handled e [] h = tt
  IsTask-more front handled e (t ∷ ts) h =
      ((h.0.0, λ x i. ground (arith, h.0.1 x i)), IsTask-more front handled e ts h.1)

  -- The frontier moves up.
  pub IsTask-up :
      (front next : ℕ) (handled : List Event) (ts : List (SealingTask Event))
      → front ≤ next
      → All (IsTask front handled) ts
      → All (IsTask next handled) ts
  IsTask-up front next handled [] le h = tt
  IsTask-up front next handled (t ∷ ts) le h =
      ((omega (arith, h.0.0), h.0.1), IsTask-up front next handled ts le h.1)

  pub started-IsLive :
      (sync_step : ℕ) (answer cached : Option ℕ) (handled : List Event)
      → 0 < read_first_unprocessed_block_number answer default_block
      → read_first_unprocessed_block_number answer default_block < u32_size
      → ((b : ℕ)
          → default_block ≤ b
          → b < read_first_unprocessed_block_number answer default_block
          → IsDone b handled)
      → IsLive
          (read_first_unprocessed_block_number answer default_block)
          (started block_events sync_step default_block answer cached handled)
  unfolding started elem insert
  started-IsLive sync_step answer cached handled pos small done = record {
    fits = small;
    ahead = ground arith;
    positive = λ b h. ground arith;
    covered = λ b low high. inr (done b low high);
    tasks = tt;
  }

  -- `add_to_pending` moves the frontier by one block.
  pub add-IsLive :
      (b : ℕ) (s : Listener Event) (p : Phase)
      → b + 1 < u32_size
      → IsLive b s
      → IsLive (b + 1) (record s { phase = p; pending_blocks = insert (b + 1) s.pending_blocks })
  add-IsLive b s p small h = record {
    fits = small;
    ahead = ground (arith, elem-insert (b + 1) (b + 1) s.pending_blocks);
    positive = λ x e. ground (arith, elem-insert x (b + 1) s.pending_blocks, h.positive x);
    covered = λ x low high.
        ground (arith, elem-insert x (b + 1) s.pending_blocks, h.covered x low, h.ahead);
    tasks = IsTask-up b (b + 1) s.handled s.block_sealing_tasks (omega arith) h.tasks;
  }

  -- A pending block, not the frontier, whose events are done, is removed.
  pub remove-IsLive :
      (front b : ℕ) (others : List (SealingTask Event)) (cached : Option ℕ) (s : Listener Event)
      → b < front
      → IsDone b s.handled
      → All (IsTask front s.handled) others
      → IsLive front s
      → IsLive front (record s {
        pending_blocks = remove b s.pending_blocks;
        block_sealing_tasks = others;
        cached = cached;
      })
  remove-IsLive front b others cached s below done rest h = record {
    fits = h.fits;
    ahead = ground (arith, elem-remove front b s.pending_blocks, h.ahead);
    positive = λ x e. ground (arith, elem-remove x b s.pending_blocks, h.positive x);
    covered = λ x low high. elim (Bool-cases (x == b)) [
      | inl same ↦ inr (rw ((==_iff x b).0 same) done)
      | inr other ↦ ground (arith, elem-remove x b s.pending_blocks, h.covered x low high)
    ];
    tasks = rest;
  }

  -- A block before the earliest pending one is done.
  pub earliest-IsDone :
      (front m : ℕ) (s : Listener Event)
      → IsLive front s
      → first s.pending_blocks ≡ some m
      → (b : ℕ) → default_block ≤ b
      → b < m
      → IsDone b s.handled
  earliest-IsDone front m s h e b low high =
      let bound : m ≤ front = first-least front s.pending_blocks e h.ahead in
      elim (h.covered b low (omega arith)) [
        | inl pending ↦ absurd (ground (arith, first-least b s.pending_blocks e pending))
        | inr done ↦ done
      ]

  pub SealedAt-more :
      (c : Option ℕ) (handled : List Event) (e : Event)
      → SealedAt c handled
      → SealedAt c (e ∷ handled)
  SealedAt-more none handled e h = tt
  SealedAt-more (some c) handled e h = λ b low high x i. inr (h b low high x i)
