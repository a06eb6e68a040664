-- ===== src/Relayer/Eth/Pending.antt =====
-- The events of relayer/relayer/src/listeners/eth.rs that are still to handle, at every moment.
use mathlib.Core.Path.{subst}
use most_aleph_zero_bridge.Common.{
  ==_iff, ◌==◌, ℕ, zero, suc, ◌+◌, ◌-◌, ◌≤◌, ◌<◌, ◌⊎◌, inl, inr, Bool, true, false, Option, none,
  some, List, [], ◌∷◌, ◌++◌, arith, Bool-cases, u32_size, ltb,
}
use most_aleph_zero_bridge.Relayer.Blocks.{add_u32, sub_u32, min}
use most_aleph_zero_bridge.Relayer.Azero.Pending.{In}
use most_aleph_zero_bridge.Relayer.Eth.{
  MostEvent, Phase, waiting, handling, halted, stopped, Listener, Action, polls, query, poll,
}

In-append : {A : Type 0} (x : A) (xs ys : List A) → In x xs ⊎ In x ys → In x (xs ++ ys)
In-append x [] ys h = ground arith
In-append x (y ∷ xs) ys h = ground (arith, In-append x xs ys)

-- The blocks that a poll leads to, and the next one, stay within 32 bits.
abbrev pub FitsU32 : ℕ → Action → Type 0
FitsU32 sync_step (polls best emergency) = best + sync_step + 1 < u32_size
FitsU32 sync_step _ = Unit {0}

module _ (block_events : ℕ → List MostEvent) (sync_step default_block : ℕ) where
  -- All events of a block are handled.
  abbrev pub IsDone : ℕ → List MostEvent → Type 0
  IsDone b handled = (e : MostEvent) → In e (block_events b) → In e handled

  -- The block that was cached last, and all before it from the default block on, are done.
  abbrev pub SealedAt : Option ℕ → List MostEvent → Type 0
  SealedAt none handled = Unit {0}
  SealedAt (some c) handled = (b : ℕ) → default_block ≤ b → b ≤ c → IsDone b handled

  abbrev pub AnswerFits : Option ℕ → Type 0
  AnswerFits none = Unit {0}
  AnswerFits (some c) = c + 1 < u32_size

  -- The blocks below a number are done but for the given events.
  abbrev pub DoneBut : List MostEvent → ℕ → List MostEvent → Type 0
  DoneBut events bound handled =
      (b : ℕ)
      → default_block ≤ b
      → b < bound
      → (e : MostEvent) → In e (block_events b)
      → In e events ⊎ In e handled

  abbrev pub InPhase : Phase → Listener → Type 0
  InPhase waiting s = DoneBut [] s.first_unprocessed_block_number s.handled
  InPhase (handling events to_block) s =
      DoneBut events (to_block + 1) s.handled × (to_block + 1 < u32_size)
  InPhase (halted events to_block) s =
      DoneBut events (to_block + 1) s.handled × (to_block + 1 < u32_size)
  InPhase stopped s = Unit {0}

  pub record Inv (s : Listener) : Type 0 where
    pub sealed : SealedAt s.cached s.handled
    pub cached_fits : AnswerFits s.cached
    pub in_phase : InPhase s.phase s

  -- A query has every event of the blocks in its range.
  query-In :
      (from count b : ℕ) (e : MostEvent)
      → from ≤ b
      → b < from + count
      → In e (block_events b)
      → In e (query block_events sync_step default_block from count)
  unfolding query
  query-In from zero b e low high h = absurd (omega arith)
  query-In from (suc count) b e low high h = elim (Bool-cases (b == from)) [
    | inl same ↦
        In-append e (block_events from)
          (query block_events sync_step default_block (from + 1) count)
          (inl (subst (λ x. In e (block_events x)) ((==_iff b from).0 same) h))
    | inr later ↦
        In-append e (block_events from)
          (query block_events sync_step default_block (from + 1) count)
          (inr (query-In (from + 1) count b e (ground arith) (omega arith) h))
  ]

  pub SealedAt-more :
      (c : Option ℕ) (handled : List MostEvent) (e : MostEvent)
      → SealedAt c handled
      → SealedAt c (e ∷ handled)
  SealedAt-more none handled e h = tt
  SealedAt-more (some c) handled e h = λ b low high x i. inr (h b low high x i)

  pub poll-Inv :
      (best : ℕ) (emergency : Bool) (s : Listener)
      → best + sync_step + 1 < u32_size
      → s.first_unprocessed_block_number ≤ best
      → Inv s
      → DoneBut [] s.first_unprocessed_block_number s.handled
      → Inv (poll block_events sync_step default_block best emergency s)
  unfolding poll
  poll-Inv best true s fits old h q = h
  poll-Inv best false s fits old h q =
      let from = s.first_unprocessed_block_number in
      let to_block : ℕ = min best (sub_u32 (add_u32 from sync_step) 1) in
      let small : to_block + 1 < u32_size = ground arith in
      let reaches : from ≤ to_block + 1 = ground arith in
      record {
        sealed = h.sealed;
        cached_fits = h.cached_fits;
        in_phase = (
          λ b low high e inside. elim (Bool-cases (ltb b from)) [
            | inl before ↦ elim (q b low (ground arith) e inside) [
              | inl none_left ↦ absurd none_left
              | inr handled ↦ inr handled
            ]
            | inr after ↦
                inl (query-In from ((to_block + 1) - from) b e (ground arith) (omega arith) inside)
          ],
          small,
        );
      }
