-- ===== src/Relayer/Emergency/Flag.antt =====
-- When relayer/relayer/src/listeners/advisory.rs raises and lifts the emergency flag.
use most_aleph_zero_bridge.Common.{
  ◌≡◌, ◌↔◌, ◌⊎◌, inl, inr, Bool, true, false, List, [], ◌∷◌, Result, ok, err, All, arith,
  Result-cases,
}
use most_aleph_zero_bridge.Relayer.Emergency.{current_emergency_state, Round, listen}

module _ {E : Type 0} where
  -- An emergency is reported before any error.
  abbrev pub IsRaised : List (Result E Bool) → Type 0
  IsRaised [] = ⊥
  IsRaised (ok true ∷ rest) = Unit {0}
  IsRaised (ok false ∷ rest) = IsRaised rest
  IsRaised (err why ∷ rest) = ⊥

  abbrev pub IsClear : List (Result E Bool) → Type 0
  IsClear answers = All (λ a. a ≡ ok false) answers

  -- After a round the flag is down exactly if every contract answered that there is no emergency,
  -- and up exactly if some contract reported one before any error and, where the flag was down
  -- before, the block number could be read. In all other cases the listener ends with an error.
  pub current_emergency_state_iff :
      (previous : Bool) (block_number : Result E (Unit {0})) (answers : List (Result E Bool))
      → ((current_emergency_state previous block_number answers ≡ ok false) ↔ IsClear answers)
        × ((current_emergency_state previous block_number answers ≡ ok true)
            ↔ (IsRaised answers × ((previous ≡ true) ⊎ (block_number ≡ ok tt))))
  unfolding current_emergency_state
  current_emergency_state_iff previous block_number [] = ground arith
  current_emergency_state_iff previous block_number (ok true ∷ rest) = ground arith
  current_emergency_state_iff previous block_number (ok false ∷ rest) =
      ground (arith, current_emergency_state_iff previous block_number rest)
  current_emergency_state_iff previous block_number (err why ∷ rest) = ground arith

  -- What the last of the rounds, of which the first is given, tells of the flag after it.
  abbrev pub LastRound : Round E → List (Round E) → Bool → Type 0
  LastRound round [] true = IsRaised (round.answers)
  LastRound round [] false = IsClear (round.answers)
  LastRound round (next ∷ rounds) final = LastRound next rounds final

  -- After one round or more, the flag of a listener that is still running is up if the last round
  -- of queries reported an emergency, and down if in it all contracts answered that there is none.
  pub listen-LastRound :
      (flag : Bool) (round : Round E) (rounds : List (Round E)) (final : Bool)
      → listen flag (round ∷ rounds) ≡ ok final
      → LastRound round rounds final
  unfolding listen
  listen-LastRound flag round [] true e =
      ground (arith, current_emergency_state_iff flag (round.block_number) (round.answers))
  listen-LastRound flag round [] false e =
      ground (arith, current_emergency_state_iff flag (round.block_number) (round.answers))
  listen-LastRound flag round (next ∷ rounds) final e =
      elim (Result-cases (current_emergency_state flag (round.block_number) (round.answers))) [
        | inl (up, found) ↦ listen-LastRound up next rounds final (ground arith)
        | inr (why, failed) ↦ absurd (ground arith)
      ]
