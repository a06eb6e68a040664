-- ===== src/Relayer/Emergency.antt =====
-- relayer/relayer/src/listeners/advisory.rs: the emergency flag that pauses the other listeners.
pub mod Flag
mod Tests
use most_aleph_zero_bridge.Common.{Bool, true, false, List, [], ◌∷◌, Result, ok, err, if◌then◌else◌}
use most_aleph_zero_bridge.Common.Fallible.{◌>>◌}

-- One round of queries: the answer to the question for the block number, and the contracts'.
pub record Round (E : Type 0) : Type 0 where
  pub block_number : Result E (Unit {0})
  pub answers : List (Result E Bool)

module _ {E : Type 0} where
  -- The loop over the answers of the Advisory contracts, in the order of the contracts. At an
  -- emergency that is new it asks for the block number, which may fail; it stops at the first
  -- emergency and at the first error.
  pub current_emergency_state : Bool → Result E (Unit {0}) → List (Result E Bool) → Result E Bool
  current_emergency_state previous block_number [] = ok false
  current_emergency_state previous block_number (ok true ∷ rest) =
      if previous then ok true else (block_number >> ok true)
  current_emergency_state previous block_number (ok false ∷ rest) =
      current_emergency_state previous block_number rest
  current_emergency_state previous block_number (err why ∷ rest) = err why

  -- The flag after the rounds, or the error that ended the listener.
  pub listen : Bool → List (Round E) → Result E Bool
  listen emergency [] = ok emergency
  listen emergency (round ∷ rounds) =
      elim (current_emergency_state emergency (round.block_number) (round.answers)) [
        | ok flag ↦ listen flag rounds
        | err why ↦ err why
      ]
