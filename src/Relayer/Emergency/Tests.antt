-- ===== src/Relayer/Emergency/Tests.antt =====
-- The emergency flag at concrete answers.
use most_aleph_zero_bridge.Relayer.Emergency.Flag.{listen-LastRound, LastRound}
use most_aleph_zero_bridge.Relayer.Emergency.{Round, current_emergency_state, listen}
use most_aleph_zero_bridge.Common.{
  ◌≡◌, refl, true, false, List, [], ◌∷◌, Result, ok, err, Bool, String,
}

abbrev known : Result String (Unit {0})
known = ok tt

-- The second contract reports an emergency, the third cannot be read.
abbrev reported : List (Result String Bool)
reported = ok false ∷ ok true ∷ err "unreachable" ∷ []

-- An emergency that is lifted in the second round.
abbrev alarm : Round String
alarm = record { block_number = ok tt; answers = reported }

abbrev all_clear : Round String
all_clear = record { block_number = ok tt; answers = ok false ∷ [] }

lifted : listen false (alarm ∷ all_clear ∷ []) ≡ ok false
unfolding listen current_emergency_state
lifted = refl

listen-LastRound_example : LastRound alarm (all_clear ∷ []) false
listen-LastRound_example = listen-LastRound false alarm (all_clear ∷ []) false lifted
