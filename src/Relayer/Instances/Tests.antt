-- ===== src/Relayer/Instances/Tests.antt =====
-- The answer of a concrete contract.
use most_aleph_zero_bridge.Common.{◌≡◌, ◌↔◌, true, some, ok}
use most_aleph_zero_bridge.Most.Types.{MostError}
use most_aleph_zero_bridge.Most.Query
use most_aleph_zero_bridge.Most.Tests.{storage}
use most_aleph_zero_bridge.Relayer.Decoding.{Value, other_value, tuple}
use most_aleph_zero_bridge.Relayer.Instances.{returned, is_halted}
use most_aleph_zero_bridge.Relayer.Instances.Answers.{one_value, answer_value, is_halted_iff}

abbrev error_value : MostError (Unit {0}) → Value
error_value why = other_value

is_halted_iff_example :
    (is_halted (
        returned
          (tuple (some "Ok") (one_value (answer_value error_value (Query.is_halted storage)))))
      ≡ some (ok true))
    ↔ (Query.is_halted {E = Unit {0}} storage ≡ ok true)
is_halted_iff_example = is_halted_iff error_value storage true (λ why b e. cc)
