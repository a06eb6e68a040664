-- ===== src/Relayer/Instances/Answers.antt =====
-- What relayer/relayer/src/contracts/azero.rs reads is what the contract in
-- azero/contracts/most/lib.rs answered.
use most_aleph_zero_bridge.Common.{◌≡◌, ◌↔◌, ◌≢◌, Bool, some, Result, ok, err, arith}
use most_aleph_zero_bridge.Most.Types.{Most, MostError}
use most_aleph_zero_bridge.Most.Query
use most_aleph_zero_bridge.Relayer.Decoding.{
  Value, Values, bool, tuple, no_values, cons_value, decode_bool_from_tuple,
}
use most_aleph_zero_bridge.Relayer.Instances.{returned, is_halted, answer_within}

abbrev pub one_value : Value → Values
one_value v = cons_value v no_values

-- The transcoder's value for what a message of the contract returned, of a flag or an error.
abbrev pub answer_value : {E : Type 0} → (MostError E → Value) → Result (MostError E) Bool → Value
answer_value error_value (ok flag) = tuple (some "Ok") (one_value (bool flag))
answer_value error_value (err why) = tuple (some "Err") (one_value (error_value why))

answered_iff :
    {E : Type 0} (error_value : MostError E → Value) (answer : Result (MostError E) Bool)
    (flag : Bool)
    → ((why : MostError E) (b : Bool) → error_value why ≢ bool b)
    → (is_halted (returned (tuple (some "Ok") (one_value (answer_value error_value answer))))
        ≡ some (ok flag))
      ↔ (answer ≡ ok flag)
unfolding is_halted answer_within decode_bool_from_tuple
answered_iff error_value (ok b) flag no_flag = ground arith
answered_iff error_value (err why) flag no_flag = ground (arith, no_flag why flag)

-- The relayer reads a flag exactly if `is_halted` of the contract returned this flag: an error of
-- the contract, whose value is not a flag, is not taken for an answer.
pub is_halted_iff :
    {E : Type 0} (error_value : MostError E → Value) (m : Most) (flag : Bool)
    → ((why : MostError E) (b : Bool) → error_value why ≢ bool b)
    → (is_halted
          (returned (tuple (some "Ok") (one_value (answer_value error_value (Query.is_halted m)))))
        ≡ some (ok flag))
      ↔ (Query.is_halted {E = E} m ≡ ok flag)
is_halted_iff error_value m flag no_flag = answered_iff error_value (Query.is_halted m) flag no_flag
