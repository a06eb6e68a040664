-- ===== src/Oracle/Tests.antt =====
-- The gas price oracle at a concrete history.
use most_aleph_zero_bridge.Common.{ℕ, ◌≡◌, List, [], ◌∷◌, Env, ok}
use most_aleph_zero_bridge.Common.Host.{Host}
use most_aleph_zero_bridge.Oracle.{OracleState, new}
use most_aleph_zero_bridge.Oracle.Answers.{
  OracleCall, updates_price, transfers_ownership, accepts_ownership, quote_of, quote_run, run,
  run-quote,
}

abbrev quiet : Host
quiet = record {
  World = Unit {0};
  InkEnvError = Unit {0};
  debug = λ _. "";
  set_code_hash = λ contract hash w. ok w;
  own_code_hash = λ contract w. ok 0;
}

abbrev at : ℕ → ℕ → Env
at caller time = record {
  caller = caller;
  account_id = 9;
  transferred_value = 0;
  block_timestamp = time;
}

abbrev start : OracleState (Unit {0})
start = record { self = new (at 1 0) 1 100; world = tt; events = [] }

calls : List (Env × OracleCall)
calls =
    (at 1 10, updates_price 200)
    ∷ (at 2 20, updates_price 1)
    ∷ (at 1 30, transfers_ownership 2)
    ∷ (at 2 40, accepts_ownership)
    ∷ (at 2 50, updates_price 300)
    ∷ []

run-quote_example : quote_of (run quiet start calls).self ≡ quote_run (quote_of start.self) calls
run-quote_example = run-quote quiet start calls
