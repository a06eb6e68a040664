-- ===== src/Migrations/Progress.antt =====
-- What azero/contracts/migrations/lib.rs records, along every history.
use most_aleph_zero_bridge.Common.{
  ℕ, ◌≡◌, refl, List, [], ◌∷◌, Env, after, arith, ◌==◌, if◌then◌else◌,
}
use most_aleph_zero_bridge.Migrations.{Migrations, new, set_completed, last_completed_migration}

pub run : Migrations → List (Env × ℕ) → Migrations
run m [] = m
run m ((env, completed) ∷ calls) = run (after (set_completed completed env m) m) calls

-- The last value that the owner set, or the one before.
pub last_by : ℕ → ℕ → List (Env × ℕ) → ℕ
last_by owner before [] = before
last_by owner before ((env, completed) ∷ calls) =
    last_by owner (if env.caller == owner then completed else before) calls

step-last_by :
    (m : Migrations) (env : Env) (completed : ℕ)
    → after (set_completed completed env m) m ≡ record m {
      last_completed_migration =
          if env.caller == m.owner then completed else m.last_completed_migration;
    }
unfolding set_completed
step-last_by m env completed = ground arith

run-last_by :
    (m : Migrations) (calls : List (Env × ℕ))
    → run m calls
      ≡ record m { last_completed_migration = last_by m.owner m.last_completed_migration calls }
unfolding run last_by
run-last_by m [] = refl
run-last_by m ((env, completed) ∷ calls) = rw (step-last_by m env completed) (
    run-last_by
      (record m {
        last_completed_migration =
            if env.caller == m.owner then completed else m.last_completed_migration;
      })
      calls)

-- After any history of calls by any accounts the query returns the last number that the owner set,
-- or 0 if there is none, and the owner is the one given at construction.
pub migrations_progress :
    (o : ℕ) (calls : List (Env × ℕ))
    → (last_completed_migration (run (new o) calls) ≡ last_by o 0 calls)
      × ((run (new o) calls).owner ≡ o)
unfolding new last_completed_migration
migrations_progress o calls =
    rw (run-last_by (record { last_completed_migration = 0; owner = o }) calls) (refl, refl)
