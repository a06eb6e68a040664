-- ===== src/Migrations/Tests.antt =====
-- The migrations contract at a concrete history.
use most_aleph_zero_bridge.Common.{ℕ, ◌≡◌, List, [], ◌∷◌, Env}
use most_aleph_zero_bridge.Migrations.{new, last_completed_migration}
use most_aleph_zero_bridge.Migrations.Progress.{run, last_by, migrations_progress}

abbrev by : ℕ → Env
by caller = record { caller = caller; account_id = 9; transferred_value = 0; block_timestamp = 0 }

-- The third call is not the owner's.
calls : List (Env × ℕ)
calls = (by 1, 4) ∷ (by 1, 5) ∷ (by 2, 9) ∷ []

migrations_progress_example :
    (last_completed_migration (run (new 1) calls) ≡ last_by 1 0 calls)
    × ((run (new 1) calls).owner ≡ 1)
migrations_progress_example = migrations_progress 1 calls
