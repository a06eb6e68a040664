-- ===== src/Most/Tests/Runs.antt =====
-- The theorems on histories of the Most contract at the concrete history.
use most_aleph_zero_bridge.Most.Ownership.{run-owner, ownership_calls}
use most_aleph_zero_bridge.Ownable.Handover.{ownership_run}
use most_aleph_zero_bridge.Common.{none, arith, ◌≡◌, refl, some}
use most_aleph_zero_bridge.Most.Deployment.{deployed-run_is_sound}
use most_aleph_zero_bridge.Most.Nonces.{IsNumbered}
use most_aleph_zero_bridge.Most.Tests.{
  run, IsTallied, IsSolvent, bridge_view, counting, guardians, built, running, halted, history,
}

deployed-run_is_sound_example :
    IsNumbered (bridge_view (run counting halted history))
    × IsTallied (bridge_view (run counting halted history))
    × IsSolvent (bridge_view (run counting halted history))
deployed-run_is_sound_example =
    deployed-run_is_sound counting guardians 2 10 10 5 50 20 none 1 built 0 history

running-IsSolvent : IsSolvent (bridge_view running)
running-IsSolvent = record { within = λ c a n e. ground arith }

run-owner_example :
    (run counting running history).lazy_ownable_data
    ≡ some (
        ownership_run
          (record { owner = 1; pending_owner = none })
          (ownership_calls counting history))
run-owner_example =
    run-owner counting running (record { owner = 1; pending_owner = none }) history refl
