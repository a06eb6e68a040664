-- ===== src/Most/Tests/Guards.antt =====
-- The theorems on the guards and committees of the Most contract at concrete calls.
use most_aleph_zero_bridge.Common.{
  length, ◌≤◌, u32_size, ◌%◌, ◌≢◌, arith, if◌then◌else◌, none, err, true, reverts, ◌↔◌, ok, ℕ, ◌≡◌,
  refl,
}
use most_aleph_zero_bridge.Most.Query.{is_halted, is_in_committee, get_outstanding_member_rewards}
use most_aleph_zero_bridge.Most.Guards.{wrong_mode_reverts, owner_calls_revert}
use most_aleph_zero_bridge.Most.Committee.{check_committee_iff, later_committees_unpaid, IsDistinct}
use most_aleph_zero_bridge.Ownable.{caller_not_owner, Ownable2StepData}
use most_aleph_zero_bridge.Most.Types.{not_in_committee, no_such_committee, halt_required, ownable}
use most_aleph_zero_bridge.Most.Tests.{
  sets_halted, adds_pair, run, run_call, check_committee, counting, guardians, built, running,
  halted, history, env_of,
}

abbrev owner_1 : Ownable2StepData
owner_1 = record { owner = 1; pending_owner = none }

owner_calls_revert_example :
    run_call counting (sets_halted true) (env_of 2 0) running
    ≡ reverts (ownable (caller_not_owner 2))
owner_calls_revert_example =
    owner_calls_revert counting (env_of 2 0) running (sets_halted true) owner_1 refl refl
      (omega arith)

wrong_mode_reverts_example :
    run_call counting (adds_pair 7 8) (env_of 1 0) running ≡ reverts halt_required
unfolding is_halted
wrong_mode_reverts_example =
    wrong_mode_reverts counting (env_of 1 0) running (adds_pair 7 8) owner_1 true refl refl refl
      (λ owned. refl)

abbrev quorum : ℕ
quorum = 2

check_committee_iff_example :
    (check_committee {E = Unit {0}} guardians quorum ≡ ok tt)
    ↔ (IsDistinct guardians × (quorum ≢ 0) × (quorum % u32_size ≤ length guardians))
check_committee_iff_example = check_committee_iff {E = Unit {0}} guardians quorum

later_committees_unpaid_example :
    let t = run counting halted history in
    get_outstanding_member_rewards {E = counting.PSP22Error} t.self 1 11
    ≡ err (if is_in_committee t.self 1 11 then no_such_committee else not_in_committee)
later_committees_unpaid_example =
    later_committees_unpaid counting guardians 2 10 10 5 50 20 none 1 0 history 1 11 built
      (omega arith)
