-- ===== src/Relayer/Recovery/Restart.antt =====
-- A halt of the bridge on Ethereum, from the failed task in relayer/relayer/src/listeners/azero.rs
-- to the restart in relayer/relayer/src/main.rs.
use most_aleph_zero_bridge.Common.{
  ◌≡◌, ◌≢◌, ◌↔◌, true, false, Option, List, [], ◌∷◌, All, String, ok, err, arith,
}
use most_aleph_zero_bridge.Relayer.Errors.{
  AzeroListenerError, eth_contract_reverted, bridge_halted_restart_required,
}
use most_aleph_zero_bridge.Relayer.Polling.{finished, poll_until, wait_until_unpaused, lowered}
use most_aleph_zero_bridge.Relayer.Recovery.{
  TaskEnd, sealed, failed, join_error, drain, Paused, wait_and_restart, after_error, check_tasks,
}
use most_aleph_zero_bridge.Relayer.Supervisor.{azero_ended, start_listeners, step}
use most_aleph_zero_bridge.Relayer.Supervisor.Staff.{step-outcome}

-- The bridge is no longer paused at some question, and none before it failed.
abbrev pub IsUnpaused : List Paused → Type 0
IsUnpaused [] = ⊥
IsUnpaused (ok true ∷ polls) = IsUnpaused polls
IsUnpaused (ok false ∷ polls) = Unit {0}
IsUnpaused (err e ∷ polls) = ⊥

-- None of these tasks was cut off.
abbrev pub NoneCutOff : List TaskEnd → Type 0
NoneCutOff = All (λ e. e ≢ join_error)

drain_iff : (ends : List TaskEnd) → (drain ends ≡ false) ↔ NoneCutOff ends
unfolding drain
drain_iff [] = ground arith
drain_iff (sealed ∷ ends) = ground (arith, drain_iff ends)
drain_iff (failed why ∷ ends) = ground (arith, drain_iff ends)
drain_iff (join_error ∷ ends) = ground arith

-- The first task that failed did so with this error, and none of the others was cut off.
abbrev pub FirstFails : AzeroListenerError → List TaskEnd → List TaskEnd → Type 0
FirstFails why [] active = ⊥
FirstFails why (sealed ∷ ends) active = FirstFails why ends active
FirstFails why (failed w ∷ ends) active = (w ≡ why) × NoneCutOff ends × NoneCutOff active
FirstFails why (join_error ∷ ends) active = ⊥

wait_and_restart_iff :
    (polls : List Paused)
    → (wait_and_restart polls ≡ finished (err bridge_halted_restart_required)) ↔ IsUnpaused polls
unfolding wait_and_restart wait_until_unpaused lowered poll_until
wait_and_restart_iff [] = ground arith
wait_and_restart_iff (ok true ∷ polls) = ground (arith, wait_and_restart_iff polls)
wait_and_restart_iff (ok false ∷ polls) = ground arith
wait_and_restart_iff (err e ∷ polls) = ground arith

after_error_iff :
    (why : AzeroListenerError) (paused : Paused) (polls : List Paused)
    → why ≢ bridge_halted_restart_required
    → (after_error why paused polls ≡ finished (err bridge_halted_restart_required))
      ↔ ((why ≡ eth_contract_reverted) × (paused ≡ ok true) × IsUnpaused polls)
unfolding after_error
after_error_iff why paused polls other = ground (arith, wait_and_restart_iff polls)

restart_asked_iff :
    (ends active : List TaskEnd) (paused : Paused) (polls : List Paused)
    → All (λ e. e ≢ failed bridge_halted_restart_required) ends
    → (check_tasks ends active paused polls ≡ finished (err bridge_halted_restart_required))
      ↔ (FirstFails eth_contract_reverted ends active × (paused ≡ ok true) × IsUnpaused polls)
unfolding check_tasks
restart_asked_iff [] active paused polls h = ground arith
restart_asked_iff (sealed ∷ ends) active paused polls h =
    ground (arith, restart_asked_iff ends active paused polls h.1)
restart_asked_iff (join_error ∷ ends) active paused polls h = ground arith
restart_asked_iff (failed why ∷ ends) active paused polls h =
    ground (
      arith,
      drain_iff ends,
      drain_iff active,
      after_error_iff why paused polls (λ e. ground arith),
    )

kept_iff :
    (addresses : Option (List String)) (why : AzeroListenerError)
    → (step (azero_ended (err why)) (start_listeners addresses) ≡ start_listeners addresses)
      ↔ (why ≡ bridge_halted_restart_required)
unfolding start_listeners
kept_iff addresses why = ground (arith, step-outcome addresses (azero_ended (err why)))

-- When the Aleph Zero listener ends with an error of one of its tasks, the supervisor has all
-- listeners running as at the start, this one restarted, exactly if the first task that failed did
-- so because its transaction reverted on Ethereum, no task was cut off after it, the contract there
-- was paused, and it was no longer paused at a later question, with no failed question before that.
-- No task itself asks for a restart.
pub halt_restarts_iff :
    (addresses : Option (List String)) (ends active : List TaskEnd) (paused : Paused)
    (polls : List Paused) {why : AzeroListenerError}
    → All (λ e. e ≢ failed bridge_halted_restart_required) ends
    → check_tasks ends active paused polls ≡ finished (err why)
    → (step (azero_ended (err why)) (start_listeners addresses) ≡ start_listeners addresses)
      ↔ (FirstFails eth_contract_reverted ends active × (paused ≡ ok true) × IsUnpaused polls)
halt_restarts_iff addresses ends active paused polls {why} h e =
    ground (arith, kept_iff addresses why, restart_asked_iff ends active paused polls h)
