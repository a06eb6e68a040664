-- ===== src/Relayer/Recovery.antt =====
-- What the main loop of relayer/relayer/src/listeners/azero.rs does when one of its tasks fails.
pub mod Restart
mod Tests
use most_aleph_zero_bridge.Common.{
  Bool, true, false, List, [], ◌∷◌, ◌||◌, Result, ok, err, if◌then◌else◌,
}
use most_aleph_zero_bridge.Relayer.Errors.{
  AzeroListenerError, eth_contract_reverted, eth_contract_tx, bridge_halted_restart_required, join,
}
use most_aleph_zero_bridge.Relayer.Polling.{Verdict, again, finished, panicked, wait_until_unpaused}

-- How a sealing task ended: by itself, or cut off by a panic.
pub data TaskEnd : Type 0 where
  sealed : TaskEnd
  failed : AzeroListenerError → TaskEnd
  join_error : TaskEnd

-- The wait for the tasks that are still active: whether one of them was cut off.
pub drain : List TaskEnd → Bool
drain [] = false
drain (join_error ∷ ends) = true
drain (_ ∷ ends) = drain ends

-- What `paused()` answers has no content when it is an error.
abbrev pub Paused : Type 0
Paused = Result (Unit {0}) Bool

-- The wait for the end of the halt, and the error that asks for a restart.
pub wait_and_restart : List Paused → Verdict (Result AzeroListenerError (Unit {0}))
unfolding wait_until_unpaused
wait_and_restart polls = elim (wait_until_unpaused polls) [
  | again ↦ again
  | finished (ok _) ↦ finished (err bridge_halted_restart_required)
  | finished (err why) ↦ finished (err why)
  | panicked ↦ panicked
]

-- The match on the error of a task.
pub after_error :
    AzeroListenerError → Paused → List Paused → Verdict (Result AzeroListenerError (Unit {0}))
unfolding wait_and_restart
after_error eth_contract_reverted (ok true) polls = wait_and_restart polls
after_error eth_contract_reverted (ok false) polls = finished (err eth_contract_reverted)
after_error eth_contract_reverted (err _) polls = finished (err eth_contract_tx)
after_error why paused polls = finished (err why)

-- The loop over the tasks that have ended, the ends of those that are active then, what `paused()`
-- answers, and what it answers while the loop waits. `Ok` is the way on to the next blocks.
pub check_tasks :
    List TaskEnd
    → List TaskEnd
    → Paused
    → List Paused
    → Verdict (Result AzeroListenerError (Unit {0}))
unfolding drain after_error
check_tasks [] active paused polls = finished (ok tt)
check_tasks (sealed ∷ ends) active paused polls = check_tasks ends active paused polls
check_tasks (join_error ∷ ends) active paused polls = finished (err join)
check_tasks (failed why ∷ ends) active paused polls =
    if drain ends || drain active then finished (err join) else after_error why paused polls
