-- ===== src/Relayer/Supervisor.antt =====
-- relayer/relayer/src/main.rs: the tasks that run the listeners, and what becomes of them.
pub mod Staff
mod Tests
use most_aleph_zero_bridge.Common.{Option, none, some, List, [], ◌∷◌, Result, ok, err, String}
use most_aleph_zero_bridge.Relayer.Errors.{
  AzeroListenerError, EthListenerError, AdvisoryListenerError, ListenerError, azero, eth, advisory,
  bridge_halted_restart_required,
}

pub data Task : Type 0 where
  azero_task eth_task advisory_task : Task

-- How a task ended: with what its listener returned, or cut off.
pub data Completion : Type 0 where
  azero_ended : Result AzeroListenerError (Unit {0}) → Completion
  eth_ended : Result EthListenerError (Unit {0}) → Completion
  advisory_ended : Result AdvisoryListenerError (Unit {0}) → Completion
  cut_off : Task → Completion

abbrev pub task_of : Completion → Task
task_of (azero_ended r) = azero_task
task_of (eth_ended r) = eth_task
task_of (advisory_ended r) = advisory_task
task_of (cut_off t) = t

pub data Failure : Type 0 where
  listener_failed : ListenerError → Failure
  join_failed : Failure

-- `run_listeners` while it waits for the tasks of its `JoinSet`, whose order does not matter, and
-- what it has returned.
pub data Supervisor : Type 0 where
  running : List Task → Supervisor
  returned_ok : Supervisor
  returned_err : Failure → Supervisor

-- One task of this kind is taken out.
pub take_out : Task → List Task → Option (List Task)
take_out t [] = none
take_out azero_task (azero_task ∷ ts) = some ts
take_out eth_task (eth_task ∷ ts) = some ts
take_out advisory_task (advisory_task ∷ ts) = some ts
take_out t (u ∷ ts) = elim (take_out t ts) [ none ↦ none | some rest ↦ some (u ∷ rest) ]

-- `join_next` on an empty set ends the loop.
pub go_on : List Task → Supervisor
go_on [] = returned_ok
go_on (t ∷ ts) = running (t ∷ ts)

-- The match on the result of a task, with the other tasks.
pub on_result : Completion → List Task → Supervisor
unfolding go_on
on_result (cut_off t) ts = returned_err join_failed
on_result (azero_ended (ok _)) ts = go_on ts
on_result (azero_ended (err bridge_halted_restart_required)) ts = running (azero_task ∷ ts)
on_result (azero_ended (err why)) ts = returned_err (listener_failed (azero why))
on_result (eth_ended (ok _)) ts = go_on ts
on_result (eth_ended (err why)) ts = returned_err (listener_failed (eth why))
on_result (advisory_ended (ok _)) ts = go_on ts
on_result (advisory_ended (err why)) ts = returned_err (listener_failed (advisory why))

-- The tasks that `run_listeners` starts: the advisory listener only with addresses given.
unfoldable pub start_listeners : Option (List String) → Supervisor
start_listeners none = running (azero_task ∷ eth_task ∷ [])
start_listeners (some addresses) = running (azero_task ∷ eth_task ∷ advisory_task ∷ [])

-- A task that is not running does not end.
pub step : Completion → Supervisor → Supervisor
unfolding take_out on_result
step c (running ts) = elim (take_out (task_of c) ts) [
  | none ↦ running ts
  | some rest ↦ on_result c rest
]
step c s = s

pub run_listeners : List Completion → Supervisor → Supervisor
unfolding step
run_listeners [] s = s
run_listeners (c ∷ cs) s = run_listeners cs (step c s)
