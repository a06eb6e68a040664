-- ===== src/Relayer/Supervisor/Staff.antt =====
-- Which listeners of relayer/relayer/src/main.rs are running.
use most_aleph_zero_bridge.Common.{
  ◌≡◌, ◌≢◌, ◌∙◌, ap, refl, Option, none, some, List, [], ◌∷◌, All, String, ok, err, arith,
}
use most_aleph_zero_bridge.Relayer.Errors.{
  AzeroListenerError, azero, eth, advisory, bridge_halted_restart_required,
}
use most_aleph_zero_bridge.Relayer.Supervisor.{
  advisory_task, Completion, azero_ended, eth_ended, advisory_ended, cut_off, Failure,
  listener_failed, join_failed, Supervisor, returned_err, take_out, on_result, start_listeners,
  step, run_listeners,
}

-- The listeners' loops have no end, so a task never ends with `Ok`.
abbrev pub NeverOk : Completion → Type 0
NeverOk (azero_ended r) = r ≢ ok tt
NeverOk (eth_ended r) = r ≢ ok tt
NeverOk (advisory_ended r) = r ≢ ok tt
NeverOk (cut_off t) = Unit {0}

abbrev azero_failure : AzeroListenerError → Option Failure
azero_failure bridge_halted_restart_required = none
azero_failure why = some (listener_failed (azero why))

abbrev pub failure_of : Completion → Option Failure
failure_of (azero_ended (ok _)) = none
failure_of (azero_ended (err why)) = azero_failure why
failure_of (eth_ended (ok _)) = none
failure_of (eth_ended (err why)) = some (listener_failed (eth why))
failure_of (advisory_ended (ok _)) = none
failure_of (advisory_ended (err why)) = some (listener_failed (advisory why))
failure_of (cut_off t) = some join_failed

-- A failure counts only of a task that was started.
abbrev pub failure_in : Option (List String) → Completion → Option Failure
failure_in (some addresses) c = failure_of c
failure_in none (advisory_ended r) = none
failure_in none (cut_off advisory_task) = none
failure_in none c = failure_of c

-- The first failure that is not the request for a restart.
abbrev pub first_failure : Option (List String) → List Completion → Option Failure
first_failure addresses [] = none
first_failure addresses (c ∷ cs) = elim (failure_in addresses c) [
  | none ↦ first_failure addresses cs
  | some f ↦ some f
]

abbrev pub outcome : Option (List String) → Option Failure → Supervisor
outcome addresses none = start_listeners addresses
outcome addresses (some f) = returned_err f

pub step-outcome :
    (addresses : Option (List String)) (c : Completion)
    → NeverOk c
    → step c (start_listeners addresses) ≡ outcome addresses (failure_in addresses c)
unfolding step take_out on_result start_listeners
step-outcome addresses c h = ground arith

run-returned_err :
    (cs : List Completion) (f : Failure) → run_listeners cs (returned_err f) ≡ returned_err f
unfolding run_listeners step
run-returned_err [] f = refl
run-returned_err (c ∷ cs) f = run-returned_err cs f

after_one :
    (addresses : Option (List String)) (cs : List Completion) (o : Option Failure)
    → run_listeners cs (start_listeners addresses) ≡ outcome addresses (first_failure addresses cs)
    → run_listeners cs (outcome addresses o)
      ≡ outcome addresses (elim o [ none ↦ first_failure addresses cs | some f ↦ some f ])
after_one addresses cs none e = e
after_one addresses cs (some f) e = run-returned_err cs f

-- Whatever order the listeners' tasks end in, and however often the Aleph Zero listener asks for a
-- restart, all the listeners that were started are running, each once, until the first other
-- failure of one of them; that failure, or the panic, is what `run_listeners` returns. No task ends
-- with `Ok`.
pub run_listeners-outcome :
    (addresses : Option (List String)) (cs : List Completion)
    → All NeverOk cs
    → run_listeners cs (start_listeners addresses) ≡ outcome addresses (first_failure addresses cs)
unfolding run_listeners
run_listeners-outcome addresses [] h = refl
run_listeners-outcome addresses (c ∷ cs) h =
    ap (run_listeners cs) (step-outcome addresses c (h.0))
    ∙ after_one addresses cs (failure_in addresses c) (run_listeners-outcome addresses cs h.1)
