-- ===== src/Relayer/Supervisor/Tests.antt =====
-- The listeners' tasks at a concrete history.
use most_aleph_zero_bridge.Common.{◌≡◌, some, List, [], ◌∷◌, err}
use most_aleph_zero_bridge.Relayer.Errors
use most_aleph_zero_bridge.Relayer.Errors.{bridge_halted_restart_required, EthListenerError}
use most_aleph_zero_bridge.Relayer.Supervisor.{
  Completion, azero_ended, eth_ended, start_listeners, run_listeners, returned_err, listener_failed,
}
use most_aleph_zero_bridge.Relayer.Supervisor.Staff.{run_listeners-outcome}

-- Two restarts, and then the Ethereum listener fails.
abbrev ends : List Completion
ends =
    azero_ended (err bridge_halted_restart_required)
    ∷ azero_ended (err bridge_halted_restart_required)
    ∷ eth_ended (err EthListenerError.redis)
    ∷ azero_ended (err bridge_halted_restart_required)
    ∷ []

run_listeners-outcome_example :
    run_listeners ends (start_listeners (some []))
    ≡ returned_err (listener_failed (Errors.eth EthListenerError.redis))
run_listeners-outcome_example =
    run_listeners-outcome (some []) ends ((λ e. cc), ((λ e. cc), ((λ e. cc), ((λ e. cc), tt))))
