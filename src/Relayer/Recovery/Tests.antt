-- ===== src/Relayer/Recovery/Tests.antt =====
-- A halt of the bridge on Ethereum that is seen and waited for.
use most_aleph_zero_bridge.Common.{◌≡◌, ◌↔◌, refl, none, List, [], ◌∷◌, true, false, ok, err}
use most_aleph_zero_bridge.Relayer.Errors.{eth_contract_reverted, bridge_halted_restart_required}
use most_aleph_zero_bridge.Relayer.Polling.{finished, wait_until_unpaused, lowered, poll_until}
use most_aleph_zero_bridge.Relayer.Recovery.{
  TaskEnd, sealed, failed, Paused, check_tasks, after_error, drain, wait_and_restart,
}
use most_aleph_zero_bridge.Relayer.Recovery.Restart.{halt_restarts_iff, FirstFails, IsUnpaused}
use most_aleph_zero_bridge.Relayer.Supervisor.{azero_ended, start_listeners, step}

abbrev ends : List TaskEnd
ends = sealed ∷ failed eth_contract_reverted ∷ sealed ∷ []

abbrev active : List TaskEnd
active = failed eth_contract_reverted ∷ []

abbrev paused : Paused
paused = ok true

abbrev polls : List Paused
polls = ok true ∷ ok false ∷ []

restart_asked : check_tasks ends active paused polls ≡ finished (err bridge_halted_restart_required)
unfolding check_tasks after_error drain wait_and_restart wait_until_unpaused lowered poll_until
restart_asked = refl

halt_restarts_iff_example :
    (step (azero_ended (err bridge_halted_restart_required)) (start_listeners none)
      ≡ start_listeners none)
    ↔ (FirstFails eth_contract_reverted ends active × (paused ≡ ok true) × IsUnpaused polls)
halt_restarts_iff_example =
    halt_restarts_iff none ends active paused polls ((λ e. cc), ((λ e. cc), ((λ e. cc), tt)))
      restart_asked
