-- ===== src/Ownable/Tests.antt =====
-- The handover of a contract at a concrete history.
use most_aleph_zero_bridge.Ownable.{Ownable2StepData}
use most_aleph_zero_bridge.Ownable.Handover.{
  handover_completes, accepts, transfers, OwnershipCall, ownership_run, ownership_step,
}
use most_aleph_zero_bridge.Common.{arith, ◌≡◌, List, [], ◌∷◌, none}

abbrev owned : Ownable2StepData
owned = record { owner = 1; pending_owner = none }

abbrev interference : List OwnershipCall
interference = transfers 7 7 ∷ accepts 8 ∷ []

handover_completes_example :
    ownership_step (ownership_run owned (transfers 1 2 ∷ interference)) (accepts 2)
    ≡ record { owner = 2; pending_owner = none }
handover_completes_example = handover_completes owned 2 interference (ground arith)
