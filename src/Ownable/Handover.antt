-- ===== src/Ownable/Handover.antt =====
-- The handover protocol of azero/contracts/ownable2step/lib.rs as a history of calls.
use most_aleph_zero_bridge.Common.{
  ℕ, ◌≡◌, ◌≢◌, refl, List, [], ◌∷◌, none, some, ok, err, arith, All,
}
use most_aleph_zero_bridge.Ownable.{
  Ownable2StepData, transfer_ownership, accept_ownership, Ownable2StepResult,
}

-- One call by an account; a failed call leaves the value alone.
pub data OwnershipCall : Type 0 where
  transfers : ℕ → ℕ → OwnershipCall
  accepts : ℕ → OwnershipCall

abbrev pub kept : Ownable2StepData → Ownable2StepResult Ownable2StepData → Ownable2StepData
kept d (ok e) = e
kept d (err e) = d

unfoldable pub ownership_step : Ownable2StepData → OwnershipCall → Ownable2StepData
ownership_step d (transfers caller new_owner) = kept d (transfer_ownership d caller new_owner)
ownership_step d (accepts caller) = kept d (accept_ownership d caller)

unfoldable pub ownership_run : Ownable2StepData → List OwnershipCall → Ownable2StepData
ownership_run d [] = d
ownership_run d (c ∷ cs) = ownership_run (ownership_step d c) cs

-- The account that a call comes from.
abbrev pub sender : OwnershipCall → ℕ
sender (transfers caller new_owner) = caller
sender (accepts caller) = caller

-- An account that is neither the owner nor the pending owner.
abbrev pub IsOutsider : Ownable2StepData → ℕ → Type 0
IsOutsider d a = (a ≢ d.owner) × (d.pending_owner ≢ some a)

outsider_step :
    (d : Ownable2StepData) (c : OwnershipCall) → IsOutsider d (sender c) → ownership_step d c ≡ d
unfolding ownership_step transfer_ownership accept_ownership
outsider_step d (transfers caller n) h = ground arith
outsider_step d (accepts caller) h = ground arith

nominate :
    (d : Ownable2StepData) (n : ℕ)
    → ownership_step d (transfers d.owner n) ≡ record d { pending_owner = some n }
unfolding ownership_step transfer_ownership
nominate d n = ground arith

accept :
    (d : Ownable2StepData) (n : ℕ)
    → d.pending_owner ≡ some n
    → ownership_step d (accepts n) ≡ record { owner = n; pending_owner = none }
unfolding ownership_step accept_ownership
accept d n h = ground arith

-- However many calls outsiders make, with any arguments, owner and pending owner stay as they are.
pub outsiders_change_nothing :
    (d : Ownable2StepData) (cs : List OwnershipCall)
    → All (λ c. IsOutsider d (sender c)) cs
    → ownership_run d cs ≡ d
unfolding ownership_run
outsiders_change_nothing d [] h = refl
outsiders_change_nothing d (c ∷ cs) h =
    rw (outsider_step d c h.0) (outsiders_change_nothing d cs h.1)

-- The two steps in order: the owner nominates `n`, outsiders interfere, and `n` accepts. Then `n`
-- is the owner and no nomination is left.
pub handover_completes :
    (d : Ownable2StepData) (n : ℕ) (cs : List OwnershipCall)
    → All (λ c. IsOutsider (record d { pending_owner = some n }) (sender c)) cs
    → ownership_step (ownership_run d (transfers d.owner n ∷ cs)) (accepts n)
      ≡ record { owner = n; pending_owner = none }
unfolding ownership_run
handover_completes d n cs h =
    let nominated : ownership_step d (transfers d.owner n) ≡ record d { pending_owner = some n } =
      nominate d n in
    rw (nominated, outsiders_change_nothing (record d { pending_owner = some n }) cs h)
      (accept (record d { pending_owner = some n }) n refl)
