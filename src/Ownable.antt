-- ===== src/Ownable.antt =====
-- azero/contracts/ownable2step/lib.rs: the owner of a contract and the two-step handover.
-- An `AccountId` is the number whose 32 base-256 digits are its bytes.
pub mod Handover
mod Tests
use most_aleph_zero_bridge.Common.{
  ℕ, String, Option, none, some, Result, ok, err, not, if◌then◌else◌, ◌==◌,
}
use most_aleph_zero_bridge.Common.Fallible.{◌>>=◌, ◌>>◌, ok_or, err_if}

pub data Ownable2StepError : Type 0 where
  caller_not_owner : ℕ → Ownable2StepError
  caller_not_pending_owner : ℕ → Ownable2StepError
  no_pending_owner : Ownable2StepError
  custom : String → Ownable2StepError

abbrev pub Ownable2StepResult : Type 0 → Type 0
Ownable2StepResult A = Result Ownable2StepError A

pub record Ownable2StepData : Type 0 where
  pub owner : ℕ
  pub pending_owner : Option ℕ

unfoldable pub new : ℕ → Ownable2StepData
new owner = record { owner = owner; pending_owner = none }

unfoldable pub ensure_owner : Ownable2StepData → ℕ → Ownable2StepResult (Unit {0})
ensure_owner d caller = if not (caller == d.owner) then err (caller_not_owner caller) else ok tt

-- A method on `&mut self` returns the new value.
unfoldable pub transfer_ownership : Ownable2StepData → ℕ → ℕ → Ownable2StepResult Ownable2StepData
unfolding ensure_owner
transfer_ownership d caller new_owner = do
  ensure_owner d caller
  ok (record d { pending_owner = some new_owner })

unfoldable pub accept_ownership : Ownable2StepData → ℕ → Ownable2StepResult Ownable2StepData
accept_ownership d caller = do
  pending_owner ← ok_or d.pending_owner no_pending_owner
  err_if (not (caller == pending_owner)) (caller_not_pending_owner caller)
  ok (record d { owner = pending_owner; pending_owner = none })

unfoldable pub get_owner : Ownable2StepData → Ownable2StepResult ℕ
get_owner d = ok d.owner

unfoldable pub get_pending_owner : Ownable2StepData → Ownable2StepResult ℕ
get_pending_owner d = ok_or d.pending_owner no_pending_owner
