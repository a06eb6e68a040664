-- ===== src/Advisory.antt =====
-- azero/contracts/advisory/lib.rs: the emergency flag that pauses the relayers.
pub mod Log
mod Tests
use most_aleph_zero_bridge.Common.{
  ℕ, String, Bool, true, false, ◌!=◌, List, [], ◌∷◌, Result, ok, err, Message, pure, view, asks,
  gets, Env, ◌>>=◌, ◌>>◌, ◌==◌, if◌then◌else◌, returns,
}

pub data AdvisoryError : Type 0 where
  ink_env_error : String → AdvisoryError
  not_owner : ℕ → AdvisoryError

pub data AdvisoryEvent : Type 0 where
  -- previous state, new state, caller
  emergency_changed : Bool → Bool → ℕ → AdvisoryEvent
  -- previous owner, new owner
  ownership_transferred : ℕ → ℕ → AdvisoryEvent

-- The contract's storage, and the events emitted so far, newest first.
pub record Advisory : Type 0 where
  pub owner : ℕ
  pub emergency : Bool

pub record AdvisoryState : Type 0 where
  pub self : Advisory
  pub open self use *
  pub events : List AdvisoryEvent

abbrev pub AdvisoryMessage : Type 0
AdvisoryMessage = Message AdvisoryError AdvisoryState (Unit {0})

pub new : ℕ → Advisory
new owner = record { owner = owner; emergency = false }

pub ensure_owner : Env → AdvisoryState → Result AdvisoryError (Unit {0})
ensure_owner env s = if env.caller == s.owner then ok tt else err (not_owner env.caller)

abbrev emit_event : AdvisoryEvent → AdvisoryMessage
emit_event e env s = returns tt (record s { events = e ∷ s.events })

pub set_emergency : Bool → AdvisoryMessage
unfolding ensure_owner
set_emergency new_state = do
  view ensure_owner
  emergency ← gets (λ s. s.emergency)
  caller ← asks (λ env. env.caller)
  if new_state != emergency
      then (do
        emit_event (emergency_changed emergency new_state caller)
        (λ env s. returns tt (record s { self = record (s.self) { emergency = new_state } })))
      else pure tt

pub transfer_ownership : ℕ → AdvisoryMessage
unfolding ensure_owner
transfer_ownership new_owner = do
  view ensure_owner
  previous_owner ← gets (λ s. s.owner)
  emit_event (ownership_transferred previous_owner new_owner)
  (λ env s. returns tt (record s { self = record (s.self) { owner = new_owner } }))

pub is_emergency : Advisory → Bool
is_emergency a = a.emergency

pub owner : Advisory → ℕ
owner a = a.owner
