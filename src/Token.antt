-- ===== src/Token.antt =====
-- azero/contracts/token/lib.rs: the PSP22 token that one account mints and burns. The balances
-- and allowances are the psp22 crate's.
pub mod Minting
pub mod Announcements
mod Tests
use most_aleph_zero_bridge.Common.{
  ℕ, String, Bool, Option, List, [], ◌∷◌, Result, ok, err, Message, pure, view, asks, gets, try,
  Env, ◌>>=◌, ◌>>◌, not, ◌==◌, if◌then◌else◌, returns,
}
use most_aleph_zero_bridge.Common.Fallible.{map_err}
use most_aleph_zero_bridge.Ownable
use most_aleph_zero_bridge.Ownable.{Ownable2StepData, Ownable2StepError, Ownable2StepResult}

-- `Psp22Event` of the psp22 crate.
pub data Psp22Event : Type 0 where
  -- from, to, value
  transfer : Option ℕ → Option ℕ → ℕ → Psp22Event
  -- owner, spender, amount
  approval : ℕ → ℕ → ℕ → Psp22Event

-- `PSP22Data` and `PSP22Error` of the psp22 crate. A method that changes the data returns it
-- with the events.
pub record Psp22 : Type 1 where
  pub Data : Type 0
  pub Error : Type 0
  -- `PSP22Error::Custom`
  pub custom : String → Error
  -- total supply, its holder
  pub new : ℕ → ℕ → Data
  pub total_supply : Data → ℕ
  pub balance_of : Data → ℕ → ℕ
  -- owner, spender
  pub allowance : Data → ℕ → ℕ → ℕ
  -- caller, to, value
  pub transfer : ℕ → ℕ → ℕ → Data → Result Error (List Psp22Event × Data)
  -- caller, from, to, value
  pub transfer_from : ℕ → ℕ → ℕ → ℕ → Data → Result Error (List Psp22Event × Data)
  -- owner, spender, value
  pub approve : ℕ → ℕ → ℕ → Data → Result Error (List Psp22Event × Data)
  pub increase_allowance : ℕ → ℕ → ℕ → Data → Result Error (List Psp22Event × Data)
  pub decrease_allowance : ℕ → ℕ → ℕ → Data → Result Error (List Psp22Event × Data)
  -- to, value
  pub mint : ℕ → ℕ → Data → Result Error (List Psp22Event × Data)
  -- from, value
  pub burn : ℕ → ℕ → Data → Result Error (List Psp22Event × Data)

-- `Transfer`, `Approval` and the events of the handover.
pub data TokenEvent : Type 0 where
  transferred : Option ℕ → Option ℕ → ℕ → TokenEvent
  approved : ℕ → ℕ → ℕ → TokenEvent
  transfer_ownership_initiated : ℕ → TokenEvent
  transfer_ownership_accepted : ℕ → TokenEvent

pub record Token (Data : Type 0) : Type 0 where
  pub psp22_data : Data
  pub ownable_data : Ownable2StepData
  pub name : Option String
  pub symbol : Option String
  pub decimals : ℕ
  pub minter_burner : ℕ

pub record TokenState (Data : Type 0) : Type 0 where
  pub self : Token Data
  pub events : List TokenEvent

abbrev pub caller_not_owner : String
caller_not_owner = "Caller has to be the owner."

abbrev pub caller_not_minter : String
caller_not_minter = "Caller has to be the minter."

abbrev pub caller_not_burner : String
caller_not_burner = "Caller has to be the burner."

-- Newest first.
pub emitted : List Psp22Event → List TokenEvent → List TokenEvent
emitted [] es = es
emitted (transfer from to value ∷ rest) es = emitted rest (transferred from to value ∷ es)
emitted (approval owner spender amount ∷ rest) es =
    emitted rest (approved owner spender amount ∷ es)

abbrev OwnableMessage : Type 0 → Type 0
OwnableMessage Data = Message Ownable2StepError (TokenState Data) (Unit {0})

module _ {Data : Type 0} where
  pub minter : Token Data → ℕ
  minter t = t.minter_burner

  pub burner : Token Data → ℕ
  burner t = t.minter_burner

  unfoldable pub token_name : Token Data → Option String
  token_name t = t.name

  unfoldable pub token_symbol : Token Data → Option String
  token_symbol t = t.symbol

  unfoldable pub token_decimals : Token Data → ℕ
  token_decimals t = t.decimals

  unfoldable pub get_owner : Token Data → Ownable2StepResult ℕ
  get_owner t = Ownable.get_owner t.ownable_data

  unfoldable pub get_pending_owner : Token Data → Ownable2StepResult ℕ
  get_pending_owner t = Ownable.get_pending_owner t.ownable_data

  abbrev emit_event : {E : Type 0} → TokenEvent → Message E (TokenState Data) (Unit {0})
  emit_event e env s = returns tt (record s { events = e ∷ s.events })

  -- A change of `ownable_data`.
  abbrev keeps_owners : Ownable2StepData → OwnableMessage Data
  keeps_owners d env s = returns tt (record s { self = record (s.self) { ownable_data = d } })

  pub transfer_ownership : ℕ → OwnableMessage Data
  transfer_ownership new_owner = do
    caller ← asks (λ env. env.caller)
    ownable_data ← gets (λ s. s.self.ownable_data)
    changed ← try (Ownable.transfer_ownership ownable_data caller new_owner)
    keeps_owners changed
    emit_event (transfer_ownership_initiated new_owner)

  -- The event is the one of `transfer_ownership`.
  pub accept_ownership : OwnableMessage Data
  accept_ownership = do
    new_owner ← asks (λ env. env.caller)
    ownable_data ← gets (λ s. s.self.ownable_data)
    changed ← try (Ownable.accept_ownership ownable_data new_owner)
    keeps_owners changed
    emit_event (transfer_ownership_initiated new_owner)

module _ (psp22 : Psp22) where
  open psp22 use {Data, Error, custom}

  abbrev pub TokenMessage : Type 0
  TokenMessage = Message Error (TokenState Data) (Unit {0})

  unfoldable pub new : ℕ → Option String → Option String → ℕ → ℕ → Env → Token Data
  new total_supply name symbol decimals minter_burner env = record {
    psp22_data = psp22.new total_supply env.caller;
    ownable_data = Ownable.new env.caller;
    name = name;
    symbol = symbol;
    decimals = decimals;
    minter_burner = minter_burner;
  }

  pub ensure_owner : Env → TokenState Data → Result Error (Unit {0})
  ensure_owner env s =
      map_err (λ _. custom caller_not_owner) (Ownable.ensure_owner s.self.ownable_data env.caller)

  pub ensure_minter : Env → TokenState Data → Result Error (Unit {0})
  unfolding minter
  ensure_minter env s =
      if not (env.caller == minter s.self) then err (custom caller_not_minter) else ok tt

  pub ensure_burner : Env → TokenState Data → Result Error (Unit {0})
  unfolding burner
  ensure_burner env s =
      if not (env.caller == burner s.self) then err (custom caller_not_burner) else ok tt

  pub set_minter_burner : ℕ → TokenMessage
  unfolding ensure_owner
  set_minter_burner new_minter_burner = do
    view ensure_owner
    (λ env s.
        returns tt (record s { self = record (s.self) { minter_burner = new_minter_burner } }))

  -- A method of the data with `?` on its result, then `emit_events`.
  pub changes : (ℕ → Data → Result Error (List Psp22Event × Data)) → TokenMessage
  changes f = do
    caller ← asks (λ env. env.caller)
    self ← gets (λ s. s.self)
    answer ← try (f caller self.psp22_data)
    (λ env s. returns tt (record {
      self = record (s.self) { psp22_data = answer.1 };
      events = emitted (answer.0) s.events;
    }))

  unfoldable pub total_supply : Token Data → ℕ
  total_supply t = psp22.total_supply t.psp22_data

  unfoldable pub balance_of : Token Data → ℕ → ℕ
  balance_of t owner = psp22.balance_of t.psp22_data owner

  unfoldable pub allowance : Token Data → ℕ → ℕ → ℕ
  allowance t owner spender = psp22.allowance t.psp22_data owner spender

  -- The messages' byte strings are not used.
  pub token_transfer : ℕ → ℕ → TokenMessage
  unfolding changes
  token_transfer to value = changes (λ caller. psp22.transfer caller to value)

  pub transfer_from : ℕ → ℕ → ℕ → TokenMessage
  unfolding changes
  transfer_from from to value = changes (λ caller. psp22.transfer_from caller from to value)

  pub approve : ℕ → ℕ → TokenMessage
  unfolding changes
  approve spender value = changes (λ caller. psp22.approve caller spender value)

  pub increase_allowance : ℕ → ℕ → TokenMessage
  unfolding changes
  increase_allowance spender delta_value =
      changes (λ caller. psp22.increase_allowance caller spender delta_value)

  pub decrease_allowance : ℕ → ℕ → TokenMessage
  unfolding changes
  decrease_allowance spender delta_value =
      changes (λ caller. psp22.decrease_allowance caller spender delta_value)

  pub mint : ℕ → ℕ → TokenMessage
  unfolding changes ensure_minter
  mint to value = do view ensure_minter; changes (λ _. psp22.mint to value)

  pub burn : ℕ → TokenMessage
  unfolding changes ensure_burner
  burn value = do view ensure_burner; changes (λ caller. psp22.burn caller value)
