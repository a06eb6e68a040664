-- ===== src/Oracle.antt =====
-- azero/contracts/gas-price-oracle/contract/lib.rs: the gas price oracle.
pub mod Answers
mod Tests
use most_aleph_zero_bridge.Common.{
  ℕ, String, Option, none, List, [], ◌∷◌, Result, ok, err, Message, view, asks, gets, Env, ◌>>=◌,
  ◌>>◌, returns, reverts,
}
use most_aleph_zero_bridge.Common.Fallible.{map_err}
use most_aleph_zero_bridge.Common.Host.{Host}
use most_aleph_zero_bridge.Ownable
use most_aleph_zero_bridge.Ownable.{Ownable2StepData, Ownable2StepError, Ownable2StepResult}

pub data OracleError : Type 0 where
  ownable : Ownable2StepError → OracleError
  ink_env_error : String → OracleError

pub data OracleEvent : Type 0 where
  -- price, timestamp
  price_updated : ℕ → ℕ → OracleEvent
  -- the new owner
  transfer_ownership_initiated transfer_ownership_accepted : ℕ → OracleEvent
  -- the new code hash
  contract_upgraded : ℕ → OracleEvent

pub record Oracle : Type 0 where
  pub ownable_data : Ownable2StepData
  pub last_update : ℕ
  pub last_price : ℕ
  pub reserved : Option (Unit {0})

pub record OracleState (World : Type 0) : Type 0 where
  pub self : Oracle
  pub open self use *
  pub world : World
  pub events : List OracleEvent

pub new : Env → ℕ → ℕ → Oracle
unfolding Ownable.new
new env owner init_price = record {
  ownable_data = Ownable.new owner;
  last_update = env.block_timestamp;
  last_price = init_price;
  reserved = none;
}

-- Price, then timestamp.
pub get_price : Oracle → ℕ × ℕ
get_price o = (o.last_price, o.last_update)

pub get_owner : Oracle → Ownable2StepResult ℕ
unfolding Ownable.get_owner
get_owner o = Ownable.get_owner o.ownable_data

pub get_pending_owner : Oracle → Ownable2StepResult ℕ
unfolding Ownable.get_pending_owner
get_pending_owner o = Ownable.get_pending_owner o.ownable_data

pub ensure_owner : Oracle → ℕ → Ownable2StepResult (Unit {0})
unfolding Ownable.ensure_owner
ensure_owner o caller = Ownable.ensure_owner o.ownable_data caller

module _ (host : Host) where
  open host use {World, debug, set_code_hash}

  abbrev pub OracleMessage : Type 0 → Type 0
  OracleMessage A = Message OracleError (OracleState World) A

  abbrev only_owner : OracleMessage (Unit {0})
  only_owner = view (λ env s. map_err ownable (ensure_owner s.self env.caller))

  abbrev emit_event : OracleEvent → OracleMessage (Unit {0})
  emit_event e env s = returns tt (record s { events = e ∷ s.events })

  abbrev writes : (Oracle → Oracle) → OracleMessage (Unit {0})
  writes f env s = returns tt (record s { self = f s.self })

  pub update_price : ℕ → OracleMessage (Unit {0})
  unfolding ensure_owner
  update_price new_price = do
    only_owner
    timestamp ← asks (λ env. env.block_timestamp)
    writes (λ o. record o { last_update = timestamp })
    writes (λ o. record o { last_price = new_price })
    last_update ← gets (λ s. s.last_update)
    emit_event (price_updated new_price last_update)

  pub upgrade_contract : ℕ → OracleMessage (Unit {0})
  unfolding ensure_owner
  upgrade_contract code_hash = do
    only_owner
    (λ env s. elim (set_code_hash env.account_id code_hash s.world) [
      | ok w ↦ returns tt (record s { world = w })
      | err why ↦ reverts (ink_env_error (debug why))
    ])
    emit_event (contract_upgraded code_hash)

  -- The ownership data after one of its methods.
  abbrev owns :
      (Env → Ownable2StepData → Ownable2StepResult Ownable2StepData) → OracleMessage (Unit {0})
  owns method = do
    changed ← view (λ env s. map_err ownable (method env s.ownable_data))
    writes (λ o. record o { ownable_data = changed })

  pub transfer_ownership : ℕ → OracleMessage (Unit {0})
  transfer_ownership new_owner = do
    owns (λ env d. Ownable.transfer_ownership d env.caller new_owner)
    emit_event (transfer_ownership_initiated new_owner)

  pub accept_ownership : OracleMessage (Unit {0})
  accept_ownership = do
    new_owner ← asks (λ env. env.caller)
    owns (λ env d. Ownable.accept_ownership d new_owner)
    emit_event (transfer_ownership_accepted new_owner)
