-- ===== src/Most/Chain.antt =====
-- What the Most contract calls and does not implement: the runtime's balances and code, the PSP22
-- tokens, the gas price oracle and the host's Keccak-256.
use most_aleph_zero_bridge.Common.{
  ℕ, String, Option, List, Result, ok, err, Outcome, returns, reverts, traps, Message, ◌∷◌,
}
use most_aleph_zero_bridge.Most.Types.{MostError, psp22, State, Event, Most}

-- A call to another contract returns, fails with that contract's error, or traps. One that does
-- not return leaves the world as it was. The first argument is the account that makes the call.
pub record Chain : Type 1 where
  pub World : Type 0
  pub PSP22Error : Type 0
  pub InkEnvError : Type 0
  -- `format!("{:?}", why)`
  pub debug : InkEnvError → String
  pub keccak256 : List ℕ → ℕ
  -- `env().transfer`: payer, receiver, amount
  pub transfer : ℕ → ℕ → ℕ → World → Result InkEnvError World
  -- `set_code_hash`: contract, code hash
  pub set_code_hash : ℕ → ℕ → World → Result InkEnvError World
  -- `PSP22::transfer`: caller, token, receiver, amount (the data argument is always empty)
  pub psp22_transfer : ℕ → ℕ → ℕ → ℕ → World → Outcome PSP22Error World (Unit {0})
  -- `PSP22::transfer_from`: caller, token, from, to, amount
  pub psp22_transfer_from : ℕ → ℕ → ℕ → ℕ → ℕ → World → Outcome PSP22Error World (Unit {0})
  -- `Mintable::mint`: caller, token, to, amount
  pub psp22_mint : ℕ → ℕ → ℕ → ℕ → World → Outcome PSP22Error World (Unit {0})
  -- `Burnable::burn`: caller, token, amount
  pub psp22_burn : ℕ → ℕ → ℕ → World → Outcome PSP22Error World (Unit {0})
  -- `Mintable::minter` of a token; `none` is a call that traps
  pub psp22_minter : ℕ → World → Option ℕ
  -- `EthGasPriceOracle::get_price` by `try_invoke` under the gas limit: price and timestamp, or
  -- `none` for every outcome but `Ok(Ok(..))`
  pub get_price : ℕ → World → Option (ℕ × ℕ)

module _ (chain : Chain) where
  open chain use {World, PSP22Error, InkEnvError, debug, transfer}

  abbrev pub Call : Type 0 → Type 0
  Call A = Message (MostError PSP22Error) (State World) A

  abbrev pub MostResult : Type 0 → Type 0
  MostResult A = Result (MostError PSP22Error) A

  -- A query of the contract's own storage.
  abbrev pub reads : {A : Type 0} → (Most → MostResult A) → Call A
  reads q env s = elim (q s.self) [ ok a ↦ returns a s | err e ↦ reverts e ]

  -- A call of another contract, with `?` on its result.
  abbrev pub calls : (World → Outcome PSP22Error World (Unit {0})) → Call (Unit {0})
  calls f env s = elim (f s.world) [
    | returns a w ↦ returns tt (record s { world = w })
    | reverts e ↦ reverts (psp22 e)
    | traps ↦ traps
  ]

  -- `self.env().transfer(receiver, amount)`, whose result the caller inspects.
  abbrev pub env_transfer : ℕ → ℕ → Call (Result InkEnvError (Unit {0}))
  env_transfer receiver amount env s = elim (transfer env.account_id receiver amount s.world) [
    | ok w ↦ returns (ok tt) (record s { world = w })
    | err e ↦ returns (err e) s
  ]

  -- A change of the storage.
  abbrev pub writes : (Most → Most) → Call (Unit {0})
  writes f env s = returns tt (record s { self = f s.self })

  abbrev pub emit_event : Event → Call (Unit {0})
  emit_event e env s = returns tt (record s { events = e ∷ s.events })
