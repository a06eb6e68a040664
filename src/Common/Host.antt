-- ===== src/Common/Host.antt =====
-- What the runtime does for a contract beyond its storage: contract code.
use Prim.Native.Nat.{ℕ}
use Prim.Native.String.{String}
use most_aleph_zero_bridge.Common.Fallible.{Result}

pub record Host : Type 1 where
  pub World : Type 0
  pub InkEnvError : Type 0
  -- `format!("{:?}", why)`
  pub debug : InkEnvError → String
  -- `set_code_hash`: contract, code hash
  pub set_code_hash : ℕ → ℕ → World → Result InkEnvError World
  -- `env().own_code_hash()`: contract
  pub own_code_hash : ℕ → World → Result InkEnvError ℕ
