-- ===== src/Most/FeeBounds.antt =====
-- The base fee of azero/contracts/most/lib.rs: bounds that no oracle can leave.
use native.Mathlib.Nat.{mul-le-mul_right}
use most_aleph_zero_bridge.Common.{
  inr, inl, Option-cases, ℕ, ◌*◌, ◌/◌, ◌≤◌, ◌<◌, ◌≡◌, Option, none, some, Env, ok, checked_mul,
  checked_div, u128_size, arith,
}
use most_aleph_zero_bridge.Most.Types.{Data, State}
use most_aleph_zero_bridge.Most.Chain.{Chain}
use most_aleph_zero_bridge.Most.Query.{read_data}
use most_aleph_zero_bridge.Most.Fee.{gas_price_from, gas_price, get_base_fee}

-- The prices that the owner has configured are in order.
pub record IsPriced (d : Data) : Type 0 where
  pub low : d.min_gas_price ≤ d.default_gas_price
  pub high : d.default_gas_price ≤ d.max_gas_price

gas_price_from_bounds :
    (now : ℕ) (d : Data) (answer : Option (ℕ × ℕ))
    → IsPriced d
    → (d.min_gas_price ≤ gas_price_from now d answer)
      × (gas_price_from now d answer ≤ d.max_gas_price)
unfolding gas_price_from
gas_price_from_bounds now d none p = omega arith
gas_price_from_bounds now d (some (price, timestamp)) p = ground arith

-- The fee at a given gas price, before rounding down to whole units.
abbrev pub fee_at : ℕ → ℕ → ℕ
fee_at price usage = price * usage * 120 / 100

module _ (chain : Chain) (env : Env) (s : State (chain.World)) where
  gas_price_bounds :
      (d : Data)
      → IsPriced d
      → (d.min_gas_price ≤ gas_price chain env d s.world)
        × (gas_price chain env d s.world ≤ d.max_gas_price)
  unfolding gas_price
  gas_price_bounds d p = elim (Option-cases d.gas_price_oracle) [
    | inl e ↦ ground arith
    | inr (oracle, e) ↦
        rw e (gas_price_from_bounds env.block_timestamp d (chain.get_price oracle s.world) p)
  ]

  base_fee_value :
      (d : Data) {fee : ℕ}
      → s.lazy_data ≡ some d
      → get_base_fee chain env s ≡ ok fee
      → fee ≡ fee_at (gas_price chain env d s.world) d.relay_gas_usage
  unfolding get_base_fee read_data checked_mul checked_div
  base_fee_value d stored h = ground arith

  fee_at_mono : (p q usage : ℕ) → p ≤ q → fee_at p usage ≤ fee_at q usage
  fee_at_mono p q usage h =
      let step : p * usage ≤ q * usage = mul-le-mul_right usage h in omega arith

  -- If the configured prices are in order, then whatever the oracle answers, or if it fails to
  -- answer, a base fee that is computed lies between the fees at the configured minimum and maximum
  -- gas prices.
  pub base_fee_bounds :
      (d : Data) {fee : ℕ}
      → s.lazy_data ≡ some d
      → IsPriced d
      → get_base_fee chain env s ≡ ok fee
      → (fee_at d.min_gas_price d.relay_gas_usage ≤ fee)
        × (fee ≤ fee_at d.max_gas_price d.relay_gas_usage)
  base_fee_bounds d stored p h =
      let bounds = gas_price_bounds d p in
      rw (base_fee_value d stored h)
        (fee_at_mono _ _ d.relay_gas_usage bounds.0, fee_at_mono _ _ d.relay_gas_usage bounds.1)

  -- If the configured prices are in order and the fee at the maximum gas price, with its buffer,
  -- fits 128 bits, then the base fee can be computed, whatever the oracle answers, and is the fee
  -- at the gas price in use.
  pub base_fee_total :
      (d : Data)
      → s.lazy_data ≡ some d
      → IsPriced d
      → d.max_gas_price * d.relay_gas_usage * 120 < u128_size
      → get_base_fee chain env s ≡ ok (fee_at (gas_price chain env d s.world) d.relay_gas_usage)
  unfolding get_base_fee read_data checked_mul checked_div
  base_fee_total d stored p fits =
      let bounds = gas_price_bounds d p in
      let step : gas_price chain env d s.world * d.relay_gas_usage
          ≤ d.max_gas_price * d.relay_gas_usage =
        mul-le-mul_right d.relay_gas_usage bounds.1 in
      ground arith
