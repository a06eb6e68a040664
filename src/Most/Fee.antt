-- ===== src/Most/Fee.antt =====
-- `get_base_fee` of azero/contracts/most/lib.rs. The release profile turns overflow checks off, so
-- the sum of timestamp and maximum age wraps.
use most_aleph_zero_bridge.Common.{
  ℕ, ◌+◌, ◌%◌, Option, none, some, Env, u64_size, checked_mul, checked_div, ltb, if◌then◌else◌,
}
use most_aleph_zero_bridge.Common.Fallible.{◌>>=◌, ok_or}
use most_aleph_zero_bridge.Most.Types.{
  Data, State, arithmetic, gas_oracle_max_age, base_fee_buffer_percentage,
}
use most_aleph_zero_bridge.Most.Chain.{Chain, MostResult}
use most_aleph_zero_bridge.Most.Query.{read_data}

-- The price used, from the oracle's answer at a given block timestamp.
unfoldable pub gas_price_from : ℕ → Data → Option (ℕ × ℕ) → ℕ
gas_price_from now d none = d.default_gas_price
gas_price_from now d (some (gas_price, timestamp)) =
    if ltb ((timestamp + gas_oracle_max_age) % u64_size) now
    then d.default_gas_price
    else if ltb gas_price d.min_gas_price
    then d.min_gas_price
    else if ltb d.max_gas_price gas_price
    then d.max_gas_price
    else gas_price

module _ (chain : Chain) where
  open chain use {World, get_price}

  unfoldable pub gas_price : Env → Data → World → ℕ
  unfolding gas_price_from
  gas_price env d world = elim d.gas_price_oracle [
    | some oracle ↦ gas_price_from env.block_timestamp d (get_price oracle world)
    | none ↦ d.default_gas_price
  ]

  unfoldable pub get_base_fee : Env → State World → MostResult chain ℕ
  unfolding gas_price read_data
  get_base_fee env s = do
    d ← read_data s.self
    product ← ok_or (checked_mul (gas_price env d s.world) d.relay_gas_usage) arithmetic
    buffered ← ok_or (checked_mul product (100 + base_fee_buffer_percentage)) arithmetic
    ok_or (checked_div buffered 100) arithmetic
