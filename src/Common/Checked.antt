-- ===== src/Common/Checked.antt =====
-- Rust's checked, saturating and truncating operations on `u128`, `u64` and `u32`.
use Prim.Native.Nat.{ℕ, ◌+◌, ◌-◌, ◌*◌, ◌/◌, ◌^◌}
use mathlib.Core.Option.{Option, none, some}
use most_aleph_zero_bridge.Common.Tests.{ltb, leb, ◌==◌, if◌then◌else◌}

abbrev pub u128_size : ℕ
u128_size = 2 ^ 128

abbrev pub u64_size : ℕ
u64_size = 2 ^ 64

abbrev pub u32_size : ℕ
u32_size = 2 ^ 32

unfoldable pub checked_add : ℕ → ℕ → Option ℕ
checked_add a b = if ltb (a + b) u128_size then some (a + b) else none

unfoldable pub checked_sub : ℕ → ℕ → Option ℕ
checked_sub a b = if leb b a then some (a - b) else none

unfoldable pub checked_mul : ℕ → ℕ → Option ℕ
checked_mul a b = if ltb (a * b) u128_size then some (a * b) else none

unfoldable pub checked_div : ℕ → ℕ → Option ℕ
checked_div a b = if b == 0 then none else some (a / b)

abbrev pub saturating_sub : ℕ → ℕ → ℕ
saturating_sub a b = a - b
