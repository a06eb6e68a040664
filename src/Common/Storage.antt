-- ===== src/Common/Storage.antt =====
-- `ink::storage::Mapping`: storage cells addressed by key. A handle holds no data of its own, so
-- the cells of one manual key are one function, whichever handle writes them.
use Prim.Native.Nat.{ℕ}
use mathlib.Core.Bool.{Bool, true, false, ◌&&◌}
use mathlib.Core.Option.{Option, none, some}
use most_aleph_zero_bridge.Common.Tests.{◌==◌, if◌then◌else◌}

-- The keys of a mapping compare by their encodings.
pub record Key (K : Type 0) : Type 0 where
  pub same : K → K → Bool

instance abbrev pub number_key : Key ℕ
number_key = record { same = ◌==◌ }

instance abbrev pub pair_key : Key (ℕ × ℕ)
pair_key = record { same = λ p q. (p.0 == q.0) && (p.1 == q.1) }

abbrev pub Mapping : Type 0 → Type 0 → Type 0
Mapping K V = K → Option V

module _ {K V : Type 0} where
  abbrev pub empty_mapping : Mapping K V
  empty_mapping k = none

  -- `Mapping::contains`
  abbrev pub contains : Mapping K V → K → Bool
  contains m k = elim (m k) [ none ↦ false | some _ ↦ true ]

  -- `Mapping::insert`
  unfoldable pub insert : ⦃key : Key K⦄ → Mapping K V → K → V → Mapping K V
  insert ⦃key⦄ m k v = λ q. if key.same k q then some v else m q

  -- `Mapping::remove`
  unfoldable pub remove : ⦃key : Key K⦄ → Mapping K V → K → Mapping K V
  remove ⦃key⦄ m k = λ q. if key.same k q then none else m q

-- `Option::unwrap_or`
abbrev pub unwrap_or {ℓ} : {A : Type ℓ} → Option A → A → A
unwrap_or none d = d
unwrap_or (some a) d = a
