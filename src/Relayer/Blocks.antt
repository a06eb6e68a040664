-- ===== src/Relayer/Blocks.antt =====
-- Block numbers of relayer/relayer/src/listeners and connections/redis_helpers.rs: `u32` arithmetic
-- (release builds wrap around), ordered sets of blocks, and the block cached in Redis.
use most_aleph_zero_bridge.Common.{
  Option-cases, ℕ, zero, suc, ◌+◌, ◌-◌, ◌≤◌, ◌%◌, ◌≡◌, refl, Bool, true, false, ◌||◌, inl, inr,
  Option, none, some, List, [], ◌∷◌, leb, ◌==◌, if◌then◌else◌, u32_size, arith, Bool-cases,
}

abbrev pub add_u32 : ℕ → ℕ → ℕ
add_u32 a b = (a + b) % u32_size

abbrev pub sub_u32 : ℕ → ℕ → ℕ
sub_u32 a b = (a + (u32_size - b)) % u32_size

abbrev pub min : ℕ → ℕ → ℕ
min a b = if leb a b then a else b

-- `BTreeSet<u32>`: its elements, whose order does not matter, and its methods.
unfoldable pub elem : ℕ → List ℕ → Bool
elem x [] = false
elem x (b ∷ bs) = (x == b) || elem x bs

unfoldable pub insert : ℕ → List ℕ → List ℕ
insert x set = if elem x set then set else x ∷ set

unfoldable pub remove : ℕ → List ℕ → List ℕ
remove x [] = []
remove x (b ∷ bs) = let rest = remove x bs in if x == b then rest else b ∷ rest

-- The smallest element.
unfoldable pub first : List ℕ → Option ℕ
first [] = none
first (b ∷ bs) = elim (first bs) [ none ↦ some b | some m ↦ some (min b m) ]

-- The blocks `from..=to`, as the loops go through them: `count` is their number.
unfoldable pub blocks_from : ℕ → ℕ → List ℕ
blocks_from from zero = []
blocks_from from (suc count) = from ∷ blocks_from (from + 1) count

-- `read_first_unprocessed_block_number`: what Redis answers is `none` on an error, or if nothing
-- is cached.
unfoldable pub read_first_unprocessed_block_number : Option ℕ → ℕ → ℕ
read_first_unprocessed_block_number none default_block = default_block
read_first_unprocessed_block_number (some value) default_block = add_u32 value 1

pub elem-insert : (x y : ℕ) (set : List ℕ) → elem x (insert y set) ≡ ((x == y) || elem x set)
unfolding insert elem
elem-insert x y set = elim (Bool-cases (elem y set)) [ inl e ↦ ground arith | inr e ↦ ground arith ]

pub elem-remove :
    (x y : ℕ) (set : List ℕ) → elem x (remove y set) ≡ (if x == y then false else elem x set)
unfolding remove elem
elem-remove x y [] = ground arith
elem-remove x y (b ∷ bs) = ground (arith, elem-remove x y bs)

-- The first element is in the set.
pub elem-first : (set : List ℕ) {m : ℕ} → first set ≡ some m → elem m set ≡ true
unfolding first elem
elem-first [] e = absurd (cc)
elem-first (b ∷ bs) e = elim (Option-cases (first bs)) [
  | inl none_left ↦ ground arith
  | inr (m, found) ↦ ground (arith, elem-first bs found)
]

-- A set with an element has a first one.
pub first-some : (x : ℕ) (set : List ℕ) → elem x set ≡ true → (m : ℕ) × (first set ≡ some m)
unfolding first elem
first-some x [] h = absurd (cc)
first-some x (b ∷ bs) h = elim (Option-cases (first bs)) [
  | inl e ↦ (b, rw e refl)
  | inr (m, e) ↦ (min b m, rw e refl)
]

-- No element is below the first one.
pub first-least : (x : ℕ) (set : List ℕ) {m : ℕ} → first set ≡ some m → elem x set ≡ true → m ≤ x
unfolding first elem
first-least x [] e h = absurd (cc)
first-least x (b ∷ bs) e h = elim (Option-cases (first bs)) [
  | inl none_left ↦ elim (Bool-cases (elem x bs)) [
    | inl later ↦ absurd (ground (arith, first-some x bs later))
    | inr not_later ↦ ground arith
  ]
  | inr (m, found) ↦ ground (arith, first-least x bs found)
]
