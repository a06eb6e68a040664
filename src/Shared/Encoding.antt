-- ===== src/Shared/Encoding.antt =====
-- The bytes of a request determine it, and the relayer's concatenation is the contract's.
use mathlib.Core.List.{append_assoc, append-nil}
use native.Mathlib.Nat.{pow-suc}
use most_aleph_zero_bridge.Common.{
  ℕ, zero, suc, ◌/◌, ◌%◌, ◌^◌, ◌<◌, ◌≡◌, refl, List, [], ◌∷◌, ◌++◌, length, arith, ap, sym, ◌∙◌,
}
use most_aleph_zero_bridge.Shared.{
  to_le_bytes, concat, extend_from_slices, concat_u8_arrays, request_bytes,
}

length-to_le_bytes : (width x : ℕ) → length (to_le_bytes width x) ≡ width
unfolding to_le_bytes
length-to_le_bytes zero x = refl
length-to_le_bytes (suc width) x = ap suc (length-to_le_bytes width (x / 256))

-- Two equally long prefixes of equal lists are equal, and so is what follows.
append-split :
    (xs ys us vs : List ℕ) → length xs ≡ length ys → xs ++ us ≡ ys ++ vs → (xs ≡ ys) × (us ≡ vs)
append-split [] [] us vs l e = (refl, e)
append-split [] (y ∷ ys) us vs l e = absurd (omega arith)
append-split (x ∷ xs) [] us vs l e = absurd (omega arith)
append-split (x ∷ xs) (y ∷ ys) us vs l e =
    let rest : (xs ≡ ys) × (us ≡ vs) = append-split xs ys us vs (omega arith) (cc) in
    (cc (rest.0), rest.1)

-- Two numbers below 256 ^ width with the same little-endian bytes of that width are equal.
pub to_le_bytes-injective :
    (width x y : ℕ)
    → x < 256 ^ width
    → y < 256 ^ width
    → to_le_bytes width x ≡ to_le_bytes width y
    → x ≡ y
unfolding to_le_bytes
to_le_bytes-injective zero x y hx hy e = omega arith
to_le_bytes-injective (suc width) x y hx hy e =
    let low : x % 256 ≡ y % 256 = cc in
    let high : x / 256 ≡ y / 256 =
      to_le_bytes-injective width (x / 256) (y / 256) (omega (arith, pow-suc 256 width))
        (omega (arith, pow-suc 256 width)) (cc) in
    omega arith

-- A field of fixed width splits off the front of the bytes.
field-split :
    (width x y : ℕ) (us vs : List ℕ)
    → x < 256 ^ width
    → y < 256 ^ width
    → to_le_bytes width x ++ us ≡ to_le_bytes width y ++ vs
    → (x ≡ y) × (us ≡ vs)
field-split width x y us vs hx hy e =
    let parts : (to_le_bytes width x ≡ to_le_bytes width y) × (us ≡ vs) =
      append-split (to_le_bytes width x) (to_le_bytes width y) us vs
        (length-to_le_bytes width x ∙ sym (length-to_le_bytes width y)) e in
    (to_le_bytes-injective width x y hx hy parts.0, parts.1)

-- The fields of a transfer request, in the ranges of their Rust types.
pub record RequestData : Type 0 where
  pub committee_id : ℕ
  pub token_address : ℕ
  pub amount : ℕ
  pub receiver_address : ℕ
  pub request_nonce : ℕ

pub record InRange (r : RequestData) : Type 0 where
  pub committee_bound : r.committee_id < 256 ^ 16
  pub token_bound : r.token_address < 256 ^ 32
  pub amount_bound : r.amount < 256 ^ 16
  pub receiver_bound : r.receiver_address < 256 ^ 32
  pub nonce_bound : r.request_nonce < 256 ^ 16

abbrev pub bytes_of : RequestData → List ℕ
bytes_of r =
    request_bytes r.committee_id r.token_address r.amount r.receiver_address r.request_nonce

-- Two requests, all of whose fields are in the ranges of their Rust types, and whose hashed bytes
-- are equal, are equal in every field.
pub request_bytes-injective :
    (r q : RequestData) → InRange r → InRange q → bytes_of r ≡ bytes_of q → r ≡ q
unfolding request_bytes
request_bytes-injective r q hr hq e =
    let f1 =
      field-split 16 r.committee_id q.committee_id _ _ hr.committee_bound hq.committee_bound e in
    let f2 =
      field-split 32 r.token_address q.token_address _ _ hr.token_bound hq.token_bound f1.1 in
    let f3 = field-split 16 r.amount q.amount _ _ hr.amount_bound hq.amount_bound f2.1 in
    let f4 =
      field-split 32 r.receiver_address q.receiver_address _ _ hr.receiver_bound hq.receiver_bound
        f3.1 in
    let f5 =
      field-split 16 r.request_nonce q.request_nonce _ _ hr.nonce_bound hq.nonce_bound f4.1 in
    λ i. record {
      committee_id = f1.0 i;
      token_address = f2.0 i;
      amount = f3.0 i;
      receiver_address = f4.0 i;
      request_nonce = f5.0 i;
    }

-- The relayer's loop over slices builds the concatenation that the contract hashes.
extend_from_slices-concat :
    (result : List ℕ) (arrays : List (List ℕ))
    → extend_from_slices result arrays ≡ result ++ concat arrays
unfolding extend_from_slices concat
extend_from_slices-concat result [] = sym (append-nil result)
extend_from_slices-concat result (array ∷ arrays) =
    extend_from_slices-concat (result ++ array) arrays ∙ append_assoc result array (concat arrays)

-- The relayer's loop over slices builds the same bytes as the concatenation that the contract
-- hashes, for every list of slices.
pub concat_u8_arrays-concat : (arrays : List (List ℕ)) → concat_u8_arrays arrays ≡ concat arrays
unfolding concat_u8_arrays
concat_u8_arrays-concat arrays = extend_from_slices-concat [] arrays
