-- ===== src/EthContract/Encoding.antt =====
-- The bytes and hashes of eth/contracts/Most.sol. A `bytes32` is the number that its bytes spell,
-- most significant first, as `uint256(..)` reads it.
use mathlib.Core.List.{append_assoc, append-nil}
use most_aleph_zero_bridge.Common.{
  ℕ, zero, suc, ◌+◌, ◌*◌, ◌/◌, ◌%◌, ◌<◌, ◌≡◌, List, [], ◌∷◌, ◌++◌, All, length, arith, ap, sym, ◌∙◌,
}

-- The bytes of a number, most significant first.
unfoldable pub to_be_bytes : ℕ → ℕ → List ℕ
to_be_bytes zero x = []
to_be_bytes (suc width) x = to_be_bytes width (x / 256) ++ ((x % 256) ∷ [])

-- `keccak256(abi.encodePacked(..))` of two `bytes32` between `uint256`s.
unfoldable pub eth_request_hash : (List ℕ → ℕ) → ℕ → ℕ → ℕ → ℕ → ℕ → ℕ
unfolding to_be_bytes
eth_request_hash keccak256 committee_id dest_token_address amount dest_receiver_address
      request_nonce =
    keccak256 (
      to_be_bytes 32 committee_id
      ++ (to_be_bytes 32 dest_token_address
          ++ (to_be_bytes 32 amount
              ++ (to_be_bytes 32 dest_receiver_address ++ to_be_bytes 32 request_nonce))))

-- `keccak256(abi.encodePacked(..))` of a `uint256` and an address.
unfoldable pub member_id : (List ℕ → ℕ) → ℕ → ℕ → ℕ
unfolding to_be_bytes
member_id keccak256 committee_id account =
    keccak256 (to_be_bytes 32 committee_id ++ to_be_bytes 20 account)

-- The number that bytes spell.
pub of_be_bytes_from : ℕ → List ℕ → ℕ
of_be_bytes_from x [] = x
of_be_bytes_from x (b ∷ bs) = of_be_bytes_from (x * 256 + b) bs

unfoldable pub of_be_bytes : List ℕ → ℕ
unfolding of_be_bytes_from
of_be_bytes bytes = of_be_bytes_from 0 bytes

to_be_bytes-of_be_bytes_from :
    (width x : ℕ) (bs : List ℕ)
    → All (λ b. b < 256) bs
    → to_be_bytes (length bs + width) (of_be_bytes_from x bs) ≡ to_be_bytes width x ++ bs
unfolding of_be_bytes_from to_be_bytes
to_be_bytes-of_be_bytes_from width x [] h =
    let e : 0 + width ≡ width = omega arith in
    ap (λ w. to_be_bytes w x) e ∙ sym (append-nil (to_be_bytes width x))
to_be_bytes-of_be_bytes_from width x (b ∷ bs) h =
    let e : suc (length bs) + width ≡ length bs + suc width = omega arith in
    let high : (x * 256 + b) / 256 ≡ x = omega (arith, h.0) in
    let low : (x * 256 + b) % 256 ≡ b = omega (arith, h.0) in
    ap (λ w. to_be_bytes w (of_be_bytes_from (x * 256 + b) bs)) e
    ∙ to_be_bytes-of_be_bytes_from (suc width) (x * 256 + b) bs h.1
    ∙ rw (high, low) (append_assoc (to_be_bytes width x) (b ∷ []) bs)

-- The bytes of the number that 32 bytes spell are these bytes.
pub to_be_bytes-of_be_bytes :
    (bytes : List ℕ)
    → All (λ b. b < 256) bytes
    → length bytes ≡ 32
    → to_be_bytes 32 (of_be_bytes bytes) ≡ bytes
unfolding of_be_bytes to_be_bytes
to_be_bytes-of_be_bytes bytes h l =
    let e : 32 ≡ length bytes + 0 = omega (arith, l) in
    ap (λ w. to_be_bytes w (of_be_bytes_from 0 bytes)) e ∙ to_be_bytes-of_be_bytes_from 0 0 bytes h
