-- ===== src/Shared.antt =====
-- azero/contracts/shared/src and relayer/relayer/src/helpers.rs: the hash of a transfer request.
pub mod Encoding
mod Tests
use most_aleph_zero_bridge.Common.{ℕ, zero, suc, ◌/◌, ◌%◌, List, [], ◌∷◌, ◌++◌}

-- `x.to_le_bytes()` of a number of `width` bytes. An `AccountId`, a `[u8; 32]` and a hash are the
-- numbers whose 32 such bytes are the array, so `as_ref` is the same function at width 32.
unfoldable pub to_le_bytes : ℕ → ℕ → List ℕ
to_le_bytes zero x = []
to_le_bytes (suc width) x = (x % 256) ∷ to_le_bytes width (x / 256)

-- `[..].concat()` on a list of slices.
unfoldable pub concat : List (List ℕ) → List ℕ
concat [] = []
concat (slice ∷ slices) = slice ++ concat slices

-- The loop of `concat_u8_arrays` from a given `result`.
extend_from_slices : List ℕ → List (List ℕ) → List ℕ
extend_from_slices result [] = result
extend_from_slices result (array ∷ arrays) = extend_from_slices (result ++ array) arrays

unfoldable pub concat_u8_arrays : List (List ℕ) → List ℕ
unfolding extend_from_slices
concat_u8_arrays arrays = extend_from_slices [] arrays

-- The bytes that `hash_request_data` hashes.
unfoldable pub request_bytes : ℕ → ℕ → ℕ → ℕ → ℕ → List ℕ
unfolding to_le_bytes concat
request_bytes committee_id token_address amount receiver_address request_nonce = concat (
    to_le_bytes 16 committee_id
    ∷ to_le_bytes 32 token_address
    ∷ to_le_bytes 16 amount
    ∷ to_le_bytes 32 receiver_address
    ∷ to_le_bytes 16 request_nonce
    ∷ [])

-- `keccak256` is the host function `hash_bytes::<Keccak256>`.
unfoldable pub hash_request_data : (List ℕ → ℕ) → ℕ → ℕ → ℕ → ℕ → ℕ → ℕ
hash_request_data keccak256 committee_id token_address amount receiver_address request_nonce =
    keccak256 (request_bytes committee_id token_address amount receiver_address request_nonce)
