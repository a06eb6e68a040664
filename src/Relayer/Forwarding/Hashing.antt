-- ===== src/Relayer/Forwarding/Hashing.antt =====
-- The hash in relayer/relayer/src/listeners/azero.rs is the one that eth/contracts/Most.sol computes.
use mathlib.Core.List.{append-nil}
use most_aleph_zero_bridge.Common.{ℕ, ◌^◌, ◌<◌, ◌≡◌, List, [], ◌∷◌, All, length, map, refl, arith}
use most_aleph_zero_bridge.EthContract.Encoding.{
  to_be_bytes, eth_request_hash, of_be_bytes, to_be_bytes-of_be_bytes,
}
use most_aleph_zero_bridge.Shared.{concat}
use most_aleph_zero_bridge.Relayer.Decoding.{CrosschainTransferRequestData}
use most_aleph_zero_bridge.Relayer.Decoding.Fields.{IsBytes32}
use most_aleph_zero_bridge.Relayer.Forwarding.{
  AbiToken, uint_token, fixed_bytes_token, EthLibrary, request_tokens, vote_for,
}

-- One word of the ABI encoding: a number of at most 256 bits, or 32 bytes.
abbrev pub IsWord : AbiToken → Type 0
IsWord (uint_token n) = n < 2 ^ 256
IsWord (fixed_bytes_token bytes) = length bytes ≡ 32

abbrev pub word : AbiToken → List ℕ
word (uint_token n) = to_be_bytes 32 n
word (fixed_bytes_token bytes) = bytes

-- The ABI encoding of values of one word each is these words, one after the other.
abbrev pub EncodesWords : (List AbiToken → List ℕ) → Type 0
EncodesWords encode =
    (tokens : List AbiToken) → All IsWord tokens → encode tokens ≡ concat (map word tokens)

-- A request as the contract's event has it: numbers of 128 bits and arrays of 32 bytes.
pub record IsRequest (r : CrosschainTransferRequestData) : Type 0 where
  pub committee_bound : r.committee_id < 2 ^ 128
  pub token_bytes : IsBytes32 r.dest_token_address
  pub amount_bound : r.amount < 2 ^ 128
  pub receiver_bytes : IsBytes32 r.dest_receiver_address
  pub nonce_bound : r.request_nonce < 2 ^ 128

-- The five words of a request, hashed.
words-hash :
    (keccak256 : List ℕ → ℕ) (committee : ℕ) (token : List ℕ) (amount : ℕ) (receiver : List ℕ)
    (nonce x y : ℕ)
    → to_be_bytes 32 x ≡ token
    → to_be_bytes 32 y ≡ receiver
    → keccak256 (
        concat (
          to_be_bytes 32 committee
          ∷ token
          ∷ to_be_bytes 32 amount
          ∷ receiver
          ∷ to_be_bytes 32 nonce
          ∷ []))
      ≡ eth_request_hash keccak256 committee x amount y nonce
unfolding eth_request_hash concat
words-hash keccak256 committee token amount receiver nonce x y ex ey =
    rw (← ex, ← ey) (rw (append-nil (to_be_bytes 32 nonce)) refl)

-- The vote for a request whose numbers have 128 bits and whose addresses have 32 bytes carries the
-- hash that the contract on Ethereum computes from it, if the ABI encoding of values of one word
-- each is these words, one after the other.
pub vote_for-hash :
    (library : EthLibrary) (eth_gas_limit next_nonce : ℕ) (r : CrosschainTransferRequestData)
    → EncodesWords library.encode
    → IsRequest r
    → (vote_for library eth_gas_limit r next_nonce).request_hash
      ≡ eth_request_hash library.keccak256 r.committee_id
          (of_be_bytes r.dest_token_address)
          r.amount
          (of_be_bytes r.dest_receiver_address)
          r.request_nonce
unfolding vote_for request_tokens eth_request_hash concat
vote_for-hash library eth_gas_limit next_nonce r words fits =
    let all_words : All IsWord (request_tokens r) = (
      omega (arith, fits.committee_bound),
      (
        fits.token_bytes.1,
        (
          omega (arith, fits.amount_bound),
          (fits.receiver_bytes.1, (omega (arith, fits.nonce_bound), tt)),
        ),
      ),
    ) in
    rw (words (request_tokens r) all_words) (
      words-hash library.keccak256 r.committee_id r.dest_token_address r.amount
        r.dest_receiver_address r.request_nonce (of_be_bytes r.dest_token_address)
        (of_be_bytes r.dest_receiver_address)
        (to_be_bytes-of_be_bytes r.dest_token_address (fits.token_bytes.0) (fits.token_bytes.1))
        (to_be_bytes-of_be_bytes r.dest_receiver_address (fits.receiver_bytes.0)
          (fits.receiver_bytes.1)))
