-- ===== src/Relayer/Decoding/Fields.antt =====
-- What relayer/relayer/src/contracts/azero.rs reads from an event is what the contract put there.
use most_aleph_zero_bridge.Common.Fallible.{>>=-eq-ok}
use mathlib.Core.Option.{none}
use most_aleph_zero_bridge.Relayer.Decoding.{
  no_values, cons_value, Values, Value, uint, seq, CrosschainTransferRequestData, decode_elements,
  exactly_32, decode_seq, decode_seq_field, decode_uint, decode_uint_field, get_request_event_data,
}
use most_aleph_zero_bridge.Common.{
  inr, inl, ℕ, ◌<◌, ◌≡◌, refl, String, Option, some, List, [], ◌∷◌, ok, length, All, arith,
  Result-cases,
}

-- The transcoder's value for an array of bytes.
abbrev pub uints : List ℕ → Values
uints [] = no_values
uints (b ∷ bytes) = cons_value (uint b) (uints bytes)

-- 32 bytes.
abbrev pub IsBytes32 : List ℕ → Type 0
IsBytes32 bytes = All (λ b. b < 256) bytes × (length bytes ≡ 32)

decode_elements-bytes :
    (field : String) (bytes : List ℕ)
    → All (λ b. b < 256) bytes
    → decode_elements field (uints bytes) ≡ ok bytes
unfolding decode_elements
decode_elements-bytes field [] h = refl
decode_elements-bytes field (b ∷ bytes) h =
    rw (decode_elements-bytes field bytes h.1) (ground arith)

decode_elements-All :
    (field : String) (elements : Values) {bytes : List ℕ}
    → decode_elements field elements ≡ ok bytes
    → All (λ b. b < 256) bytes
unfolding decode_elements
decode_elements-All field no_values e = ground arith
decode_elements-All field (cons_value (uint x) elements) e =
    elim (Result-cases (decode_elements field elements)) [
      | inl (rest, found) ↦ ground (arith, decode_elements-All field elements found)
      | inr (why, failed) ↦ ground arith
    ]
decode_elements-All field (cons_value _ elements) e = absurd (cc)

decode_seq-bytes :
    (field : String) (bytes : List ℕ)
    → IsBytes32 bytes
    → decode_seq field (some (seq (uints bytes))) ≡ ok bytes
unfolding decode_seq exactly_32
decode_seq-bytes field bytes h = rw (decode_elements-bytes field bytes h.0) (ground arith)

decode_seq-IsBytes32 :
    (field : String) (v : Option Value) {bytes : List ℕ}
    → decode_seq field v ≡ ok bytes
    → IsBytes32 bytes
unfolding decode_seq exactly_32
decode_seq-IsBytes32 field none e = absurd (cc)
decode_seq-IsBytes32 field (some (seq elements)) e =
    elim (Result-cases (decode_elements field elements)) [
      | inl (rest, found) ↦ ground (arith, decode_elements-All field elements found)
      | inr (why, failed) ↦ ground arith
    ]
decode_seq-IsBytes32 field (some _) e = absurd (cc)

-- The fields that the contract's event has, as the transcoder decodes them.
pub record Carries (fields : String → Option Value) (r : CrosschainTransferRequestData)
    : Type 0 where
  pub committee : fields "committee_id" ≡ some (uint r.committee_id)
  pub token : fields "dest_token_address" ≡ some (seq (uints r.dest_token_address))
  pub amount : fields "amount" ≡ some (uint r.amount)
  pub receiver : fields "dest_receiver_address" ≡ some (seq (uints r.dest_receiver_address))
  pub nonce : fields "request_nonce" ≡ some (uint r.request_nonce)

-- From the fields of a request whose addresses have 32 bytes the relayer reads exactly this
-- request.
pub get_request_event_data-Carries :
    (fields : String → Option Value) (r : CrosschainTransferRequestData)
    → Carries fields r
    → IsBytes32 r.dest_token_address
    → IsBytes32 r.dest_receiver_address
    → get_request_event_data fields ≡ ok r
unfolding get_request_event_data decode_uint_field decode_uint decode_seq_field
get_request_event_data-Carries fields r c token receiver =
    rw
      (
        c.committee,
        c.token,
        c.amount,
        c.receiver,
        c.nonce,
        decode_seq-bytes "dest_token_address" r.dest_token_address token,
        decode_seq-bytes "dest_receiver_address" r.dest_receiver_address receiver,
      )
      refl

-- Whatever the fields are: a request that the relayer reads from them has addresses of 32 bytes.
pub get_request_event_data-IsBytes32 :
    (fields : String → Option Value) {r : CrosschainTransferRequestData}
    → get_request_event_data fields ≡ ok r
    → IsBytes32 r.dest_token_address × IsBytes32 r.dest_receiver_address
unfolding get_request_event_data decode_seq_field
get_request_event_data-IsBytes32 fields e =
    let (c, _, e1) = >>=-eq-ok (decode_uint_field fields "committee_id") _ e in
    let (token, got_token, e2) =
      >>=-eq-ok (decode_seq "dest_token_address" (fields "dest_token_address")) _ e1 in
    let (a, _, e3) = >>=-eq-ok (decode_uint_field fields "amount") _ e2 in
    let (receiver, got_receiver, e4) =
      >>=-eq-ok (decode_seq "dest_receiver_address" (fields "dest_receiver_address")) _ e3 in
    ground (
      arith,
      decode_seq-IsBytes32 "dest_token_address" (fields "dest_token_address") got_token,
      decode_seq-IsBytes32 "dest_receiver_address" (fields "dest_receiver_address") got_receiver,
    )
