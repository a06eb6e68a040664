-- ===== src/Relayer/Decoding.antt =====
-- relayer/relayer/src/contracts/azero.rs: what the relayer reads out of the decoded events and
-- answers of the Most contract. The values are those of the client library's transcoder.
pub mod Fields
mod Tests
use most_aleph_zero_bridge.Common.{
  ℕ, ◌%◌, ◌==◌, String, Bool, Option, none, some, List, [], ◌∷◌, Result, ok, err, length,
  if◌then◌else◌,
}
use most_aleph_zero_bridge.Common.Fallible.{◌>>=◌}

-- `Value` of the transcoder; the identifier of a tuple may be missing.
mutual
  pub data Value : Type 0 where
    uint : ℕ → Value
    bool : Bool → Value
    seq : Values → Value
    tuple : Option String → Values → Value
    other_value : Value

  -- The elements of a sequence or a tuple.
  pub data Values : Type 0 where
    no_values : Values
    cons_value : Value → Values → Values

-- `AzeroContractError`, with the field named and the reason in place of the formatted text.
pub data AzeroContractError : Type 0 where
  incorrect_element_type incorrect_length missing_or_incorrect_format : String → AzeroContractError
  not_decoded_as_bool invalid_response : AzeroContractError
  -- an error of the client library, a bad address, and an answer other than a result
  aleph_client not_account_id dry_run_failed : AzeroContractError

-- `[u8; 32]` is its list of bytes here.
pub record CrosschainTransferRequestData : Type 0 where
  pub committee_id : ℕ
  pub dest_token_address : List ℕ
  pub amount : ℕ
  pub dest_receiver_address : List ℕ
  pub request_nonce : ℕ

-- The fold over the elements, in order. `as u8` keeps the low 8 bits.
pub decode_elements : String → Values → Result AzeroContractError (List ℕ)
decode_elements field no_values = ok []
decode_elements field (cons_value (uint x) elements) = do
  rest ← decode_elements field elements
  ok ((x % 256) ∷ rest)
decode_elements field (cons_value _ elements) = err (incorrect_element_type field)

-- `try_into` of a vector into `[u8; 32]`.
pub exactly_32 : String → List ℕ → Result AzeroContractError (List ℕ)
exactly_32 field bytes = if length bytes == 32 then ok bytes else err (incorrect_length field)

pub decode_seq : String → Option Value → Result AzeroContractError (List ℕ)
unfolding decode_elements exactly_32
decode_seq field (some (seq elements)) = do
  bytes ← decode_elements field elements
  exactly_32 field bytes
decode_seq field _ = err (missing_or_incorrect_format field)

-- The event's fields by name: `HashMap<String, Value>`.
pub decode_seq_field : (String → Option Value) → String → Result AzeroContractError (List ℕ)
unfolding decode_seq
decode_seq_field fields field = decode_seq field (fields field)

pub decode_uint : String → Option Value → Result AzeroContractError ℕ
decode_uint field (some (uint x)) = ok x
decode_uint field _ = err (missing_or_incorrect_format field)

pub decode_uint_field : (String → Option Value) → String → Result AzeroContractError ℕ
unfolding decode_uint
decode_uint_field fields field = decode_uint field (fields field)

pub get_request_event_data :
    (String → Option Value) → Result AzeroContractError CrosschainTransferRequestData
unfolding decode_seq_field decode_uint_field
get_request_event_data fields = do
  committee_id ← decode_uint_field fields "committee_id"
  dest_token_address ← decode_seq_field fields "dest_token_address"
  amount ← decode_uint_field fields "amount"
  dest_receiver_address ← decode_seq_field fields "dest_receiver_address"
  request_nonce ← decode_uint_field fields "request_nonce"
  ok (record {
    committee_id = committee_id;
    dest_token_address = dest_token_address;
    amount = amount;
    dest_receiver_address = dest_receiver_address;
    request_nonce = request_nonce;
  })

-- The first component of a tuple as a `bool`. `none` is the panic on a tuple without components.
unfoldable pub decode_bool_from_tuple : Value → Option (Result AzeroContractError Bool)
decode_bool_from_tuple (tuple ident no_values) = none
decode_bool_from_tuple (tuple ident (cons_value (bool x) others)) = some (ok x)
decode_bool_from_tuple (tuple ident (cons_value _ others)) = some (err not_decoded_as_bool)
decode_bool_from_tuple _ = some (err not_decoded_as_bool)
