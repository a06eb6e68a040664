-- ===== src/Relayer/Instances.antt =====
-- relayer/relayer/src/contracts/azero.rs: the calls of the contracts on Aleph Zero, and the events.
pub mod Answers
mod Tests
use text.Mathlib.Text.{◌==◌}
use Prim.Native.String.{◌++◌}
use most_aleph_zero_bridge.Common.{
  ℕ, String, Bool, true, false, Option, none, some, List, [], ◌∷◌, Result, ok, err, if◌then◌else◌,
}
use most_aleph_zero_bridge.Common.Fallible.{map_err}
use most_aleph_zero_bridge.Relayer.Decoding.{
  Value, Values, tuple, no_values, cons_value, AzeroContractError, aleph_client, not_account_id,
  dry_run_failed, invalid_response, decode_bool_from_tuple,
}
use most_aleph_zero_bridge.Relayer.Eth.{Vote}
use most_aleph_zero_bridge.Relayer.Forwarding.{ContractEvent}

-- `AdvisoryInstance::is_emergency`, from what reading the contract answers.
pub is_emergency :
    {E Account : Type 0} → Account → Result E Bool → Result AzeroContractError (Bool × Account)
is_emergency address (ok flag) = ok (flag, address)
is_emergency address (err why) = err aleph_client

-- How far the read call of `is_halted` got.
pub data ReadAnswer : Type 0 where
  -- the message is not encoded, the call fails, or what it returned is not decoded
  encode_error call_error decode_error : ReadAnswer
  -- the call of the contract ended with an error
  call_failed : ReadAnswer
  returned : Value → ReadAnswer

-- The first of the parts, and `none` for the panic without any.
pub first_value : Values → Option Value
first_value no_values = none
first_value (cons_value v rest) = some v

-- The answer of the contract within the one of the call.
unfoldable pub answer_within : Option String → Values → Option (Result AzeroContractError Bool)
unfolding first_value decode_bool_from_tuple
answer_within none parts = some (err invalid_response)
answer_within (some ident) parts =
    if ident == "Ok"
    then elim (first_value parts) [ none ↦ none | some v ↦ decode_bool_from_tuple v ]
    else if ident == "Err"
    then some (err dry_run_failed)
    else some (err invalid_response)

-- `MostInstance::is_halted`; `none` is a panic.
unfoldable pub is_halted : ReadAnswer → Option (Result AzeroContractError Bool)
unfolding answer_within
is_halted encode_error = some (err aleph_client)
is_halted call_error = some (err aleph_client)
is_halted decode_error = some (err aleph_client)
is_halted call_failed = some (err dry_run_failed)
is_halted (returned (tuple ident parts)) = answer_within ident parts
is_halted (returned _) = some (err invalid_response)

-- `MostInstance::filter_events`, over the translated events.
unfoldable pub filter_events : {E : Type 0} → List (Result E ContractEvent) → List ContractEvent
filter_events [] = []
filter_events (ok event ∷ results) = event ∷ filter_events results
filter_events (err why ∷ results) = filter_events results

-- What the libraries offer for a call: texts of bytes and numbers, the encoded message, and the call
-- with its limits, which ends with the transaction or an error.
pub record CallLibrary : Type 1 where
  pub Encoded : Type 0
  pub TxInfo : Type 0
  pub Error : Type 0
  -- `hex::encode` on 32 bytes
  pub hex_encode : ℕ → String
  pub number_to_string : ℕ → String
  pub encode : String → List String → Result Error Encoded
  -- the contract, the value, the limits of time and proof size, and the message
  pub call : ℕ → ℕ → ℕ → ℕ → Encoded → Result Error TxInfo

-- `MostInstance`, without the parts of the library.
pub record MostInstance : Type 0 where
  pub address : ℕ
  pub ref_time_limit : ℕ
  pub proof_size_limit : ℕ

-- `MostInstance::new`, from the parsed address, whether the metadata is loaded, and the limits.
unfoldable pub new_most_instance : Option ℕ → Bool → ℕ → ℕ → Result AzeroContractError MostInstance
new_most_instance none loaded ref_time_limit proof_size_limit = err not_account_id
new_most_instance (some address) loaded ref_time_limit proof_size_limit =
    if loaded
    then ok (record {
      address = address;
      ref_time_limit = ref_time_limit;
      proof_size_limit = proof_size_limit;
    })
    else err aleph_client

-- `AdvisoryInstance::new`, the same without limits.
unfoldable pub new_advisory_instance : Option ℕ → Bool → Result AzeroContractError ℕ
new_advisory_instance none loaded = err not_account_id
new_advisory_instance (some address) loaded = if loaded then ok address else err aleph_client

module _ (library : CallLibrary) where
  open library use {TxInfo, hex_encode, number_to_string, encode, call}

  pub bytes32_to_str : ℕ → String
  bytes32_to_str bytes = "0x" ++ hex_encode bytes

  unfoldable pub receive_request_args : Vote → List String
  unfolding bytes32_to_str
  receive_request_args vote =
      bytes32_to_str vote.request_hash
      ∷ number_to_string vote.committee_id
      ∷ bytes32_to_str vote.dest_token_address
      ∷ number_to_string vote.amount
      ∷ bytes32_to_str vote.dest_receiver_address
      ∷ number_to_string vote.request_nonce
      ∷ []

  -- `MostInstance::receive_request`
  unfoldable pub receive_request : MostInstance → Vote → Result AzeroContractError TxInfo
  unfolding receive_request_args
  receive_request most vote = elim (encode "receive_request" (receive_request_args vote)) [
    | err why ↦ err aleph_client
    | ok message ↦
        map_err (λ _. aleph_client)
          (call most.address 0 most.ref_time_limit most.proof_size_limit message)
  ]
