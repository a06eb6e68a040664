-- ===== src/Relayer/Forwarding.antt =====
-- `handle_event` of relayer/relayer/src/listeners/azero.rs: the vote on Ethereum for a request from
-- Aleph Zero, from the decoded event to the transaction's finality.
pub mod Hashing
pub mod Outcomes
mod Tests
use text.Mathlib.Text.{◌==◌}
use most_aleph_zero_bridge.Common.{
  ℕ, zero, String, Bool, true, false, Option, none, some, List, [], ◌∷◌, Result, ok, err,
  if◌then◌else◌,
}
use most_aleph_zero_bridge.Relayer.Decoding.{
  Value, CrosschainTransferRequestData, get_request_event_data,
}
use most_aleph_zero_bridge.Relayer.Errors.{
  AzeroListenerError, azero_contract, from_hex, eth_contract_tx, provider,
  tx_not_present_in_block_or_mempool, eth_contract_reverted,
}
use most_aleph_zero_bridge.Relayer.Polling.{
  Verdict, again, finished, panicked, Told, wait_for_eth_tx_finality,
}

-- `ContractEvent` of the client library: its name, if it has one, and its fields.
pub record ContractEvent : Type 0 where
  pub name : Option String
  pub fields : String → Option Value

-- `Token` of the ABI library, as far as it is used.
pub data AbiToken : Type 0 where
  uint_token : ℕ → AbiToken
  fixed_bytes_token : List ℕ → AbiToken

-- The call of `receiveRequest` that is sent.
pub record EthCall : Type 0 where
  pub request_hash : ℕ
  pub committee_id : ℕ
  pub dest_token_address : List ℕ
  pub amount : ℕ
  pub dest_receiver_address : List ℕ
  pub request_nonce : ℕ
  pub gas : ℕ
  pub nonce : ℕ

pub record Receipt : Type 0 where
  pub transaction_hash : ℕ
  pub status : Option ℕ

-- How `send` and the wait for the confirmations end.
pub data SendOutcome : Type 0 where
  send_error confirmation_error no_receipt : SendOutcome
  mined : Receipt → SendOutcome

-- What the Ethereum library offers.
pub record EthLibrary : Type 0 where
  pub encode : List AbiToken → List ℕ
  pub keccak256 : List ℕ → ℕ
  -- whether the configured address of the contract is one
  pub parses_address : Bool
  pub send : EthCall → SendOutcome

-- What is encoded of a request.
pub request_tokens : CrosschainTransferRequestData → List AbiToken
request_tokens r =
    uint_token r.committee_id
    ∷ fixed_bytes_token r.dest_token_address
    ∷ uint_token r.amount
    ∷ fixed_bytes_token r.dest_receiver_address
    ∷ uint_token r.request_nonce
    ∷ []

pub receipt_of : SendOutcome → Result AzeroListenerError Receipt
receipt_of send_error = err eth_contract_tx
receipt_of confirmation_error = err provider
receipt_of no_receipt = err tx_not_present_in_block_or_mempool
receipt_of (mined receipt) = ok receipt

-- `tx_status == Some(U64::from(0))`
pub is_reverted : Option ℕ → Bool
is_reverted (some zero) = true
is_reverted _ = false

module _ (library : EthLibrary) (eth_gas_limit : ℕ) where
  -- The hash and the call for a request, at the next nonce of the account.
  unfoldable pub vote_for : CrosschainTransferRequestData → ℕ → EthCall
  unfolding request_tokens
  vote_for r next_nonce = record {
    request_hash = library.keccak256 (library.encode (request_tokens r));
    committee_id = r.committee_id;
    dest_token_address = r.dest_token_address;
    amount = r.amount;
    dest_receiver_address = r.dest_receiver_address;
    request_nonce = r.request_nonce;
    gas = eth_gas_limit;
    nonce = next_nonce;
  }

  -- The part that waits for the transaction: what the node tells comes after the receipt.
  pub confirm : Receipt → List Told → Verdict (Result AzeroListenerError (Unit {0}))
  unfolding is_reverted
  confirm receipt told =
      if is_reverted receipt.status
      then finished (err eth_contract_reverted)
      else elim (wait_for_eth_tx_finality none told) [
        | again ↦ again
        | finished _ ↦ finished (ok tt)
        | panicked ↦ panicked
      ]

  -- The part after the event is decoded.
  pub forward :
      CrosschainTransferRequestData → ℕ → List Told → Verdict (Result AzeroListenerError (Unit {0}))
  unfolding vote_for receipt_of confirm
  forward r next_nonce told =
      if library.parses_address
      then elim (receipt_of (library.send (vote_for r next_nonce))) [
        | ok receipt ↦ confirm receipt told
        | err why ↦ finished (err why)
      ]
      else finished (err from_hex)

  -- `again` is a transaction that is not final yet.
  pub handle_event : ContractEvent → ℕ → List Told → Verdict (Result AzeroListenerError (Unit {0}))
  unfolding forward
  handle_event event next_nonce told = elim event.name [
    | none ↦ finished (ok tt)
    | some name ↦
        if name == "CrosschainTransferRequest"
        then elim (get_request_event_data event.fields) [
          | ok r ↦ forward r next_nonce told
          | err why ↦ finished (err (azero_contract why))
        ]
        else finished (ok tt)
  ]
