-- ===== src/Relayer/Forwarding/Outcomes.antt =====
-- How `handle_event` of relayer/relayer/src/listeners/azero.rs ends.
use text.Mathlib.Text.{◌==◌}
use text.Mathlib.TextEquality.{eq_iff}
use most_aleph_zero_bridge.Common.{
  ℕ, ◌≡◌, ◌≢◌, inl, inr, true, false, none, some, List, Result, ok, err, arith, Bool-cases,
  Option-cases, Result-cases,
}
use most_aleph_zero_bridge.Relayer.Decoding.{
  CrosschainTransferRequestData, get_request_event_data, AzeroContractError,
}
use most_aleph_zero_bridge.Relayer.Errors.{
  AzeroListenerError, azero_contract, from_hex, eth_contract_reverted,
}
use most_aleph_zero_bridge.Relayer.Polling.{finished, Told, wait_for_eth_tx_finality}
use most_aleph_zero_bridge.Relayer.Forwarding.{
  ContractEvent, EthLibrary, Receipt, SendOutcome, mined, vote_for, forward, confirm, receipt_of,
  is_reverted, handle_event,
}

receipt_of-mined :
    (o : SendOutcome) {receipt : Receipt} → receipt_of o ≡ ok receipt → o ≡ mined receipt
unfolding receipt_of
receipt_of-mined o e = ground arith

module _ (library : EthLibrary) (eth_gas_limit : ℕ) (event : ContractEvent) (next_nonce : ℕ)
    (told : List Told) where
  -- The event is a request, and its vote was sent and mined.
  pub record IsMined (r : CrosschainTransferRequestData) (receipt : Receipt) : Type 0 where
    pub named : event.name ≡ some "CrosschainTransferRequest"
    pub decoded : get_request_event_data event.fields ≡ ok r
    pub address : library.parses_address ≡ true
    pub sent : library.send (vote_for library eth_gas_limit r next_nonce) ≡ mined receipt

  -- How `handle_event` has ended.
  pub data Handled (result : Result AzeroListenerError (Unit {0})) : Type 0 where
    ignored : event.name ≢ some "CrosschainTransferRequest" → result ≡ ok tt → Handled result
    undecoded :
        (why : AzeroContractError)
        → event.name ≡ some "CrosschainTransferRequest"
        → get_request_event_data event.fields ≡ err why
        → result ≡ err (azero_contract why)
        → Handled result
    no_address :
        event.name ≡ some "CrosschainTransferRequest"
        → library.parses_address ≡ false
        → result ≡ err from_hex
        → Handled result
    unsent :
        (r : CrosschainTransferRequestData) (why : AzeroListenerError)
        → event.name ≡ some "CrosschainTransferRequest"
        → get_request_event_data event.fields ≡ ok r
        → receipt_of (library.send (vote_for library eth_gas_limit r next_nonce)) ≡ err why
        → result ≡ err why
        → Handled result
    reverted :
        (r : CrosschainTransferRequestData) (receipt : Receipt)
        → IsMined r receipt
        → receipt.status ≡ some 0
        → result ≡ err eth_contract_reverted
        → Handled result
    confirmed :
        (r : CrosschainTransferRequestData) (receipt : Receipt)
        → IsMined r receipt
        → receipt.status ≢ some 0
        → wait_for_eth_tx_finality none told ≡ finished tt
        → result ≡ ok tt
        → Handled result

  confirm-Handled :
      (r : CrosschainTransferRequestData) (receipt : Receipt)
      {result : Result AzeroListenerError (Unit {0})}
      → IsMined r receipt
      → confirm library eth_gas_limit receipt told ≡ finished result
      → Handled result
  unfolding confirm is_reverted
  confirm-Handled r receipt m e = elim (Bool-cases (is_reverted receipt.status)) [
    | inl failed ↦ reverted r receipt m (ground arith) (ground arith)
    | inr passed ↦ confirmed r receipt m (λ failed. ground arith) (ground arith) (ground arith)
  ]

  forward-Handled :
      (r : CrosschainTransferRequestData) {result : Result AzeroListenerError (Unit {0})}
      → event.name ≡ some "CrosschainTransferRequest"
      → get_request_event_data event.fields ≡ ok r
      → forward library eth_gas_limit r next_nonce told ≡ finished result
      → Handled result
  unfolding forward
  forward-Handled r named decoded e = elim (Bool-cases library.parses_address) [
    | inr bad ↦ no_address named bad (ground arith)
    | inl address ↦
        elim (Result-cases
          (receipt_of (library.send (vote_for library eth_gas_limit r next_nonce)))) [
            | inr (why, failed) ↦ unsent r why named decoded failed (ground arith)
            | inl (receipt, sent) ↦
                confirm-Handled r receipt
                  (record {
                    named = named;
                    decoded = decoded;
                    address = address;
                    sent =
                        receipt_of-mined
                          (library.send (vote_for library eth_gas_limit r next_nonce)) sent;
                  })
                  (ground arith)
          ]
  ]

  -- If the handling of an event ends, it ends in one of these ways, each with its conditions: an
  -- event that is not a request is ignored; a request that cannot be decoded, a bad address of the
  -- contract and a vote that is not sent, confirmed and mined are errors; a transaction that was
  -- mined and reverted is `EthContractReverted`; and it is `Ok` after the transaction with the
  -- vote was mined without reverting and became final.
  pub handle_event-Handled :
      {result : Result AzeroListenerError (Unit {0})}
      → handle_event library eth_gas_limit event next_nonce told ≡ finished result
      → Handled result
  unfolding handle_event forward
  handle_event-Handled {result} e = elim (Option-cases event.name) [
    | inl unnamed ↦ ignored (λ named. ground arith) (ground arith)
    | inr (name, found) ↦ elim (Bool-cases (name == "CrosschainTransferRequest")) [
      | inr other ↦
          ignored (λ named. ground (arith, eq_iff name "CrosschainTransferRequest")) (ground arith)
      | inl same ↦
          let named : event.name ≡ some "CrosschainTransferRequest" =
            ground (arith, eq_iff name "CrosschainTransferRequest") in
          elim (Result-cases (get_request_event_data event.fields)) [
            | inr (why, failed) ↦ undecoded why named failed (ground arith)
            | inl (r, decoded) ↦ forward-Handled r named decoded (ground arith)
          ]
    ]
  ]
