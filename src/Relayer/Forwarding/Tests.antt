-- ===== src/Relayer/Forwarding/Tests.antt =====
-- A concrete request from Aleph Zero, forwarded to Ethereum.
use Prim.Native.String.{compare}
use Prim.Native.Nat.{Ordering}
use most_aleph_zero_bridge.Relayer.Polling.{
  wait_for_eth_tx_finality, finished, Told, of_head, of_transaction, eth_head, found,
}
use most_aleph_zero_bridge.Common.{
  ℕ, zero, suc, ◌+◌, ◌*◌, ◌%◌, ◌≡◌, refl, String, Bool, true, false, none, some, List, [], ◌∷◌, ok,
  map, arith, if◌then◌else◌,
}
use most_aleph_zero_bridge.Shared.{concat}
use most_aleph_zero_bridge.EthContract.Encoding.{eth_request_hash, of_be_bytes}
use most_aleph_zero_bridge.Relayer.Decoding.{
  get_request_event_data, uint, seq, CrosschainTransferRequestData,
}
use most_aleph_zero_bridge.Relayer.Decoding.Fields.{get_request_event_data-Carries, uints}
use most_aleph_zero_bridge.Relayer.Forwarding.{
  wait_for_eth_tx_finality, confirm, forward, ContractEvent, EthLibrary, mined, vote_for,
  handle_event,
}
use most_aleph_zero_bridge.Relayer.Forwarding.Hashing.{word, vote_for-hash}
use most_aleph_zero_bridge.Relayer.Forwarding.Outcomes.{Handled, handle_event-Handled}

abbrev byte_hash : List ℕ → ℕ
byte_hash [] = 7
byte_hash (b ∷ bs) = (byte_hash bs * 31 + b) % 1_000_003

-- Every transaction is mined and does not revert.
abbrev mining : EthLibrary
mining = record {
  encode = λ tokens. concat (map word tokens);
  keccak256 = byte_hash;
  parses_address = true;
  send = λ call. mined (record { transaction_hash = 40; status = some 1 });
}

abbrev zeros : ℕ → List ℕ
zeros zero = []
zeros (suc n) = 0 ∷ zeros n

abbrev request : CrosschainTransferRequestData
request = record {
  committee_id = 0;
  dest_token_address = 255 ∷ zeros 31;
  amount = 1000;
  dest_receiver_address = 7 ∷ zeros 31;
  request_nonce = 3;
}

vote_for-hash_example :
    (vote_for mining 200000 request 8).request_hash
    ≡ eth_request_hash byte_hash 0
        (of_be_bytes request.dest_token_address)
        1000
        (of_be_bytes request.dest_receiver_address)
        3
vote_for-hash_example =
    vote_for-hash mining 200000 8 request (λ tokens h. refl)
      (record {
        committee_bound = omega arith;
        token_bytes = ground arith;
        amount_bound = omega arith;
        receiver_bytes = ground arith;
        nonce_bound = omega arith;
      })

abbrev is : String → String → Bool
is s t = elim (compare s t) [ Ordering.eq ↦ true | _ ↦ false ]

-- The event of the request, decoded by the transcoder.
abbrev event : ContractEvent
event = record {
  name = some "CrosschainTransferRequest";
  fields = λ field.
      if is field "committee_id"
      then some (uint 0)
      else if is field "dest_token_address"
      then some (seq (uints request.dest_token_address))
      else if is field "amount"
      then some (uint 1000)
      else if is field "dest_receiver_address"
      then some (seq (uints request.dest_receiver_address))
      else if is field "request_nonce"
      then some (uint 3)
      else none;
}

read_back : get_request_event_data event.fields ≡ ok request
read_back =
    get_request_event_data-Carries event.fields request
      (record { committee = refl; token = refl; amount = refl; receiver = refl; nonce = refl })
      (ground arith) (ground arith)

abbrev told : List Told
told = of_head (eth_head 12) ∷ of_transaction (found (some 12)) ∷ []

confirmed : handle_event mining 200000 event 8 told ≡ finished (ok tt)
unfolding handle_event forward confirm wait_for_eth_tx_finality
confirmed = rw read_back refl

handle_event-Handled_example : Handled mining 200000 event 8 told (ok tt)
handle_event-Handled_example = handle_event-Handled mining 200000 event 8 told confirmed
