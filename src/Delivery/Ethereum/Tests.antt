-- ===== src/Delivery/Ethereum/Tests.antt =====
-- A concrete request of Aleph Zero that two relayers carry to Ethereum.
use most_aleph_zero_bridge.Common.{ℕ, zero, suc, refl, true, List, [], ◌∷◌, arith, map}
use most_aleph_zero_bridge.Shared.{concat}
use most_aleph_zero_bridge.EthContract.Calls.{EthTransaction, sends}
use most_aleph_zero_bridge.EthContract.Tests.{counting, byte_hash, by, initialized}
use most_aleph_zero_bridge.Relayer.Decoding.{CrosschainTransferRequestData}
use most_aleph_zero_bridge.Relayer.Forwarding.{EthLibrary, no_receipt, vote_for}
use most_aleph_zero_bridge.Relayer.Forwarding.Hashing.{word, IsRequest}
use most_aleph_zero_bridge.Delivery.Ethereum

abbrev library : EthLibrary
library = record {
  encode = λ tokens. concat (map word tokens);
  keccak256 = byte_hash;
  parses_address = true;
  send = λ call. no_receipt;
}

abbrev after_zeros : ℕ → ℕ → List ℕ
after_zeros b zero = b ∷ []
after_zeros b (suc n) = 0 ∷ after_zeros b n

abbrev request : CrosschainTransferRequestData
request = record {
  committee_id = 0;
  dest_token_address = after_zeros 6 31;
  amount = 1000;
  dest_receiver_address = after_zeros 77 31;
  request_nonce = 3;
}

request-IsRequest : IsRequest request
request-IsRequest = record {
  committee_bound = omega arith;
  token_bytes = ground arith;
  amount_bound = omega arith;
  receiver_bytes = ground arith;
  nonce_bound = omega arith;
}

-- The vote of a relayer, with a gas limit and a nonce of its account.
abbrev relayed : ℕ → ℕ → EthTransaction counting
relayed relayer nonce = by relayer (
    Ethereum.message_of counting library request 2 90 initialized.committee refl (λ tokens h. refl)
      request-IsRequest (omega arith) (vote_for library 200000 request nonce))

abbrev history : List (EthTransaction counting)
history = by 4 (sends 5 1000 77) ∷ relayed 11 8 ∷ relayed 13 2 ∷ []
