-- ===== src/Relayer/Connections/Tests.antt =====
-- Connections over a concrete signer.
use most_aleph_zero_bridge.Common.{
  ℕ, ◌+◌, ◌≡◌, ◌↔◌, refl, true, some, none, List, [], ◌∷◌, length, ok,
}
use most_aleph_zero_bridge.Signer.{served}
use most_aleph_zero_bridge.Signer.Exchange.{address-served, account-served}
use most_aleph_zero_bridge.Signer.Tests.{keys}
use most_aleph_zero_bridge.Relayer.Connections.Eth
use most_aleph_zero_bridge.Relayer.Connections.Eth.{
  EthersLibrary, EthereumSigner, Provider, vsock, address, chain_id, sign_message,
  with_nonce_manager, with_chain_id,
}
use most_aleph_zero_bridge.Relayer.Connections.Azero
use most_aleph_zero_bridge.Relayer.Connections.Azero.{
  TxLibrary, AzeroSigner, signer, finalized, send_tx, new_client,
}
use most_aleph_zero_bridge.Relayer.Connections.Signing.{sent_tx_iff, IsFinalized}

abbrev ethers : EthersLibrary keys
ethers = record {
  LocalWallet = ℕ;
  Payload = ℕ;
  hash_message = length;
  encode_eip712 = λ payload. ok payload;
  local_sign_message = λ w message. none;
  local_sign_transaction = λ w tx. none;
  local_sign_typed_data = λ w payload. none;
  local_address = λ w. w;
  local_chain_id = λ w. 0;
  local_with_chain_id = λ chain w. w;
}

abbrev provider : Provider keys ethers
provider = record { initializes_nonce = λ account. true; chain = some 1 }

abbrev connected : EthereumSigner keys ethers
connected = vsock (record { client = served keys; vsock_chain_id = 1; vsock_address = 6 })

connects : Eth.with_signer keys ethers provider (some (served keys)) ≡ ok connected
unfolding Eth.with_signer with_nonce_manager with_chain_id
connects = rw (address-served keys) refl

-- A call is a number, and a transaction is its signature.
abbrev chain : TxLibrary keys
chain = record {
  KeyPair = ℕ;
  Call = ℕ;
  Partial = ℕ;
  Signed = List ℕ;
  Progress = List ℕ;
  BlockHash = ℕ;
  TxHash = ℕ;
  keypair_account = λ k. k;
  keypair_sign = λ k payload. payload;
  create_partial_signed = λ call account. some (call + account);
  signer_payload = λ partial. partial ∷ [];
  sign_with = λ partial account signature. signature;
  submit_and_watch = λ tx. some tx;
  in_block_success = λ progress. none;
  finalized_success = λ progress. some (3, length progress);
  default_hash = 0;
  extrinsic_hash = length;
}

abbrev voter : AzeroSigner keys chain
voter = signer (record { client = served keys; client_account = 5 })

votes_over : Azero.with_signer keys chain (some (served keys)) ≡ ok voter
unfolding Azero.with_signer new_client
votes_over = rw (account-served keys) refl

sent_tx_iff_example :
    (send_tx keys chain voter 20 finalized ≡ ok (3, 2)) ↔ IsFinalized keys chain 20 (3, 2)
sent_tx_iff_example = sent_tx_iff keys chain 20 (3, 2) votes_over
