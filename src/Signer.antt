-- ===== src/Signer.antt =====
-- relayer/signer/src/main.rs and relayer/signer_client/src/lib.rs: the enclave that holds the keys, and
-- the client that asks it for signatures.
pub mod Exchange
pub mod Server
pub mod Tests
use most_aleph_zero_bridge.Common.{
  ℕ, Bool, true, false, Option, none, some, List, [], ◌∷◌, ◌==◌, ◌&&◌, Result, ok, err,
  if◌then◌else◌,
}

-- What the keys and the transaction type of the client libraries offer.
pub record Wallet : Type 1 where
  pub AccountId : Type 0
  pub MultiSignature : Type 0
  pub EthAddress : Type 0
  pub EthSignature : Type 0
  pub Tx : Type 0
  pub account_id : AccountId
  pub sign : List ℕ → MultiSignature
  pub address : EthAddress
  -- `none` is an error of the wallet
  pub sign_hash : ℕ → Option EthSignature
  pub sign_transaction : Tx → Option EthSignature
  pub chain_id : Tx → Option ℕ
  pub set_chain_id : ℕ → Tx → Tx
  pub same_tx : Tx → Tx → Bool
  -- a transaction after its serialization and back
  pub wire_tx : Tx → Tx

-- `ETH_MAINNET_CHAIN_ID`
abbrev pub eth_mainnet_chain_id : ℕ
eth_mainnet_chain_id = 1

-- `==` on byte strings.
pub same_bytes : List ℕ → List ℕ → Bool
same_bytes [] [] = true
same_bytes [] (y ∷ ys) = false
same_bytes (x ∷ xs) [] = false
same_bytes (x ∷ xs) (y ∷ ys) = (x == y) && same_bytes xs ys

module _ (wallet : Wallet) where
  open wallet use {AccountId, MultiSignature, EthAddress, EthSignature, Tx}

  pub data Command : Type 0 where
    ping : Command
    account_id_azero : Command
    sign_azero_payload : List ℕ → Command
    ask_eth_address : Command
    sign_hash_eth : ℕ → Command
    -- transaction, chain
    sign_tx_eth : Tx → ℕ → Command

  pub data Response : Type 0 where
    pong : Response
    account_id_answer : AccountId → Response
    signed_azero : List ℕ → MultiSignature → Response
    eth_address_answer : EthAddress → Response
    signed_eth_hash : ℕ → EthSignature → Response
    signed_eth_tx : Tx → EthSignature → ℕ → Response

  -- `Error`: the texts that say what was expected, and the content of errors of libraries, are left
  -- out.
  pub data ClientError : Type 0 where
    io serde closed : ClientError
    invalid_response : Response → ClientError

  -- One turn of `do_handle_client`; an error of the wallet ends the connection.
  pub answer : Command → Option Response
  answer ping = some pong
  answer account_id_azero = some (account_id_answer wallet.account_id)
  answer (sign_azero_payload payload) = some (signed_azero payload (wallet.sign payload))
  answer ask_eth_address = some (eth_address_answer wallet.address)
  answer (sign_hash_eth hash) = elim (wallet.sign_hash hash) [
    | some signature ↦ some (signed_eth_hash hash signature)
    | none ↦ none
  ]
  answer (sign_tx_eth tx chain) =
      let changed = wallet.set_chain_id chain tx in
      elim (wallet.sign_transaction changed) [
        | some signature ↦ some (signed_eth_tx changed signature chain)
        | none ↦ none
      ]

  -- The serialization does not keep the chain of a transaction.
  pub wire_command : Command → Command
  wire_command (sign_tx_eth tx chain) = sign_tx_eth (wallet.wire_tx tx) chain
  wire_command c = c

  pub wire_response : Response → Response
  wire_response (signed_eth_tx tx signature chain) =
      signed_eth_tx (wallet.wire_tx tx) signature chain
  wire_response r = r

  -- What the client receives for a command: from the signer, over the wire.
  pub served : Command → Result ClientError Response
  unfolding answer wire_command wire_response
  served c = elim (answer (wire_command c)) [ none ↦ err closed | some r ↦ ok (wire_response r) ]

  -- The answer, or the error of `send` or `recv` with `?`, and the match on what was received.
  abbrev pub receive :
      {A : Type 0}
      → Result ClientError Response
      → (Response → Result ClientError A)
      → Result ClientError A
  receive (err why) expect = err why
  receive (ok r) expect = expect r

  pub expect_account : Response → Result ClientError AccountId
  expect_account (account_id_answer a) = ok a
  expect_account r = err (invalid_response r)

  pub expect_address : Response → Result ClientError EthAddress
  expect_address (eth_address_answer a) = ok a
  expect_address r = err (invalid_response r)

  pub expect_azero : List ℕ → Response → Result ClientError MultiSignature
  unfolding same_bytes
  expect_azero payload (signed_azero return_payload signature) =
      if same_bytes return_payload payload
      then ok signature
      else err (invalid_response (signed_azero return_payload signature))
  expect_azero payload r = err (invalid_response r)

  pub expect_hash : ℕ → Response → Result ClientError EthSignature
  expect_hash hash (signed_eth_hash return_hash signature) =
      if return_hash == hash
      then ok signature
      else err (invalid_response (signed_eth_hash return_hash signature))
  expect_hash hash r = err (invalid_response r)

  -- `tx.chain_id().unwrap_or(ETH_MAINNET_CHAIN_ID)`
  abbrev pub chain_of : Tx → ℕ
  chain_of tx = elim (wallet.chain_id tx) [ some c ↦ c | none ↦ eth_mainnet_chain_id ]

  -- The transaction that came back, with its chain again if the one sent has any.
  pub returned : Tx → Tx → ℕ → Tx
  returned tx return_tx return_chain_id = elim (wallet.chain_id tx) [
    | some c ↦ wallet.set_chain_id return_chain_id return_tx
    | none ↦ return_tx
  ]

  pub expect_tx : Tx → Response → Result ClientError EthSignature
  unfolding returned
  expect_tx tx (signed_eth_tx return_tx signature return_chain_id) =
      if wallet.same_tx (returned tx return_tx return_chain_id) tx
      then ok signature
      else err (invalid_response (signed_eth_tx return_tx signature return_chain_id))
  expect_tx tx r = err (invalid_response r)

  -- The methods of `Client`, over what any peer answers to a command (`send`, then `recv`).
  module _ (peer : Command → Result ClientError Response) where
    pub azero_account_id : Result ClientError AccountId
    unfolding expect_account
    azero_account_id = receive (peer account_id_azero) expect_account

    pub sign_azero : List ℕ → Result ClientError MultiSignature
    unfolding expect_azero
    sign_azero payload = receive (peer (sign_azero_payload payload)) (expect_azero payload)

    pub eth_address : Result ClientError EthAddress
    unfolding expect_address
    eth_address = receive (peer ask_eth_address) expect_address

    pub sign_eth_hash : ℕ → Result ClientError EthSignature
    unfolding expect_hash
    sign_eth_hash hash = receive (peer (sign_hash_eth hash)) (expect_hash hash)

    pub sign_eth_tx : Tx → Result ClientError EthSignature
    unfolding expect_tx
    sign_eth_tx tx = receive (peer (sign_tx_eth tx (chain_of tx))) (expect_tx tx)
