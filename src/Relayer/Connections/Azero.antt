-- ===== src/Relayer/Connections/Azero.antt =====
-- relayer/relayer/src/connections/azero.rs: the account that votes on Aleph Zero, and its transactions.
use most_aleph_zero_bridge.Common.{ℕ, Option, List, Result, ok}
use most_aleph_zero_bridge.Common.Fallible.{map_err, ok_or, ◌>>=◌}
use most_aleph_zero_bridge.Signer.{
  Wallet, Command, Response, ClientError, io, azero_account_id, sign_azero,
}

-- What the client library offers of key pairs and transactions. Its errors have no content.
pub record TxLibrary (wallet : Wallet) : Type 1 where
  pub KeyPair : Type 0
  pub Call : Type 0
  pub Partial : Type 0
  pub Signed : Type 0
  pub Progress : Type 0
  pub BlockHash : Type 0
  pub TxHash : Type 0
  pub keypair_account : KeyPair → wallet.AccountId
  pub keypair_sign : KeyPair → List ℕ → wallet.MultiSignature
  pub create_partial_signed : Call → wallet.AccountId → Option Partial
  pub signer_payload : Partial → List ℕ
  pub sign_with : Partial → wallet.AccountId → wallet.MultiSignature → Signed
  pub submit_and_watch : Signed → Option Progress
  -- in a block, and finalized; each with success
  pub in_block_success : Progress → Option (BlockHash × TxHash)
  pub finalized_success : Progress → Option (BlockHash × TxHash)
  pub default_hash : BlockHash
  pub extrinsic_hash : Progress → TxHash

pub data TxStatus : Type 0 where
  in_block finalized submitted : TxStatus

module _ (wallet : Wallet) (library : TxLibrary wallet) where
  open wallet use {AccountId, MultiSignature}
  open library use {KeyPair, Call, Progress, BlockHash, TxHash}

  pub record AzeroSignerClient : Type 0 where
    pub client : Command wallet → Result (ClientError wallet) (Response wallet)
    pub client_account : AccountId

  pub data AzeroSigner : Type 0 where
    dev : KeyPair → AzeroSigner
    signer : AzeroSignerClient → AzeroSigner

  -- `Error` of this file; a join error is never made here.
  pub data AzeroError : Type 0 where
    join_error : AzeroError
    signer_error : ClientError wallet → AzeroError

  -- `anyhow::Error`, with an error of the signer's client in it or one of the client library.
  pub data AnyError : Type 0 where
    of_signer : ClientError wallet → AnyError
    of_library : AnyError

  -- A socket that is not opened is an error of the client.
  unfoldable pub new_client :
      Option (Command wallet → Result (ClientError wallet) (Response wallet))
      → Result AzeroError AzeroSignerClient
  new_client connected = do
    client ← ok_or connected (signer_error io)
    account ← map_err signer_error (azero_account_id wallet client)
    ok (record { client = client; client_account = account })

  unfoldable pub account_id : AzeroSigner → AccountId
  account_id (dev keypair) = library.keypair_account keypair
  account_id (signer s) = s.client_account

  unfoldable pub sign : AzeroSigner → List ℕ → Result AnyError MultiSignature
  sign (dev keypair) payload = ok (library.keypair_sign keypair payload)
  sign (signer s) payload = map_err of_signer (sign_azero wallet s.client payload)

  unfoldable pub with_signer :
      Option (Command wallet → Result (ClientError wallet) (Response wallet))
      → Result AzeroError AzeroSigner
  unfolding new_client
  with_signer connected = do client ← new_client connected; ok (signer client)

  unfoldable pub with_keypair : KeyPair → AzeroSigner
  with_keypair keypair = dev keypair

  -- The end of `send_tx_with_params`: how long it waits, and what it returns.
  unfoldable pub wait_for_status : TxStatus → Progress → Result AnyError (BlockHash × TxHash)
  wait_for_status in_block progress = ok_or (library.in_block_success progress) of_library
  wait_for_status finalized progress = ok_or (library.finalized_success progress) of_library
  wait_for_status submitted progress = ok (library.default_hash, library.extrinsic_hash progress)

  unfoldable pub send_tx : AzeroSigner → Call → TxStatus → Result AnyError (BlockHash × TxHash)
  unfolding account_id sign wait_for_status
  send_tx account call status = do
    partial ← ok_or (library.create_partial_signed call (account_id account)) of_library
    signature ← sign account (library.signer_payload partial)
    progress ←
        ok_or (library.submit_and_watch (library.sign_with partial (account_id account) signature))
          of_library
    wait_for_status status progress
