-- ===== src/Relayer/Connections/Eth.antt =====
-- relayer/relayer/src/connections/eth.rs: `EthereumSigner`, and the connection that signs with it.
use most_aleph_zero_bridge.Common.{
  ℕ, String, Bool, Option, none, some, List, Result, ok, err, if◌then◌else◌,
}
use most_aleph_zero_bridge.Common.Fallible.{map_err, ok_or, ◌>>=◌, ◌>>◌}
use most_aleph_zero_bridge.Signer.{
  Wallet, Command, Response, ClientError, io, eth_address, sign_eth_hash, sign_eth_tx,
}

-- What the Ethereum library offers of local wallets, messages and typed data.
pub record EthersLibrary (wallet : Wallet) : Type 1 where
  pub LocalWallet : Type 0
  pub Payload : Type 0
  pub hash_message : List ℕ → ℕ
  pub encode_eip712 : Payload → Result String ℕ
  -- `none` is an error of the wallet
  pub local_sign_message : LocalWallet → List ℕ → Option wallet.EthSignature
  pub local_sign_transaction : LocalWallet → wallet.Tx → Option wallet.EthSignature
  pub local_sign_typed_data : LocalWallet → Payload → Option wallet.EthSignature
  pub local_address : LocalWallet → wallet.EthAddress
  pub local_chain_id : LocalWallet → ℕ
  pub local_with_chain_id : ℕ → LocalWallet → LocalWallet

module _ (wallet : Wallet) (library : EthersLibrary wallet) where
  open wallet use {EthAddress, EthSignature, Tx}
  open library use {LocalWallet, Payload}

  pub data EthVsockSignerError : Type 0 where
    join_signer : EthVsockSignerError
    signer_client : ClientError wallet → EthVsockSignerError
    eip712 : String → EthVsockSignerError

  pub data EthereumSignerError : Type 0 where
    local_wallet_error : EthereumSignerError
    vsock_error : EthVsockSignerError → EthereumSignerError

  -- The client is what its peer answers to a command.
  pub record EthVsockSigner : Type 0 where
    pub client : Command wallet → Result (ClientError wallet) (Response wallet)
    pub vsock_chain_id : ℕ
    pub vsock_address : EthAddress

  pub data EthereumSigner : Type 0 where
    local : LocalWallet → EthereumSigner
    vsock : EthVsockSigner → EthereumSigner

  unfoldable pub sign_hash : EthVsockSigner → ℕ → Result EthVsockSignerError EthSignature
  sign_hash signer hash = map_err signer_client (sign_eth_hash wallet signer.client hash)

  unfoldable pub vsock_sign_message :
      EthVsockSigner → List ℕ → Result EthVsockSignerError EthSignature
  unfolding sign_hash
  vsock_sign_message signer message = sign_hash signer (library.hash_message message)

  unfoldable pub vsock_sign_transaction :
      EthVsockSigner → Tx → Result EthVsockSignerError EthSignature
  vsock_sign_transaction signer tx = map_err signer_client (sign_eth_tx wallet signer.client tx)

  unfoldable pub vsock_sign_typed_data :
      EthVsockSigner → Payload → Result EthVsockSignerError EthSignature
  unfolding sign_hash
  vsock_sign_typed_data signer payload = do
    encoded ← map_err eip712 (library.encode_eip712 payload)
    sign_hash signer encoded

  unfoldable pub sign_message : EthereumSigner → List ℕ → Result EthereumSignerError EthSignature
  unfolding vsock_sign_message
  sign_message (local w) message = ok_or (library.local_sign_message w message) local_wallet_error
  sign_message (vsock s) message = map_err vsock_error (vsock_sign_message s message)

  unfoldable pub sign_transaction : EthereumSigner → Tx → Result EthereumSignerError EthSignature
  unfolding vsock_sign_transaction
  sign_transaction (local w) tx = ok_or (library.local_sign_transaction w tx) local_wallet_error
  sign_transaction (vsock s) tx = map_err vsock_error (vsock_sign_transaction s tx)

  unfoldable pub sign_typed_data :
      EthereumSigner → Payload → Result EthereumSignerError EthSignature
  unfolding vsock_sign_typed_data
  sign_typed_data (local w) payload =
      ok_or (library.local_sign_typed_data w payload) local_wallet_error
  sign_typed_data (vsock s) payload = map_err vsock_error (vsock_sign_typed_data s payload)

  unfoldable pub address : EthereumSigner → EthAddress
  address (local w) = library.local_address w
  address (vsock s) = s.vsock_address

  unfoldable pub chain_id : EthereumSigner → ℕ
  chain_id (local w) = library.local_chain_id w
  chain_id (vsock s) = s.vsock_chain_id

  unfoldable pub with_chain_id : ℕ → EthereumSigner → EthereumSigner
  with_chain_id chain (local w) = local (library.local_with_chain_id chain w)
  with_chain_id chain (vsock s) = vsock (record s { vsock_chain_id = chain })

  pub data EthConnectionError : Type 0 where
    signer_middleware nonce_manager join_connection : EthConnectionError
    client_error : ClientError wallet → EthConnectionError

  -- What the provider answers: whether the nonce of the account could be read, and the chain.
  pub record Provider : Type 0 where
    pub initializes_nonce : EthAddress → Bool
    pub chain : Option ℕ

  unfoldable pub with_nonce_manager : Provider → EthAddress → Result EthConnectionError (Unit {0})
  with_nonce_manager provider account =
      if provider.initializes_nonce account then ok tt else err nonce_manager

  -- `SignerMiddleware::new_with_provider_chain` gives the signer the provider's chain.
  abbrev pub with_provider_chain :
      Provider → EthereumSigner → Result EthConnectionError EthereumSigner
  with_provider_chain provider signer = elim provider.chain [
    | none ↦ err signer_middleware
    | some chain ↦ ok (with_chain_id chain signer)
  ]

  unfoldable pub with_local_wallet :
      Provider → LocalWallet → Result EthConnectionError EthereumSigner
  unfolding with_nonce_manager with_chain_id
  with_local_wallet provider w = do
    with_nonce_manager provider (library.local_address w)
    with_provider_chain provider (local w)

  -- `none` is a signer whose socket cannot be opened, an error of the client. Join errors are never
  -- made in this file.
  unfoldable pub with_signer :
      Provider
      → Option (Command wallet → Result (ClientError wallet) (Response wallet))
      → Result EthConnectionError EthereumSigner
  unfolding with_nonce_manager with_chain_id
  with_signer provider connected = do
    client ← ok_or connected (client_error io)
    account ← map_err client_error (eth_address wallet client)
    with_nonce_manager provider account
    with_provider_chain provider
        (vsock (record { client = client; vsock_chain_id = 0; vsock_address = account }))
