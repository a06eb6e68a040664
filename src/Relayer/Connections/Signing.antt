-- ===== src/Relayer/Connections/Signing.antt =====
-- The connections of relayer/relayer/src/connections with the signer of relayer/signer/src/main.rs at
-- the other end.
use most_aleph_zero_bridge.Common.{ℕ, ◌≡◌, ◌↔◌, some, List, ok, arith, Option-cases, inl, inr}
use most_aleph_zero_bridge.Signer.{Wallet, served}
use most_aleph_zero_bridge.Signer.Exchange.{
  address-served, account-served, sign_azero-served, sign_eth_hash-served,
}
use most_aleph_zero_bridge.Relayer.Connections.Eth
use most_aleph_zero_bridge.Relayer.Connections.Eth.{
  EthersLibrary, EthereumSigner, Provider, address, chain_id, sign_message, with_chain_id,
  with_nonce_manager, vsock_sign_message, sign_hash,
}
use most_aleph_zero_bridge.Relayer.Connections.Azero
use most_aleph_zero_bridge.Relayer.Connections.Azero.{
  TxLibrary, AzeroSigner, signer, finalized, account_id, sign, send_tx, new_client, wait_for_status,
}

module _ (wallet : Wallet) where
  -- A connection to Ethereum over the signer has the wallet's address and the provider's chain, and
  -- it signs a message exactly if the wallet signs the message's hash, with the wallet's signature.
  pub connected_signer_signs :
      (library : EthersLibrary wallet) (provider : Provider wallet library) (message : List ℕ)
      (e : wallet.EthSignature) {s : EthereumSigner wallet library}
      → Eth.with_signer wallet library provider (some (served wallet)) ≡ ok s
      → (address wallet library s ≡ wallet.address)
        × (provider.chain ≡ some (chain_id wallet library s))
        × ((sign_message wallet library s message ≡ ok e)
            ↔ (wallet.sign_hash (library.hash_message message) ≡ some e))
  unfolding Eth.with_signer with_nonce_manager with_chain_id address chain_id sign_message
      vsock_sign_message sign_hash
  connected_signer_signs library provider message e h =
      ground
        (arith, address-served wallet, sign_eth_hash-served wallet (library.hash_message message) e)

  -- The transaction for a call, signed by the signer's account with the wallet's signature of
  -- exactly its payload, was submitted and finalized with success.
  abbrev pub IsFinalized :
      (library : TxLibrary wallet) → library.Call → library.BlockHash × library.TxHash → Type 0
  IsFinalized library call info =
      (partial : library.Partial) × (progress : library.Progress) × (library.create_partial_signed
          call wallet.account_id
        ≡ some partial)
      × (library.submit_and_watch (
            library.sign_with partial wallet.account_id
              (wallet.sign (library.signer_payload partial)))
          ≡ some progress)
      × (library.finalized_success progress ≡ some info)

  sent_iff :
      (library : TxLibrary wallet) (call : library.Call) (info : library.BlockHash × library.TxHash)
      (account : AzeroSigner wallet library) (partial : library.Partial)
      → library.create_partial_signed call wallet.account_id ≡ some partial
      → account ≡ signer (record { client = served wallet; client_account = wallet.account_id })
      → (send_tx wallet library account call finalized ≡ ok info) ↔ IsFinalized library call info
  unfolding send_tx account_id sign wait_for_status
  sent_iff library call info account partial made e =
      let signed = sign_azero-served wallet (library.signer_payload partial) in
      elim (Option-cases (
        library.submit_and_watch (
          library.sign_with partial wallet.account_id
            (wallet.sign (library.signer_payload partial))))) [
              | inl lost ↦ (λ h. absurd (ground (arith, signed)), λ h. absurd (ground arith))
              | inr (progress, sent) ↦ (
                λ h. (partial, progress, made, sent, ground (arith, signed)),
                λ h. ground (arith, signed),
              )
            ]

  -- A connection to Aleph Zero over the signer returns from a call that is to be finalized exactly
  -- if the transaction for it, signed by the wallet's account with the wallet's signature of its
  -- payload, was submitted and finalized with success.
  pub sent_tx_iff :
      (library : TxLibrary wallet) (call : library.Call) (info : library.BlockHash × library.TxHash)
      {account : AzeroSigner wallet library}
      → Azero.with_signer wallet library (some (served wallet)) ≡ ok account
      → (send_tx wallet library account call finalized ≡ ok info) ↔ IsFinalized library call info
  unfolding Azero.with_signer new_client send_tx account_id sign wait_for_status
  sent_tx_iff library call info {account} h =
      let served_by = account-served wallet in
      elim (Option-cases (library.create_partial_signed call wallet.account_id)) [
        | inl none_made ↦ ground (arith, served_by)
        | inr (partial, made) ↦
            sent_iff library call info account partial made (ground (arith, served_by))
      ]
