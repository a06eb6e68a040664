-- ===== src/Signer/Exchange.antt =====
-- What the exchange between relayer/signer_client/src/lib.rs and relayer/signer/src/main.rs
-- guarantees.
use most_aleph_zero_bridge.Signer.{
  receive, expect_azero, expect_hash, expect_tx, eth_mainnet_chain_id, Wallet, Command, Response,
  ClientError, answer, served, wire_command, wire_response, sign_azero_payload, signed_azero,
  sign_hash_eth, signed_eth_hash, azero_account_id, sign_azero, eth_address, sign_eth_hash,
  sign_eth_tx, same_bytes, chain_of, returned,
}
use most_aleph_zero_bridge.Common.{
  inr, inl, ℕ, ◌≡◌, true, none, some, List, [], ◌∷◌, ◌↔◌, Result, ok, err, arith, Option-cases,
}

same_bytes_iff : (xs ys : List ℕ) → (same_bytes xs ys ≡ true) ↔ (xs ≡ ys)
unfolding same_bytes
same_bytes_iff [] [] = ground arith
same_bytes_iff [] (y ∷ ys) = ground arith
same_bytes_iff (x ∷ xs) [] = ground arith
same_bytes_iff (x ∷ xs) (y ∷ ys) = ground (arith, same_bytes_iff xs ys)

-- What the client library documents of transactions: the serialization keeps all but the chain, and
-- `==` is reflexive.
pub record TxLaws (wallet : Wallet) : Type 0 where
  pub set_wire :
      (c : ℕ) (tx : wallet.Tx)
      → wallet.set_chain_id c (wallet.wire_tx tx) ≡ wallet.set_chain_id c tx
  pub set_own :
      (c : ℕ) (tx : wallet.Tx) → wallet.chain_id tx ≡ some c → wallet.set_chain_id c tx ≡ tx
  pub wire_none :
      (c : ℕ) (tx : wallet.Tx)
      → wallet.chain_id tx ≡ none
      → wallet.wire_tx (wallet.set_chain_id c tx) ≡ tx
  pub same_refl : (tx : wallet.Tx) → wallet.same_tx tx tx ≡ true

module _ (wallet : Wallet) where
  receive-azero :
      (payload : List ℕ) (s : wallet.MultiSignature)
      (r : Result (ClientError wallet) (Response wallet))
      → (receive wallet r (expect_azero wallet payload) ≡ ok s) ↔ (r ≡ ok (signed_azero payload s))
  unfolding expect_azero
  receive-azero payload s (err why) = ground arith
  receive-azero payload s (ok (signed_azero p t)) = ground (arith, same_bytes_iff p payload)
  receive-azero payload s (ok _) = ground arith

  receive-hash :
      (hash : ℕ) (e : wallet.EthSignature) (r : Result (ClientError wallet) (Response wallet))
      → (receive wallet r (expect_hash wallet hash) ≡ ok e) ↔ (r ≡ ok (signed_eth_hash hash e))
  unfolding expect_hash
  receive-hash hash e (err why) = ground arith
  receive-hash hash e (ok (signed_eth_hash h t)) = ground arith
  receive-hash hash e (ok _) = ground arith

  -- Whatever the peer is: the client returns a signature of a payload or a hash exactly if the peer
  -- answered with this signature for this very payload or hash.
  pub signatures_match :
      (peer : Command wallet → Result (ClientError wallet) (Response wallet)) (payload : List ℕ)
      (hash : ℕ) (s : wallet.MultiSignature) (e : wallet.EthSignature)
      → ((sign_azero wallet peer payload ≡ ok s)
          ↔ (peer (sign_azero_payload payload) ≡ ok (signed_azero payload s)))
        × ((sign_eth_hash wallet peer hash ≡ ok e)
            ↔ (peer (sign_hash_eth hash) ≡ ok (signed_eth_hash hash e)))
  unfolding sign_azero sign_eth_hash
  signatures_match peer payload hash s e = (
    receive-azero payload s (peer (sign_azero_payload payload)),
    receive-hash hash e (peer (sign_hash_eth hash)),
  )

  pub address-served : eth_address wallet (served wallet) ≡ ok wallet.address
  unfolding eth_address served answer wire_command wire_response
  address-served = ground arith

  pub account-served : azero_account_id wallet (served wallet) ≡ ok wallet.account_id
  unfolding azero_account_id served answer wire_command wire_response
  account-served = ground arith

  pub sign_azero-served :
      (payload : List ℕ) → sign_azero wallet (served wallet) payload ≡ ok (wallet.sign payload)
  unfolding sign_azero served answer wire_command wire_response
  sign_azero-served payload = ground (arith, same_bytes_iff payload payload)

  -- A hash is signed exactly if the wallet signs it.
  pub sign_eth_hash-served :
      (hash : ℕ) (e : wallet.EthSignature)
      → (sign_eth_hash wallet (served wallet) hash ≡ ok e) ↔ (wallet.sign_hash hash ≡ some e)
  unfolding sign_eth_hash served answer wire_command wire_response
  sign_eth_hash-served hash e =
      ground (arith, receive-hash hash e (served wallet (sign_hash_eth hash)))

  -- From the signer the client gets its account and address and the wallet's signature of every
  -- payload, and of every hash that the wallet signs.
  pub signer_answers :
      (payload : List ℕ) (hash : ℕ) (e : wallet.EthSignature)
      → wallet.sign_hash hash ≡ some e
      → (azero_account_id wallet (served wallet) ≡ ok wallet.account_id)
        × (eth_address wallet (served wallet) ≡ ok wallet.address)
        × (sign_azero wallet (served wallet) payload ≡ ok (wallet.sign payload))
        × (sign_eth_hash wallet (served wallet) hash ≡ ok e)
  signer_answers payload hash e signs = (
    account-served,
    address-served,
    sign_azero-served payload,
    (sign_eth_hash-served hash e).1 signs,
  )

  -- If the transactions obey their laws, the client gets the signature of exactly the transaction
  -- that it sent, on its own chain, or on Ethereum's main chain if it names none, although the
  -- serialization drops the chain on both ways.
  pub sign_eth_tx-served :
      (tx : wallet.Tx) (e : wallet.EthSignature)
      → TxLaws wallet
      → wallet.sign_transaction (wallet.set_chain_id (chain_of wallet tx) tx) ≡ some e
      → sign_eth_tx wallet (served wallet) tx ≡ ok e
  unfolding sign_eth_tx served answer wire_command wire_response returned expect_tx
  sign_eth_tx-served tx e laws signs = elim (Option-cases (wallet.chain_id tx)) [
    | inl missing ↦ ground (
      arith,
      laws.set_wire eth_mainnet_chain_id tx,
      laws.wire_none eth_mainnet_chain_id tx missing,
      laws.same_refl tx,
    )
    | inr (c, own) ↦ ground (
      arith,
      laws.set_wire c tx,
      laws.set_wire c (wallet.set_chain_id c tx),
      laws.set_own c tx own,
      laws.same_refl tx,
    )
  ]
