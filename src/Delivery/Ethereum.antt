-- ===== src/Delivery/Ethereum.antt =====
-- The way from Aleph Zero to Ethereum: a request's event, the votes of the relayers in
-- relayer/relayer/src/listeners/azero.rs, and the contract in eth/contracts/Most.sol.
mod Tests
use most_aleph_zero_bridge.Common.{ℕ, ◌≡◌, ◌<◌, ◌^◌, ◌⊎◌, Bool, List, [], ◌∷◌, arith}
use most_aleph_zero_bridge.EthContract.Types.{EthChain}
use most_aleph_zero_bridge.EthContract.Encoding.{eth_request_hash, of_be_bytes}
use most_aleph_zero_bridge.EthContract.Calls.{EthMostCall, receives, EthTransaction}
use most_aleph_zero_bridge.EthContract.Quorum.{Pays, IsMember, IsVote, Votes}
use most_aleph_zero_bridge.Relayer.Decoding.{CrosschainTransferRequestData}
use most_aleph_zero_bridge.Relayer.Forwarding.{EthLibrary, EthCall, vote_for}
use most_aleph_zero_bridge.Relayer.Forwarding.Hashing.{EncodesWords, IsRequest}

module _ (chain : EthChain) (library : EthLibrary) (r : CrosschainTransferRequestData)
    (threshold weth : ℕ) (members : ℕ → Bool) (same : library.keccak256 ≡ chain.keccak256)
    (words : EncodesWords library.encode) (fits : IsRequest r) (small : threshold < 2 ^ 256) where
  -- The hash that the contract computes from the request.
  abbrev pub request_hash : ℕ
  request_hash =
      eth_request_hash chain.keccak256 r.committee_id (of_be_bytes r.dest_token_address) r.amount
        (of_be_bytes r.dest_receiver_address) r.request_nonce

  -- The message that the contract receives for a vote.
  abbrev pub message_of : EthCall → EthMostCall chain
  message_of call =
      receives call.request_hash call.committee_id (of_be_bytes call.dest_token_address) call.amount
        (of_be_bytes call.dest_receiver_address) call.request_nonce

  abbrev IsVoteOf : ℕ → EthTransaction chain → Type 0
  IsVoteOf a tx =
      IsVote chain request_hash r.committee_id (of_be_bytes r.dest_token_address) r.amount
        (of_be_bytes r.dest_receiver_address) r.request_nonce threshold weth members a tx

  -- A transaction with the vote of the relayer with this account, at which the tokens can be
  -- returned.
  pub record IsRelayed (a : ℕ) (tx : EthTransaction chain) : Type 0 where
    pub by : tx.env.caller ≡ a
    pub gas_limit : ℕ
    pub account_nonce : ℕ
    pub relays : tx.call ≡ message_of (vote_for library gas_limit r account_nonce)
    pub pays :
        Pays chain request_hash r.committee_id
          (of_be_bytes r.dest_token_address)
          r.amount
          (of_be_bytes r.dest_receiver_address)
          r.request_nonce
          threshold
          weth
          members
          tx.env
          tx.world

  abbrev pub Relays : ℕ → List (EthTransaction chain) → Type 0
  Relays a [] = ⊥
  Relays a (tx ∷ txs) = IsRelayed a tx ⊎ Relays a txs
