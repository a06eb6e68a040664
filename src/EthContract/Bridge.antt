-- ===== src/EthContract/Bridge.antt =====
-- Requests and votes of eth/contracts/Most.sol.
use most_aleph_zero_bridge.Common.{
  ℕ, ◌+◌, ◌%◌, ◌^◌, Bool, true, false, not, ◌&&◌, Option, none, some, ◌∷◌, Message, pure, fail_if,
  asks, gets, ok_or, returns, reverts, ◌>>=◌, ◌>>◌, ltb, leb, ◌==◌, if◌then◌else◌,
}
use most_aleph_zero_bridge.EthContract.Encoding.{eth_request_hash, member_id}
use most_aleph_zero_bridge.EthContract.Types.{
  EthChain, EthState, EthMost, EthError, EthEvent, crosschain_transfer_request, request_signed,
  processed_request_signed, request_already_signed, request_processed, eth_transfer_failed,
  token_transfer_failed, not_in_committee, unsupported_pair, data_hash_mismatch, zero_amount,
  wrapping_eth, unwrapping_eth, access_refused, overflow, call_reverted, not_decoded, ether_refused,
}

-- A mapping with another value at a key.
abbrev pub set : {A : Type 0} → (ℕ → A) → ℕ → A → ℕ → A
set m k v q = if k == q then v else m q

-- `address(uint160(uint256(data)))`
abbrev pub bytes32_to_address : ℕ → ℕ
bytes32_to_address data_word = data_word % 2 ^ 160

-- `++x` on a `uint256` reverts at the largest number.
abbrev pub increment : ℕ → Option ℕ
increment n = if ltb (n + 1) (2 ^ 256) then some (n + 1) else none

abbrev pub has_signed_request : {Access : Type 0} → EthMost Access → ℕ → ℕ → Bool
has_signed_request m guardian hash = (m.pending_requests hash).signatures guardian

module _ (chain : EthChain) where
  abbrev pub EthCall : Type 0 → Type 0
  EthCall A = Message EthError (EthState chain) A

  abbrev pub writes : (EthMost (chain.Access) → EthMost (chain.Access)) → EthCall (Unit {0})
  writes f env s = returns tt (record s { self = f s.self })

  abbrev pub emits : EthEvent → EthCall (Unit {0})
  emits e env s = returns tt (record s { events = e ∷ s.events })

  -- A call of another contract whose failure reverts with this error.
  abbrev pub calls : (chain.World → Option (chain.World)) → EthError → EthCall (Unit {0})
  calls f why env s = elim (f s.world) [
    | some w ↦ returns tt (record s { world = w })
    | none ↦ reverts why
  ]

  -- A call of another contract that may fail: whether it did not.
  abbrev pub tries : (chain.World → Option (chain.World)) → EthCall Bool
  tries f env s = elim (f s.world) [
    | some w ↦ returns true (record s { world = w })
    | none ↦ returns false s
  ]

  unfoldable pub when_not_paused : EthCall (Unit {0})
  when_not_paused = do paused ← gets (λ s. chain.is_paused s.access); fail_if paused access_refused

  unfoldable pub is_in_committee : EthMost (chain.Access) → ℕ → ℕ → Bool
  is_in_committee m committee_id account =
      m.committee (member_id chain.keccak256 committee_id account)

  unfoldable pub only_committee_member : ℕ → EthCall (Unit {0})
  unfolding is_in_committee
  only_committee_member committee_id = do
    sender ← asks (λ env. env.caller)
    member ← gets (λ s. is_in_committee s.self committee_id sender)
    fail_if (not member) not_in_committee

  -- The end of both kinds of request: the event, and the next nonce.
  unfoldable pub announce : ℕ → ℕ → ℕ → EthCall (Unit {0})
  announce dest_token_address amount dest_receiver_address = do
    m ← gets (λ s. s.self)
    emits (
        crosschain_transfer_request (record {
          committee_id = m.committee_id;
          dest_token_address = dest_token_address;
          amount = amount;
          dest_receiver_address = dest_receiver_address;
          request_nonce = m.request_nonce;
        }))
    next_nonce ← ok_or (increment m.request_nonce) overflow
    writes (λ m. record m { request_nonce = next_nonce })

  unfoldable pub send_request : ℕ → ℕ → ℕ → EthCall (Unit {0})
  unfolding when_not_paused announce
  send_request src_token_address amount dest_receiver_address = do
    when_not_paused
    fail_if (amount == 0) zero_amount
    dest_token_address ← gets (λ s. s.supported_pairs src_token_address)
    fail_if (dest_token_address == 0) unsupported_pair
    sender ← asks (λ env. env.caller)
    self ← asks (λ env. env.account_id)
    calls (chain.safe_transfer_from self (bytes32_to_address src_token_address) sender self amount)
        call_reverted
    announce dest_token_address amount dest_receiver_address

  unfoldable pub send_request_native : ℕ → EthCall (Unit {0})
  unfolding when_not_paused announce
  send_request_native dest_receiver_address = do
    when_not_paused
    amount ← asks (λ env. env.transferred_value)
    fail_if (amount == 0) zero_amount
    m ← gets (λ s. s.self)
    let dest_token_address = m.supported_pairs m.weth_address
    fail_if (dest_token_address == 0) unsupported_pair
    self ← asks (λ env. env.account_id)
    calls (chain.weth_deposit self m.weth_address amount) wrapping_eth
    announce dest_token_address amount dest_receiver_address

  -- `tokenTransferReturnSuccess`. A returned value that is no flag reverts.
  unfoldable pub token_transfer_return_success : ℕ → ℕ → ℕ → EthCall Bool
  token_transfer_return_success token receiver amount env s =
      elim (chain.call_transfer env.account_id token receiver amount s.world) [
        | none ↦ returns false s
        | some (w, none) ↦ returns (chain.has_code token w) (record s { world = w })
        | some (w, some none) ↦ reverts not_decoded
        | some (w, some (some flag)) ↦
            returns (flag && chain.has_code token w) (record s { world = w })
      ]

  -- The part of `receiveRequest` that returns the locked tokens.
  unfoldable pub return_tokens : ℕ → ℕ → ℕ → ℕ → EthCall (Unit {0})
  unfolding token_transfer_return_success
  return_tokens request_hash token receiver amount = do
    weth ← gets (λ s. s.weth_address)
    self ← asks (λ env. env.account_id)
    if token == weth
        then (do
          calls (chain.weth_withdraw self weth amount) unwrapping_eth
          sent ← tries (chain.send_ether self receiver amount)
          if sent then pure tt else emits (eth_transfer_failed request_hash))
        else (do
          sent ← token_transfer_return_success token receiver amount
          if sent then pure tt else emits (token_transfer_failed request_hash))

  -- The branch of `receiveRequest` at the quorum. `delete` resets the count and keeps the mapping.
  unfoldable pub execute_request : ℕ → ℕ → ℕ → ℕ → EthCall (Unit {0})
  unfolding return_tokens
  execute_request request_hash dest_token_address amount dest_receiver_address = do
    writes (λ m. record m {
      processed_requests = set m.processed_requests request_hash true;
      pending_requests =
          set m.pending_requests request_hash
            (record (m.pending_requests request_hash) { signature_count = 0 });
    })
    return_tokens request_hash (bytes32_to_address dest_token_address)
        (bytes32_to_address dest_receiver_address) amount
    emits (request_processed request_hash)

  -- The part of `receiveRequest` that records a vote and acts on it.
  unfoldable pub sign_request : ℕ → ℕ → ℕ → ℕ → ℕ → ℕ → EthCall (Unit {0})
  unfolding execute_request
  sign_request sender request_hash committee_id dest_token_address amount dest_receiver_address = do
    request ← gets (λ s. s.pending_requests request_hash)
    signature_count ← ok_or (increment request.signature_count) overflow
    writes (λ m. record m {
      pending_requests = set m.pending_requests request_hash (record {
        signature_count = signature_count;
        signatures = set request.signatures sender true;
      });
    })
    emits (request_signed request_hash sender)
    threshold ← gets (λ s. s.signature_threshold committee_id)
    if leb threshold signature_count
        then execute_request request_hash dest_token_address amount dest_receiver_address
        else pure tt

  unfoldable pub receive_request : ℕ → ℕ → ℕ → ℕ → ℕ → ℕ → EthCall (Unit {0})
  unfolding when_not_paused only_committee_member sign_request
  receive_request given_hash committee_id dest_token_address amount dest_receiver_address
        request_nonce =
      do
        when_not_paused
        only_committee_member committee_id
        sender ← asks (λ env. env.caller)
        m ← gets (λ s. s.self)
        let request_hash =
            eth_request_hash chain.keccak256 committee_id dest_token_address amount
              dest_receiver_address request_nonce
        if m.processed_requests given_hash
            then emits (processed_request_signed given_hash sender)
            else if (m.pending_requests request_hash).signatures sender
            then emits (request_already_signed request_hash sender)
            else (do
              fail_if (not (given_hash == request_hash)) data_hash_mismatch
              sign_request sender request_hash committee_id dest_token_address amount
                  dest_receiver_address)

  -- `receive`, for ether that comes without a message.
  unfoldable pub receive_ether : EthCall (Unit {0})
  receive_ether = do
    sender ← asks (λ env. env.caller)
    weth ← gets (λ s. s.weth_address)
    fail_if (not (sender == weth)) ether_refused
