-- ===== src/Most/Bridge.antt =====
-- The business logic of azero/contracts/most/lib.rs: requests out, votes in, rewards.
use most_aleph_zero_bridge.Common.{
  ℕ, number_key, pair_key, not, none, some, Result, ok, err, pure, fail, fail_if, ok_or, asks, gets,
  view, ◌>>=◌, ◌>>◌, contains, insert, remove, unwrap_or, checked_add, checked_sub, ltb, leb, ◌==◌,
  if◌then◌else◌,
}
use most_aleph_zero_bridge.Shared.{hash_request_data}
use most_aleph_zero_bridge.Most.Types.{
  Data, crosschain_transfer_request, request_processed, request_signed, signed_processed_request,
  request_already_signed, zero_transfer_amount, hash_does_not_match_data, invalid_threshold,
  unsupported_pair, ink_env_error, base_fee_too_low, arithmetic, zero_address, eth_zero_address,
}
use most_aleph_zero_bridge.Most.Chain.{Chain, Call, reads, calls, env_transfer, writes, emit_event}
use most_aleph_zero_bridge.Most.Query.{
  read_data, ensure_not_halted, only_committee_member, get_collected_committee_rewards,
  get_paid_out_member_rewards, get_outstanding_member_rewards,
}
use most_aleph_zero_bridge.Most.Fee.{get_base_fee}

module _ (chain : Chain) where
  open chain use {InkEnvError, debug, keccak256, psp22_transfer_from, psp22_mint, psp22_burn}

  -- `?` on a native transfer.
  abbrev pub or_env_error : Result InkEnvError (Unit {0}) → Call chain (Unit {0})
  or_env_error (ok _) = pure tt
  or_env_error (err why) = fail (ink_env_error (debug why))

  unfoldable pub mint_to : ℕ → ℕ → ℕ → Call chain (Unit {0})
  mint_to token to amount = do
    self ← asks (λ env. env.account_id)
    calls chain (psp22_mint self token to amount)

  unfoldable pub burn_from : ℕ → ℕ → ℕ → Call chain (Unit {0})
  burn_from token from amount = do
    self ← asks (λ env. env.account_id)
    calls chain (psp22_transfer_from self token from self amount)
    calls chain (psp22_burn self token amount)

  -- The part of `send_request` that returns what was paid above the fee.
  unfoldable pub return_surplus : ℕ → ℕ → ℕ → Call chain (Unit {0})
  return_surplus sender transferred_fee current_base_fee =
      elim (checked_sub transferred_fee current_base_fee) [
        | some surplus ↦
            if ltb 0 surplus then (env_transfer chain sender surplus >>= or_env_error) else pure tt
        | none ↦ pure tt
      ]

  -- The part of `send_request` that books the fee and takes the next nonce.
  unfoldable pub book_request : Data → ℕ → Call chain (Unit {0})
  book_request d current_base_fee = do
    collected ← gets (λ s. get_collected_committee_rewards s.self d.committee_id)
    base_fee_total ← ok_or (checked_add collected current_base_fee) arithmetic
    writes chain (λ m. record m {
      collected_committee_rewards =
          insert m.collected_committee_rewards d.committee_id base_fee_total;
    })
    next_nonce ← ok_or (checked_add d.request_nonce 1) arithmetic
    writes chain (λ m. record m { lazy_data = some (record d { request_nonce = next_nonce }) })

  unfoldable pub send_request : ℕ → ℕ → ℕ → Call chain (Unit {0})
  send_request src_token_address amount dest_receiver_address = do
    reads chain ensure_not_halted
    fail_if (dest_receiver_address == eth_zero_address) zero_address
    fail_if (amount == 0) zero_transfer_amount
    d ← reads chain read_data
    pair ← gets (λ s. s.self.supported_pairs src_token_address)
    dest_token_address ← ok_or pair unsupported_pair
    current_base_fee ← view (get_base_fee chain)
    transferred_fee ← asks (λ env. env.transferred_value)
    fail_if (ltb transferred_fee current_base_fee) base_fee_too_low
    sender ← asks (λ env. env.caller)
    burn_from src_token_address sender amount
    book_request d current_base_fee
    return_surplus sender transferred_fee current_base_fee
    emit_event chain (
        crosschain_transfer_request (record {
          committee_id = d.committee_id;
          dest_token_address = dest_token_address;
          amount = amount;
          dest_receiver_address = dest_receiver_address;
          request_nonce = d.request_nonce;
        }))

  -- The part of `receive_request` that sends pocket money. It returns the local copy of the data
  -- with the balance lowered; the message does not write that copy back.
  unfoldable pub send_pocket_money : Data → ℕ → Call chain Data
  send_pocket_money d dest_receiver_address =
      if leb d.pocket_money d.pocket_money_balance
      then (do
        -- the result of the transfer is ignored
        _ ← env_transfer chain dest_receiver_address d.pocket_money
        balance ← ok_or (checked_sub d.pocket_money_balance d.pocket_money) arithmetic
        pure (record d { pocket_money_balance = balance }))
      else pure d

  -- The branch of `receive_request` that is taken at the quorum.
  unfoldable pub execute_request : Data → ℕ → ℕ → ℕ → ℕ → Call chain (Unit {0})
  execute_request d request_hash dest_token_address amount dest_receiver_address = do
    mint_to dest_token_address dest_receiver_address amount
    _ ← send_pocket_money d dest_receiver_address
    writes chain (λ m. record m {
      processed_requests = insert m.processed_requests request_hash tt;
      pending_requests = remove m.pending_requests request_hash;
    })
    emit_event chain (request_processed request_hash dest_token_address)

  -- The part of `receive_request` that records a vote and acts on it.
  unfoldable pub sign_request : Data → ℕ → ℕ → ℕ → ℕ → ℕ → Call chain (Unit {0})
  sign_request d caller request_hash dest_token_address amount dest_receiver_address = do
    found ← gets (λ s. s.self.pending_requests request_hash)
    let request = unwrap_or found (record { signature_count = 0 })
    signature_count ← ok_or (checked_add request.signature_count 1) arithmetic
    writes chain (λ m. record m { signatures = insert m.signatures (request_hash, caller) tt })
    emit_event chain (request_signed request_hash caller)
    threshold ← gets (λ s. s.self.signature_thresholds d.committee_id)
    signature_threshold ← ok_or threshold invalid_threshold
    if leb signature_threshold signature_count
        then execute_request d request_hash dest_token_address amount dest_receiver_address
        else writes chain (λ m. record m {
          pending_requests =
              insert m.pending_requests request_hash (record { signature_count = signature_count });
        })

  unfoldable pub receive_request : ℕ → ℕ → ℕ → ℕ → ℕ → ℕ → Call chain (Unit {0})
  receive_request request_hash committee_id dest_token_address amount dest_receiver_address
        request_nonce =
      do
        reads chain ensure_not_halted
        caller ← asks (λ env. env.caller)
        reads chain (λ m. only_committee_member m committee_id caller)
        d ← reads chain read_data
        self ← gets (λ s. s.self)
        if contains self.processed_requests request_hash
            then emit_event chain (signed_processed_request request_hash caller)
            else if contains self.signatures (request_hash, caller)
            then emit_event chain (request_already_signed request_hash caller)
            else (do
              let hash =
                  hash_request_data keccak256 committee_id dest_token_address amount
                    dest_receiver_address request_nonce
              fail_if (not (request_hash == hash)) hash_does_not_match_data
              sign_request d caller request_hash dest_token_address amount dest_receiver_address)

  unfoldable pub payout_rewards : ℕ → ℕ → Call chain (Unit {0})
  payout_rewards committee_id member_id = do
    reads chain ensure_not_halted
    paid_out_rewards ← gets (λ s. get_paid_out_member_rewards s.self committee_id member_id)
    outstanding_rewards ← reads chain (λ m. get_outstanding_member_rewards m committee_id member_id)
    if ltb 0 outstanding_rewards
        then (do
          env_transfer chain member_id outstanding_rewards >>= or_env_error
          paid_out ← ok_or (checked_add paid_out_rewards outstanding_rewards) arithmetic
          writes chain (λ m. record m {
            paid_out_member_rewards =
                insert m.paid_out_member_rewards (member_id, committee_id) paid_out;
          }))
        else pure tt

  unfoldable pub fund_pocket_money : Call chain (Unit {0})
  fund_pocket_money = do
    funds ← asks (λ env. env.transferred_value)
    d ← reads chain read_data
    balance ← ok_or (checked_add d.pocket_money_balance funds) arithmetic
    writes chain (λ m. record m { lazy_data = some (record d { pocket_money_balance = balance }) })
