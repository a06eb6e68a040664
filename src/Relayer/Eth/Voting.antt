-- ===== src/Relayer/Eth/Voting.antt =====
-- The votes of relayer/relayer/src/listeners/eth.rs: their hash is the one that the contract expects.
use most_aleph_zero_bridge.Common.{◌↔◌, ℕ, ◌<◌, ◌≡◌, List, [], ◌∷◌, arith, u128_size}
use most_aleph_zero_bridge.Shared.{hash_request_data, request_bytes, to_le_bytes}
use most_aleph_zero_bridge.Shared.Encoding.{concat_u8_arrays-concat}
use most_aleph_zero_bridge.Relayer.Eth.{crosschain_transfer_request, Vote, votes, handle_event}

-- The relayer votes for a request exactly if its numbers fit 128 bits, with the request's own data,
-- and the hash is the one that `receive_request` of the contract computes from these arguments.
pub handle_event-hash :
    (keccak256 : List ℕ → ℕ) (committee_id token amount receiver nonce : ℕ) (v : Vote)
    → (handle_event keccak256 (crosschain_transfer_request committee_id token amount receiver nonce)
        ≡ votes v)
      ↔ ((committee_id < u128_size)
          × (amount < u128_size)
          × (nonce < u128_size)
          × (v ≡ record {
            request_hash = hash_request_data keccak256 committee_id token amount receiver nonce;
            committee_id = committee_id;
            dest_token_address = token;
            amount = amount;
            dest_receiver_address = receiver;
            request_nonce = nonce;
          }))
unfolding handle_event hash_request_data request_bytes
handle_event-hash keccak256 committee_id token amount receiver nonce v =
    rw
      (concat_u8_arrays-concat (
        to_le_bytes 16 committee_id
        ∷ to_le_bytes 32 token
        ∷ to_le_bytes 16 amount
        ∷ to_le_bytes 32 receiver
        ∷ to_le_bytes 16 nonce
        ∷ []))
      (ground arith)
