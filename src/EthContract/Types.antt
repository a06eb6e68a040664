-- ===== src/EthContract/Types.antt =====
-- The storage, errors and events of eth/contracts/Most.sol, and what it calls and does not
-- implement.
use most_aleph_zero_bridge.Common.{ℕ, Bool, Option, List}

-- Tokens, wrapped ether, the inherited contracts and the hash. `none` is a call that fails or reverts
-- and leaves the world as it was. The first account is the one that calls.
pub record EthChain : Type 1 where
  pub World : Type 0
  pub keccak256 : List ℕ → ℕ
  -- `safeTransferFrom`: caller, token, from, to, amount
  pub safe_transfer_from : ℕ → ℕ → ℕ → ℕ → ℕ → World → Option World
  -- `safeTransfer`: caller, token, to, amount
  pub safe_transfer : ℕ → ℕ → ℕ → ℕ → World → Option World
  -- a low-level call of `transfer`: caller, token, receiver, amount. The answer is the flag that was
  -- returned, if anything was; `none` within is a value that cannot be decoded.
  pub call_transfer : ℕ → ℕ → ℕ → ℕ → World → Option (World × Option (Option Bool))
  pub has_code : ℕ → World → Bool
  -- `deposit` and `withdraw` of the wrapped ether: caller, contract, amount
  pub weth_deposit : ℕ → ℕ → ℕ → World → Option World
  pub weth_withdraw : ℕ → ℕ → ℕ → World → Option World
  -- ether with little gas: caller, receiver, amount
  pub send_ether : ℕ → ℕ → ℕ → World → Option World
  -- the owner and the pause, and the messages on them
  pub Access : Type 0
  pub is_owner : Access → ℕ → Bool
  pub is_paused : Access → Bool
  pub set_paused : Bool → Access → Option Access
  pub AccessCall : Type 0
  -- the caller and the message: the handover of the contract
  pub access_call : ℕ → AccessCall → Access → Option Access

pub record CrosschainTransferRequest : Type 0 where
  pub committee_id : ℕ
  pub dest_token_address : ℕ
  pub amount : ℕ
  pub dest_receiver_address : ℕ
  pub request_nonce : ℕ

pub data EthEvent : Type 0 where
  crosschain_transfer_request : CrosschainTransferRequest → EthEvent
  -- the request hash, and the signer
  request_signed processed_request_signed request_already_signed : ℕ → ℕ → EthEvent
  request_processed eth_transfer_failed token_transfer_failed committee_updated : ℕ → EthEvent

pub record Request : Type 0 where
  pub signature_count : ℕ
  pub signatures : ℕ → Bool

pub record EthMost (Access : Type 0) : Type 0 where
  pub request_nonce : ℕ
  pub committee_id : ℕ
  pub weth_address : ℕ
  pub supported_pairs : ℕ → ℕ
  pub pending_requests : ℕ → Request
  pub processed_requests : ℕ → Bool
  pub committee : ℕ → Bool
  pub committee_size : ℕ → ℕ
  pub signature_threshold : ℕ → ℕ
  pub access : Access

pub data EthError : Type 0 where
  not_in_committee zero_signature_threshold duplicate_committee_member : EthError
  not_enough_guardians unsupported_pair data_hash_mismatch zero_amount : EthError
  wrapping_eth unwrapping_eth eth_transfer : EthError
  -- the `require` of `receive`
  ether_refused : EthError
  -- an inherited check, checked arithmetic, a called contract, and a value that is not decoded
  access_refused overflow call_reverted not_decoded : EthError

pub record EthState (chain : EthChain) : Type 0 where
  pub self : EthMost (chain.Access)
  pub open self use *
  pub world : chain.World
  pub events : List EthEvent
