-- ===== src/Most/Types.antt =====
-- The data of azero/contracts/most/lib.rs: storage, events, errors and statuses.
-- Accounts, `[u8; 32]` arrays and hashes are the numbers that their bytes spell, so the
-- conversions between them (`into`) are the identity. `MostError` is over the error type of the
-- PSP22 crate.
use most_aleph_zero_bridge.Common.{ℕ, String, Bool, Option, List, Mapping}
use most_aleph_zero_bridge.Ownable.{Ownable2StepData, Ownable2StepError}

-- GAS_ORACLE_MAX_AGE: one day, in milliseconds.
abbrev pub gas_oracle_max_age : ℕ
gas_oracle_max_age = 86_400_000

abbrev pub base_fee_buffer_percentage : ℕ
base_fee_buffer_percentage = 20

abbrev pub eth_zero_address : ℕ
eth_zero_address = 0

pub record CrosschainTransferRequest : Type 0 where
  pub committee_id : ℕ
  pub dest_token_address : ℕ
  pub amount : ℕ
  pub dest_receiver_address : ℕ
  pub request_nonce : ℕ

pub data Event : Type 0 where
  crosschain_transfer_request : CrosschainTransferRequest → Event
  -- the request hash, then the destination token or the signer
  request_processed request_signed signed_processed_request request_already_signed : ℕ → ℕ → Event
  -- previous state, new state, caller
  halted_state_changed : Bool → Bool → ℕ → Event
  -- the new owner
  transfer_ownership_initiated transfer_ownership_accepted : ℕ → Event

pub record Request : Type 0 where
  pub signature_count : ℕ

pub data RequestStatus : Type 0 where
  pending : ℕ → RequestStatus
  processed request_hash_not_known : RequestStatus

pub record Data : Type 0 where
  pub request_nonce : ℕ
  pub committee_id : ℕ
  pub pocket_money : ℕ
  pub pocket_money_balance : ℕ
  pub relay_gas_usage : ℕ
  pub min_gas_price : ℕ
  pub max_gas_price : ℕ
  pub default_gas_price : ℕ
  pub gas_price_oracle : Option ℕ
  pub is_halted : Bool

-- `lazy_data` and `lazy_ownable_data` are the fields `data` and `ownable_data`: a `Lazy` cell may
-- be empty.
pub record Most : Type 0 where
  pub lazy_data : Option Data
  pub lazy_ownable_data : Option Ownable2StepData
  pub pending_requests : Mapping ℕ Request
  pub signatures : Mapping (ℕ × ℕ) (Unit {0})
  pub processed_requests : Mapping ℕ (Unit {0})
  pub committees : Mapping (ℕ × ℕ) (Unit {0})
  pub committee_sizes : Mapping ℕ ℕ
  pub signature_thresholds : Mapping ℕ ℕ
  pub supported_pairs : Mapping ℕ ℕ
  pub collected_committee_rewards : Mapping ℕ ℕ
  pub paid_out_member_rewards : Mapping (ℕ × ℕ) ℕ

pub data MostError (PSP22Error : Type 0) : Type 0 where
  constructor invalid_threshold duplicate_committee_member zero_transfer_amount :
      MostError PSP22Error
  not_in_committee no_such_committee hash_does_not_match_data : MostError PSP22Error
  psp22 : PSP22Error → MostError PSP22Error
  ownable : Ownable2StepError → MostError PSP22Error
  unsupported_pair : MostError PSP22Error
  ink_env_error : String → MostError PSP22Error
  request_already_signed_error base_fee_too_low arithmetic corrupted_storage : MostError PSP22Error
  is_halted_error halt_required no_mint_permission zero_address : MostError PSP22Error

-- What a message runs on: the contract's storage, everything outside it, and the events emitted so
-- far, newest first.
pub record State (World : Type 0) : Type 0 where
  pub self : Most
  pub open self use *
  pub world : World
  pub events : List Event
