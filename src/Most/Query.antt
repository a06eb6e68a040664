-- ===== src/Most/Query.antt =====
-- The messages and helpers of azero/contracts/most/lib.rs that only read the storage.
use most_aleph_zero_bridge.Common.{
  ℕ, ◌%◌, Bool, none, some, Result, ok, err, contains, unwrap_or, u32_size, checked_div,
  saturating_sub, if◌then◌else◌,
}
use most_aleph_zero_bridge.Common.Fallible.{◌>>=◌, ◌>>◌, ok_or}
use most_aleph_zero_bridge.Ownable
use most_aleph_zero_bridge.Ownable.{Ownable2StepData, Ownable2StepError, Ownable2StepResult}
use most_aleph_zero_bridge.Most.Types.{
  Most, Data, RequestStatus, pending, processed, request_hash_not_known, MostError,
  corrupted_storage, halt_required, is_halted_error, not_in_committee, no_such_committee,
  arithmetic,
}

module _ {E : Type 0} where
  -- `self.data()`
  unfoldable pub read_data : Most → Result (MostError E) Data
  read_data m = ok_or m.lazy_data corrupted_storage

  unfoldable pub is_halted : Most → Result (MostError E) Bool
  unfolding read_data
  is_halted m = do d ← read_data m; ok d.is_halted

  unfoldable pub ensure_halted : Most → Result (MostError E) (Unit {0})
  unfolding is_halted
  ensure_halted m = do halted ← is_halted m; if halted then ok tt else err halt_required

  unfoldable pub ensure_not_halted : Most → Result (MostError E) (Unit {0})
  unfolding is_halted
  ensure_not_halted m = do halted ← is_halted m; if halted then err is_halted_error else ok tt

  unfoldable pub get_request_nonce : Most → Result (MostError E) ℕ
  unfolding read_data
  get_request_nonce m = do d ← read_data m; ok d.request_nonce

  unfoldable pub get_pocket_money : Most → Result (MostError E) ℕ
  unfolding read_data
  get_pocket_money m = do d ← read_data m; ok d.pocket_money

  unfoldable pub get_pocket_money_balance : Most → Result (MostError E) ℕ
  unfolding read_data
  get_pocket_money_balance m = do d ← read_data m; ok d.pocket_money_balance

  unfoldable pub get_current_committee_id : Most → Result (MostError E) ℕ
  unfolding read_data
  get_current_committee_id m = do d ← read_data m; ok d.committee_id

unfoldable pub is_in_committee : Most → ℕ → ℕ → Bool
is_in_committee m committee_id account = contains m.committees (committee_id, account)

unfoldable pub get_collected_committee_rewards : Most → ℕ → ℕ
get_collected_committee_rewards m committee_id =
    unwrap_or (m.collected_committee_rewards committee_id) 0

unfoldable pub get_paid_out_member_rewards : Most → ℕ → ℕ → ℕ
get_paid_out_member_rewards m committee_id member_id =
    unwrap_or (m.paid_out_member_rewards (member_id, committee_id)) 0

module _ {E : Type 0} where
  unfoldable pub only_committee_member : Most → ℕ → ℕ → Result (MostError E) (Unit {0})
  unfolding is_in_committee
  only_committee_member m committee_id account =
      if is_in_committee m committee_id account then ok tt else err not_in_committee

  unfoldable pub get_outstanding_member_rewards : Most → ℕ → ℕ → Result (MostError E) ℕ
  unfolding only_committee_member get_collected_committee_rewards get_paid_out_member_rewards
  get_outstanding_member_rewards m committee_id member_id = do
    only_committee_member m committee_id member_id
    size ← ok_or (m.committee_sizes committee_id) no_such_committee
    total_amount ←
        ok_or (checked_div (get_collected_committee_rewards m committee_id) size) arithmetic
    ok (saturating_sub total_amount (get_paid_out_member_rewards m committee_id member_id))

-- `signature_count as u32` drops the high bits.
unfoldable pub request_status : Most → ℕ → RequestStatus
request_status m hashed_request =
    if contains m.processed_requests hashed_request
    then processed
    else elim (m.pending_requests hashed_request) [
      | some r ↦ pending (r.signature_count % u32_size)
      | none ↦ request_hash_not_known
    ]

-- `self.ownable_data()`
unfoldable pub read_ownable_data : Most → Ownable2StepResult Ownable2StepData
read_ownable_data m = ok_or m.lazy_ownable_data (Ownable.custom "CorruptedStorage")

pub get_owner : Most → Ownable2StepResult ℕ
unfolding read_ownable_data Ownable.get_owner
get_owner m = do o ← read_ownable_data m; Ownable.get_owner o

pub get_pending_owner : Most → Ownable2StepResult ℕ
unfolding read_ownable_data Ownable.get_pending_owner
get_pending_owner m = do o ← read_ownable_data m; Ownable.get_pending_owner o

-- `Ownable2Step::ensure_owner` for a given caller.
unfoldable pub ensure_owner : Most → ℕ → Ownable2StepResult (Unit {0})
unfolding read_ownable_data Ownable.ensure_owner
ensure_owner m caller = do o ← read_ownable_data m; Ownable.ensure_owner o caller
