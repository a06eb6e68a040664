-- ===== src/Most/Setup.antt =====
-- The constructor of azero/contracts/most/lib.rs and the check of a committee.
use most_aleph_zero_bridge.Common.{
  ℕ, number_key, pair_key, ◌%◌, Bool, true, false, ◌||◌, Option, some, List, [], ◌∷◌, length,
  Result, ok, Mapping, empty_mapping, insert, u32_size, ltb, ◌==◌,
}
use most_aleph_zero_bridge.Common.Fallible.{◌>>◌, err_if}
use most_aleph_zero_bridge.Ownable
use most_aleph_zero_bridge.Most.Types.{
  Most, MostError, invalid_threshold, duplicate_committee_member,
}

-- The inner loop: does a later member equal this one?
unfoldable pub occurs : ℕ → List ℕ → Bool
occurs account [] = false
occurs account (other ∷ rest) = (account == other) || occurs account rest

-- The outer loop.
unfoldable pub has_duplicate : List ℕ → Bool
unfolding occurs
has_duplicate [] = false
has_duplicate (account ∷ rest) = occurs account rest || has_duplicate rest

-- On the contract's 32-bit target `threshold as usize` keeps the low 32 bits.
unfoldable pub check_committee : {E : Type 0} → List ℕ → ℕ → Result (MostError E) (Unit {0})
unfolding has_duplicate
check_committee committee threshold = do
  err_if ((threshold == 0) || ltb (length committee) (threshold % u32_size)) invalid_threshold
  err_if (has_duplicate committee) duplicate_committee_member

-- The loop that inserts the members of a committee.
unfoldable pub insert_members : ℕ → List ℕ → Mapping (ℕ × ℕ) (Unit {0}) → Mapping (ℕ × ℕ) (Unit {0})
insert_members committee_id [] m = m
insert_members committee_id (account ∷ rest) m =
    insert_members committee_id rest (insert m (committee_id, account) tt)

-- The storage that `new` builds once the committee has passed its check.
new_storage : List ℕ → ℕ → ℕ → ℕ → ℕ → ℕ → ℕ → Option ℕ → ℕ → Most
unfolding insert_members Ownable.new
new_storage committee signature_threshold pocket_money relay_gas_usage min_gas_price max_gas_price
      default_gas_price gas_price_oracle owner =
    record {
      lazy_data = some (record {
        request_nonce = 0;
        committee_id = 0;
        pocket_money = pocket_money;
        pocket_money_balance = 0;
        relay_gas_usage = relay_gas_usage;
        min_gas_price = min_gas_price;
        max_gas_price = max_gas_price;
        default_gas_price = default_gas_price;
        gas_price_oracle = gas_price_oracle;
        is_halted = true;
      });
      lazy_ownable_data = some (Ownable.new owner);
      pending_requests = empty_mapping;
      signatures = empty_mapping;
      processed_requests = empty_mapping;
      committees = insert_members 0 committee empty_mapping;
      committee_sizes = insert empty_mapping 0 (length committee);
      signature_thresholds = insert empty_mapping 0 signature_threshold;
      supported_pairs = empty_mapping;
      collected_committee_rewards = empty_mapping;
      paid_out_member_rewards = empty_mapping;
    }

unfoldable pub new :
    {E : Type 0} → List ℕ → ℕ → ℕ → ℕ → ℕ → ℕ → ℕ → Option ℕ → ℕ → Result (MostError E) Most
unfolding check_committee new_storage
new committee signature_threshold pocket_money relay_gas_usage min_gas_price max_gas_price
      default_gas_price gas_price_oracle owner =
    do
      check_committee committee signature_threshold
      ok (
          new_storage committee signature_threshold pocket_money relay_gas_usage min_gas_price
            max_gas_price default_gas_price gas_price_oracle owner)
