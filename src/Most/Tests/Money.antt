-- ===== src/Most/Tests/Money.antt =====
-- The theorems on fees and rewards of the Most contract at concrete calls.
use most_aleph_zero_bridge.Most.Payouts.{payout_settles}
use most_aleph_zero_bridge.Common.{
  ◌⊎◌, ◌+◌, returns, ◌≤◌, insert, checked_sub, checked_add, checked_div, arith, false, after, ok,
  checked_mul, ℕ, ◌≡◌, refl,
}
use most_aleph_zero_bridge.Most.Setup.{insert_members}
use most_aleph_zero_bridge.Most.FeeBounds.{base_fee_bounds, IsPriced, fee_at}
use most_aleph_zero_bridge.Most.Bridge.{
  book_request, burn_from, payout_rewards, return_surplus, send_request,
}
use most_aleph_zero_bridge.Most.Query.{
  only_committee_member, get_paid_out_member_rewards, ensure_not_halted,
  get_collected_committee_rewards, get_outstanding_member_rewards,
}
use most_aleph_zero_bridge.Most.Fee.{get_base_fee}
use most_aleph_zero_bridge.Most.Tests.{
  get_collected_committee_rewards, ensure_not_halted, return_surplus, book_request, burn_from,
  send_request-Sent, Data, send_request, State, Sent, get_base_fee, counting, settings, running,
  env_of,
}

-- The first request finds the fee paid.
abbrev first_request : State ℕ
first_request = after (send_request counting 5 1000 77 (env_of 4 300) running) running

first_request_returns :
    send_request counting 5 1000 77 (env_of 4 300) running ≡ returns tt first_request
unfolding send_request burn_from book_request return_surplus get_base_fee ensure_not_halted
    checked_mul checked_div checked_add checked_sub get_collected_committee_rewards insert
first_request_returns = refl

send_request-Sent_example : Sent counting (env_of 4 300) running 5 1000 77 first_request
send_request-Sent_example =
    send_request-Sent counting (env_of 4 300) running 5 1000 77 first_request_returns

abbrev running_data : Data
running_data = record settings { is_halted = false; pocket_money_balance = 25 }

running-IsPriced : IsPriced running_data
running-IsPriced = record { low = omega arith; high = omega arith }

running_fee : get_base_fee counting (env_of 4 300) running ≡ ok 240
unfolding get_base_fee checked_mul checked_div
running_fee = refl

base_fee_bounds_example : (fee_at 5 10 ≤ 240) × (240 ≤ fee_at 50 10)
base_fee_bounds_example =
    base_fee_bounds counting (env_of 4 300) running running_data refl running-IsPriced running_fee

abbrev share : ℕ
share = 80

-- 240 collected for three members.
abbrev paid : State ℕ
paid = after (payout_rewards counting 0 11 (env_of 11 0) first_request) first_request

paid_returns : payout_rewards counting 0 11 (env_of 11 0) first_request ≡ returns tt paid
unfolding send_request burn_from book_request return_surplus get_base_fee ensure_not_halted
    checked_mul checked_div checked_add checked_sub get_collected_committee_rewards insert
    payout_rewards get_paid_out_member_rewards get_outstanding_member_rewards only_committee_member
    insert_members
paid_returns = refl

due_80 : get_outstanding_member_rewards {E = counting.PSP22Error} first_request.self 0 11 ≡ ok share
unfolding send_request burn_from book_request return_surplus get_base_fee ensure_not_halted
    checked_mul checked_div checked_add checked_sub get_collected_committee_rewards insert
    payout_rewards get_paid_out_member_rewards get_outstanding_member_rewards only_committee_member
    insert_members
due_80 = refl

payout_settles_example :
    (get_outstanding_member_rewards {E = counting.PSP22Error} paid.self 0 11 ≡ ok 0)
    × (get_paid_out_member_rewards paid.self 0 11
        ≡ get_paid_out_member_rewards first_request.self 0 11 + share)
    × (((share ≡ 0) × (paid ≡ first_request))
        ⊎ (counting.transfer 99 11 share first_request.world ≡ ok paid.world))
payout_settles_example =
    payout_settles counting 0 11 (env_of 11 0) first_request paid_returns share due_80
