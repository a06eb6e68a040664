-- ===== src/Most/Setting.antt =====
-- What the owner of azero/contracts/most/lib.rs sets for the votes, and the calls that leave it alone.
use most_aleph_zero_bridge.Common.{
  ℕ, ◌≡◌, inl, inr, Bool, true, false, Option, none, some, Mapping, number_key, pair_key, Env,
  Outcome-cases, after, arith,
}
use most_aleph_zero_bridge.Most.Types.{Data, State}
use most_aleph_zero_bridge.Most.Chain.{Chain}
use most_aleph_zero_bridge.Most.Query.{read_data}
use most_aleph_zero_bridge.Most.Bridge.{
  send_request, receive_request, sign_request, execute_request, mint_to, send_pocket_money,
  payout_rewards, fund_pocket_money,
}
use most_aleph_zero_bridge.Most.Admin.{
  only_owner, set_code, remove_pair, add_pair, set_gas_price_oracle, recover_psp22, recover_azero,
  transfer_ownership, accept_ownership,
}
use most_aleph_zero_bridge.Most.Calls.{
  MostCall, sends, receives, pays_out, funds, sets_code, removes_pair, adds_pair, sets_oracle,
  sets_committee, sets_halted, recovers_psp22, recovers_azero, transfers_ownership,
  accepts_ownership, run_call,
}
use most_aleph_zero_bridge.Most.Sending.{send_request-Sent}

-- The calls that neither replace the committee nor halt or resume the bridge.
abbrev pub leaves_committee : MostCall → Bool
leaves_committee (sets_committee committee threshold) = false
leaves_committee (sets_halted new_state) = false
leaves_committee _ = true

-- Whether the bridge is halted, and the current committee.
abbrev pub mode_of : Option Data → Option (Bool × ℕ)
mode_of none = none
mode_of (some d) = some (d.is_halted, d.committee_id)

-- What the owner sets for the votes.
pub record Setting : Type 0 where
  pub mode : Option (Bool × ℕ)
  pub committees : Mapping (ℕ × ℕ) (Unit {0})
  pub signature_thresholds : Mapping ℕ ℕ

abbrev pub setting : {W : Type 0} → State W → Setting
setting s = record {
  mode = mode_of s.lazy_data;
  committees = s.committees;
  signature_thresholds = s.signature_thresholds;
}

module _ (chain : Chain) (env : Env) (s : State (chain.World)) where
  send_request-setting :
      (src amount dest : ℕ)
      → setting (after (send_request chain src amount dest env s) s) ≡ setting s
  send_request-setting src amount dest =
      elim (Outcome-cases (send_request chain src amount dest env s)) [
        | inl (_, t, e) ↦ ground (arith, send_request-Sent chain env s src amount dest e)
        | inr e ↦ ground arith
      ]

  receive_request-setting :
      (h c k a r n : ℕ) → setting (after (receive_request chain h c k a r n env s) s) ≡ setting s
  unfolding receive_request sign_request execute_request mint_to send_pocket_money
  receive_request-setting h c k a r n = ground arith

  payout_rewards-setting :
      (c a : ℕ) → setting (after (payout_rewards chain c a env s) s) ≡ setting s
  unfolding payout_rewards
  payout_rewards-setting c a = ground arith

  -- Every other call keeps the setting.
  pub call-setting :
      (c : MostCall)
      → leaves_committee c ≡ true
      → setting (after (run_call chain c env s) s) ≡ setting s
  unfolding run_call fund_pocket_money set_code only_owner remove_pair add_pair set_gas_price_oracle
      recover_psp22 recover_azero transfer_ownership accept_ownership read_data
  call-setting (sends src amount dest) e = send_request-setting src amount dest
  call-setting (receives h c k a r n) e = receive_request-setting h c k a r n
  call-setting (pays_out c a) e = payout_rewards-setting c a
  call-setting (sets_committee c t) e = absurd (cc)
  call-setting (sets_halted b) e = absurd (cc)
  call-setting funds e = ground arith
  call-setting (sets_code a) e = ground arith
  call-setting (removes_pair a) e = ground arith
  call-setting (adds_pair a b) e = ground arith
  call-setting (sets_oracle a) e = ground arith
  call-setting (recovers_psp22 a b c) e = ground arith
  call-setting (recovers_azero a b) e = ground arith
  call-setting (transfers_ownership a) e = ground arith
  call-setting accepts_ownership e = ground arith
