-- ===== src/Most/Guards.antt =====
-- Who may call the messages of azero/contracts/most/lib.rs, and when.
use most_aleph_zero_bridge.Common.{
  ◌≡◌, ◌≢◌, Bool, true, false, not, if◌then◌else◌, Option, none, some, Env, ok, reverts, arith,
}
use most_aleph_zero_bridge.Ownable
use most_aleph_zero_bridge.Ownable.{Ownable2StepData, caller_not_owner}
use most_aleph_zero_bridge.Most.Types.{State, ownable, is_halted_error, halt_required}
use most_aleph_zero_bridge.Most.Chain.{Chain}
use most_aleph_zero_bridge.Most.Query.{
  is_halted, ensure_halted, ensure_not_halted, ensure_owner, read_ownable_data,
}
use most_aleph_zero_bridge.Most.Bridge.{send_request, receive_request, payout_rewards}
use most_aleph_zero_bridge.Most.Admin.{
  only_owner, set_code, remove_pair, add_pair, set_gas_price_oracle, set_committee, set_halted,
  recover_psp22, recover_azero, transfer_ownership,
}
use most_aleph_zero_bridge.Most.Calls.{
  MostCall, sends, receives, pays_out, funds, sets_code, removes_pair, adds_pair, sets_oracle,
  sets_committee, sets_halted, recovers_psp22, recovers_azero, transfers_ownership,
  accepts_ownership, run_call,
}

-- What a call asks of the halted flag: `some b` if it fails unless the flag is `b`.
abbrev pub wants_halted : MostCall → Option Bool
wants_halted (sends a b c) = some false
wants_halted (receives h c k a r n) = some false
wants_halted (pays_out c m) = some false
wants_halted (removes_pair a) = some true
wants_halted (adds_pair a b) = some true
wants_halted (sets_committee c t) = some true
wants_halted _ = none

-- The messages that begin with a check of the owner.
abbrev pub wants_owner : MostCall → Bool
wants_owner (sends a b c) = false
wants_owner (receives h c k a r n) = false
wants_owner (pays_out c m) = false
wants_owner funds = false
wants_owner accepts_ownership = false
wants_owner _ = true

module _ (chain : Chain) (env : Env) (s : State (chain.World)) where
  not_the_owner :
      (o : Ownable2StepData)
      → s.lazy_ownable_data ≡ some o
      → env.caller ≢ o.owner
      → only_owner chain env s ≡ reverts (ownable (caller_not_owner env.caller))
  unfolding only_owner ensure_owner read_ownable_data Ownable.ensure_owner
  not_the_owner o stored other = ground arith

  -- Each message that is the owner's, called by any other account, reverts with `CallerNotOwner`.
  pub owner_calls_revert :
      (c : MostCall) (o : Ownable2StepData)
      → wants_owner c ≡ true
      → s.lazy_ownable_data ≡ some o
      → env.caller ≢ o.owner
      → run_call chain c env s ≡ reverts (ownable (caller_not_owner env.caller))
  unfolding run_call
  owner_calls_revert (sends a b c) o w stored other = absurd (cc)
  owner_calls_revert (receives h c k a r n) o w stored other = absurd (cc)
  owner_calls_revert (pays_out c m) o w stored other = absurd (cc)
  owner_calls_revert funds o w stored other = absurd (cc)
  owner_calls_revert accepts_ownership o w stored other = absurd (cc)
  owner_calls_revert (sets_code a) o w stored other =
      unfold set_code in rw (not_the_owner o stored other)
  owner_calls_revert (removes_pair a) o w stored other =
      unfold remove_pair in rw (not_the_owner o stored other)
  owner_calls_revert (adds_pair a b) o w stored other =
      unfold add_pair in rw (not_the_owner o stored other)
  owner_calls_revert (sets_oracle a) o w stored other =
      unfold set_gas_price_oracle in rw (not_the_owner o stored other)
  owner_calls_revert (sets_committee c t) o w stored other =
      unfold set_committee in rw (not_the_owner o stored other)
  owner_calls_revert (sets_halted b) o w stored other =
      unfold set_halted in rw (not_the_owner o stored other)
  owner_calls_revert (recovers_psp22 a b c) o w stored other =
      unfold recover_psp22 in rw (not_the_owner o stored other)
  owner_calls_revert (recovers_azero a b) o w stored other =
      unfold recover_azero in rw (not_the_owner o stored other)
  owner_calls_revert (transfers_ownership n) o w stored other =
      unfold transfer_ownership Ownable.transfer_ownership Ownable.ensure_owner read_ownable_data in
      ground arith

  -- While the bridge is halted, every call that sends or receives a request or pays rewards out
  -- reverts with `IsHalted`.
  pub halted_bridge_reverts :
      (c : MostCall)
      → wants_halted c ≡ some false
      → is_halted {E = chain.PSP22Error} s.self ≡ ok true
      → run_call chain c env s ≡ reverts is_halted_error
  unfolding run_call send_request receive_request payout_rewards ensure_not_halted
  halted_bridge_reverts (sends a b c) w halted = ground arith
  halted_bridge_reverts (receives h c k a r n) w halted = ground arith
  halted_bridge_reverts (pays_out c m) w halted = ground arith
  halted_bridge_reverts _ w halted = absurd (cc)

  -- While the bridge runs, the owner's calls that change the pairs or the committee revert with
  -- `HaltRequired`.
  pub running_bridge_reverts :
      (c : MostCall) (o : Ownable2StepData)
      → wants_halted c ≡ some true
      → is_halted {E = chain.PSP22Error} s.self ≡ ok false
      → s.lazy_ownable_data ≡ some o
      → env.caller ≡ o.owner
      → run_call chain c env s ≡ reverts halt_required
  unfolding run_call remove_pair add_pair set_committee ensure_halted only_owner ensure_owner
      read_ownable_data Ownable.ensure_owner
  running_bridge_reverts (removes_pair a) o w running stored owner = ground arith
  running_bridge_reverts (adds_pair a b) o w running stored owner = ground arith
  running_bridge_reverts (sets_committee c t) o w running stored owner = ground arith
  running_bridge_reverts _ o w running stored owner = absurd (cc)

  halting_calls_are_owned : (c : MostCall) → wants_halted c ≡ some true → wants_owner c ≡ true
  halting_calls_are_owned c w = ground arith

  -- A call in the wrong mode of the bridge reverts: while it is halted, every call that sends or
  -- receives a request or pays rewards out, with `IsHalted`; while it runs, the owner's calls that
  -- change the pairs or the committee, with `HaltRequired`. A call of the owner's is made by the
  -- owner here.
  pub wrong_mode_reverts :
      (c : MostCall) (o : Ownable2StepData) (wanted : Bool)
      → wants_halted c ≡ some wanted
      → is_halted {E = chain.PSP22Error} s.self ≡ ok (not wanted)
      → s.lazy_ownable_data ≡ some o
      → (wants_owner c ≡ true → env.caller ≡ o.owner)
      → run_call chain c env s ≡ reverts (if wanted then halt_required else is_halted_error)
  wrong_mode_reverts c o false w halted stored owner = halted_bridge_reverts c w halted
  wrong_mode_reverts c o true w running stored owner =
      running_bridge_reverts c o w running stored (owner (halting_calls_are_owned c w))
