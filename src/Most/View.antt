-- ===== src/Most/View.antt =====
-- The part of the contract of azero/contracts/most/lib.rs that its requests, votes and rewards
-- live in. The other messages leave it alone, so an invariant of it is shown for three messages.
use mathlib.Core.Path.{subst}
use most_aleph_zero_bridge.Common.{
  ℕ, ◌≡◌, refl, sym, Bool, true, false, Option, none, some, List, [], ◌∷◌, Mapping, Env, after,
  arith,
}
use most_aleph_zero_bridge.Most.Types.{
  Data, Request, State, Event, crosschain_transfer_request, request_processed, request_signed,
  signed_processed_request, request_already_signed, halted_state_changed,
  transfer_ownership_initiated, transfer_ownership_accepted,
}
use most_aleph_zero_bridge.Most.Chain.{Chain}
use most_aleph_zero_bridge.Most.Query.{read_data}
use most_aleph_zero_bridge.Most.Bridge.{
  send_request, receive_request, payout_rewards, fund_pocket_money,
}
use most_aleph_zero_bridge.Most.Admin.{
  only_owner, set_code, remove_pair, add_pair, set_gas_price_oracle, set_committee, set_halted,
  recover_psp22, recover_azero, transfer_ownership, accept_ownership,
}
use most_aleph_zero_bridge.Most.Calls.{
  MostCall, sends, receives, pays_out, funds, sets_code, removes_pair, adds_pair, sets_oracle,
  sets_committee, sets_halted, recovers_psp22, recovers_azero, transfers_ownership,
  accepts_ownership, Transaction, run_call, run, run_inv,
}

-- The events of requests and votes: requests out, votes counted and requests executed.
abbrev pub bridge_events : List Event → List Event
bridge_events [] = []
bridge_events (crosschain_transfer_request r ∷ es) =
    crosschain_transfer_request r ∷ bridge_events es
bridge_events (request_processed h k ∷ es) = request_processed h k ∷ bridge_events es
bridge_events (request_signed h a ∷ es) = request_signed h a ∷ bridge_events es
bridge_events (signed_processed_request h a ∷ es) = bridge_events es
bridge_events (request_already_signed h a ∷ es) = bridge_events es
bridge_events (halted_state_changed p q a ∷ es) = bridge_events es
bridge_events (transfer_ownership_initiated a ∷ es) = bridge_events es
bridge_events (transfer_ownership_accepted a ∷ es) = bridge_events es

abbrev pub nonce_of : Option Data → Option ℕ
nonce_of none = none
nonce_of (some d) = some (d.request_nonce)

pub record BridgeView : Type 0 where
  pub nonce : Option ℕ
  pub pending_requests : Mapping ℕ Request
  pub signatures : Mapping (ℕ × ℕ) (Unit {0})
  pub processed_requests : Mapping ℕ (Unit {0})
  pub committee_sizes : Mapping ℕ ℕ
  pub collected_committee_rewards : Mapping ℕ ℕ
  pub paid_out_member_rewards : Mapping (ℕ × ℕ) ℕ
  pub events : List Event

abbrev pub bridge_view : {W : Type 0} → State W → BridgeView
bridge_view s = record {
  nonce = nonce_of s.lazy_data;
  pending_requests = s.pending_requests;
  signatures = s.signatures;
  processed_requests = s.processed_requests;
  committee_sizes = s.committee_sizes;
  collected_committee_rewards = s.collected_committee_rewards;
  paid_out_member_rewards = s.paid_out_member_rewards;
  events = bridge_events s.events;
}

module _ (chain : Chain) (env : Env) (s : State (chain.World)) where
  fund_pocket_money-bridge_view :
      bridge_view (after (fund_pocket_money chain env s) s) ≡ bridge_view s
  unfolding fund_pocket_money read_data
  fund_pocket_money-bridge_view = ground arith

  set_code-bridge_view :
      (code_hash : ℕ) → bridge_view (after (set_code chain code_hash env s) s) ≡ bridge_view s
  unfolding set_code only_owner
  set_code-bridge_view code_hash = ground arith

  remove_pair-bridge_view :
      (from : ℕ) → bridge_view (after (remove_pair chain from env s) s) ≡ bridge_view s
  unfolding remove_pair only_owner
  remove_pair-bridge_view from = ground arith

  add_pair-bridge_view :
      (from : ℕ) (to : ℕ) → bridge_view (after (add_pair chain from to env s) s) ≡ bridge_view s
  unfolding add_pair only_owner
  add_pair-bridge_view from to = ground arith

  set_gas_price_oracle-bridge_view :
      (oracle : ℕ) → bridge_view (after (set_gas_price_oracle chain oracle env s) s) ≡ bridge_view s
  unfolding set_gas_price_oracle only_owner read_data
  set_gas_price_oracle-bridge_view oracle = ground arith

  set_committee-bridge_view :
      (committee : List ℕ) (threshold : ℕ)
      → bridge_view (after (set_committee chain committee threshold env s) s) ≡ bridge_view s
  unfolding set_committee only_owner read_data
  set_committee-bridge_view committee threshold = ground arith

  set_halted-bridge_view :
      (new_state : Bool) → bridge_view (after (set_halted chain new_state env s) s) ≡ bridge_view s
  unfolding set_halted only_owner read_data
  set_halted-bridge_view new_state = ground arith

  recover_psp22-bridge_view :
      (token : ℕ) (receiver : ℕ) (amount : ℕ)
      → bridge_view (after (recover_psp22 chain token receiver amount env s) s) ≡ bridge_view s
  unfolding recover_psp22 only_owner
  recover_psp22-bridge_view token receiver amount = ground arith

  recover_azero-bridge_view :
      (receiver : ℕ) (amount : ℕ)
      → bridge_view (after (recover_azero chain receiver amount env s) s) ≡ bridge_view s
  unfolding recover_azero only_owner
  recover_azero-bridge_view receiver amount = ground arith

  transfer_ownership-bridge_view :
      (new_owner : ℕ)
      → bridge_view (after (transfer_ownership chain new_owner env s) s) ≡ bridge_view s
  unfolding transfer_ownership
  transfer_ownership-bridge_view new_owner = ground arith

  accept_ownership-bridge_view :
      bridge_view (after (accept_ownership chain env s) s) ≡ bridge_view s
  unfolding accept_ownership
  accept_ownership-bridge_view = ground arith

-- The calls that can change the view.
abbrev pub changes_view : MostCall → Bool
changes_view (sends src amount dest) = true
changes_view (receives h c k a r n) = true
changes_view (pays_out c m) = true
changes_view _ = false

pub call-bridge_view :
    (chain : Chain) (c : MostCall) (env : Env) (s : State (chain.World))
    → changes_view c ≡ false
    → bridge_view (after (run_call chain c env s) s) ≡ bridge_view s
unfolding run_call
call-bridge_view chain (sends src amount dest) env s e = absurd (cc)
call-bridge_view chain (receives h c k a r n) env s e = absurd (cc)
call-bridge_view chain (pays_out c m) env s e = absurd (cc)
call-bridge_view chain funds env s e = fund_pocket_money-bridge_view chain env s
call-bridge_view chain (sets_code a) env s e = set_code-bridge_view chain env s a
call-bridge_view chain (removes_pair a) env s e = remove_pair-bridge_view chain env s a
call-bridge_view chain (adds_pair a b) env s e = add_pair-bridge_view chain env s a b
call-bridge_view chain (sets_oracle a) env s e = set_gas_price_oracle-bridge_view chain env s a
call-bridge_view chain (sets_committee a b) env s e = set_committee-bridge_view chain env s a b
call-bridge_view chain (sets_halted a) env s e = set_halted-bridge_view chain env s a
call-bridge_view chain (recovers_psp22 a b c) env s e = recover_psp22-bridge_view chain env s a b c
call-bridge_view chain (recovers_azero a b) env s e = recover_azero-bridge_view chain env s a b
call-bridge_view chain (transfers_ownership a) env s e =
    transfer_ownership-bridge_view chain env s a
call-bridge_view chain accepts_ownership env s e = accept_ownership-bridge_view chain env s

-- An invariant of the view that the three messages of the bridge keep holds along every history.
module _ {ℓ} (chain : Chain) (P : BridgeView → Type ℓ)
    (sent : (src amount dest : ℕ) (env : Env) (s : State (chain.World))
      → P (bridge_view s)
      → P (bridge_view (after (send_request chain src amount dest env s) s)))
    (received : (hash committee token amount dest nonce : ℕ) (env : Env) (s : State (chain.World))
      → P (bridge_view s)
      → P (
          bridge_view
            (after (receive_request chain hash committee token amount dest nonce env s) s)))
    (paid : (committee member : ℕ) (env : Env) (s : State (chain.World))
      → P (bridge_view s)
      → P (bridge_view (after (payout_rewards chain committee member env s) s))) where
  keep : {v w : BridgeView} → v ≡ w → P w → P v
  keep e p = subst P (sym e) p

  pub view_inv_call :
      (c : MostCall) (env : Env) (s : State (chain.World))
      → P (bridge_view s)
      → P (bridge_view (after (run_call chain c env s) s))
  unfolding run_call
  view_inv_call (sends src amount dest) env s p = sent src amount dest env s p
  view_inv_call (receives h c k a r n) env s p = received h c k a r n env s p
  view_inv_call (pays_out c m) env s p = paid c m env s p
  view_inv_call c env s p = keep (call-bridge_view chain c env s refl) p

  pub view_inv :
      (s : State (chain.World)) (txs : List (Transaction chain))
      → P (bridge_view s)
      → P (bridge_view (run chain s txs))
  view_inv = run_inv chain (λ s. P (bridge_view s)) (λ s w p. p) view_inv_call
