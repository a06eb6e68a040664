-- ===== src/Most/Ownership.antt =====
-- The ownership of azero/contracts/most/lib.rs refines that of azero/contracts/ownable2step/lib.rs.
use most_aleph_zero_bridge.Common.{
  ap, ◌∙◌, ℕ, ◌≡◌, refl, Option, none, some, List, [], ◌∷◌, Env, after, arith,
}
use most_aleph_zero_bridge.Ownable.{Ownable2StepData}
use most_aleph_zero_bridge.Ownable.Handover.{
  OwnershipCall, transfers, accepts, ownership_step, ownership_run,
}
use most_aleph_zero_bridge.Most.Types.{State}
use most_aleph_zero_bridge.Most.Chain.{Chain}
use most_aleph_zero_bridge.Most.Query.{read_ownable_data}
use most_aleph_zero_bridge.Most.Bridge.{
  send_request, burn_from, book_request, return_surplus, receive_request, sign_request,
  execute_request, mint_to, send_pocket_money, payout_rewards, fund_pocket_money,
}
use most_aleph_zero_bridge.Most.Admin.{
  only_owner, set_code, remove_pair, add_pair, set_gas_price_oracle, set_committee, set_halted,
  recover_psp22, recover_azero, transfer_ownership, accept_ownership,
}
use most_aleph_zero_bridge.Most.Calls.{
  MostCall, sends, receives, transfers_ownership, accepts_ownership, Transaction, run_call, step,
  run,
}

-- The call of the ownership protocol that a message makes, if any.
abbrev pub ownership_call : MostCall → ℕ → Option OwnershipCall
ownership_call (transfers_ownership n) caller = some (transfers caller n)
ownership_call accepts_ownership caller = some (accepts caller)
ownership_call _ caller = none

abbrev pub owner_after : Ownable2StepData → Option OwnershipCall → Ownable2StepData
owner_after o none = o
owner_after o (some c) = ownership_step o c

abbrev pub prepend : Option OwnershipCall → List OwnershipCall → List OwnershipCall
prepend none cs = cs
prepend (some c) cs = c ∷ cs

ownership_run-prepend :
    (o : Ownable2StepData) (c : Option OwnershipCall) (cs : List OwnershipCall)
    → ownership_run (owner_after o c) cs ≡ ownership_run o (prepend c cs)
unfolding ownership_run
ownership_run-prepend o none cs = refl
ownership_run-prepend o (some c) cs = refl

module _ (chain : Chain) where
  -- The ownership calls in a history, in order.
  abbrev pub ownership_calls : List (Transaction chain) → List OwnershipCall
  ownership_calls [] = []
  ownership_calls (tx ∷ txs) = prepend (ownership_call tx.call tx.env.caller) (ownership_calls txs)

  module _ (env : Env) (s : State (chain.World)) (o : Ownable2StepData)
      (stored : s.lazy_ownable_data ≡ some o) where
    run_call-owner :
        (c : MostCall)
        → (after (run_call chain c env s) s).lazy_ownable_data
          ≡ some (owner_after o (ownership_call c env.caller))
    unfolding run_call send_request burn_from book_request return_surplus receive_request
        sign_request execute_request mint_to send_pocket_money payout_rewards fund_pocket_money
        only_owner set_code remove_pair add_pair set_gas_price_oracle set_committee set_halted
        recover_psp22 recover_azero
    run_call-owner (sends a b c) = ground arith
    run_call-owner (receives h c k a r n) = ground arith
    run_call-owner (transfers_ownership n) =
        unfold transfer_ownership read_ownable_data ownership_step in ground arith
    run_call-owner accepts_ownership =
        unfold accept_ownership read_ownable_data ownership_step in ground arith
    run_call-owner _ = ground arith

  -- Along every history of calls the stored owner and pending owner are those of the two-step
  -- protocol run on the ownership calls alone: no other message touches them.
  pub run-owner :
      (s : State (chain.World)) (o : Ownable2StepData) (txs : List (Transaction chain))
      → s.lazy_ownable_data ≡ some o
      → (run chain s txs).lazy_ownable_data ≡ some (ownership_run o (ownership_calls txs))
  unfolding run step
  run-owner s o [] stored = unfold ownership_run in stored
  run-owner s o (tx ∷ txs) stored =
      let met : State (chain.World) = record s { world = tx.world } in
      let called = ownership_call tx.call tx.env.caller in
      run-owner (after (run_call chain tx.call tx.env met) met) (owner_after o called) txs
        (run_call-owner tx.env met o stored tx.call)
      ∙ ap some (ownership_run-prepend o called (ownership_calls txs))
