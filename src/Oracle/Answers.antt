-- ===== src/Oracle/Answers.antt =====
-- What azero/contracts/gas-price-oracle/contract/lib.rs answers, along every history.
use most_aleph_zero_bridge.Common.{
  ℕ, ◌≡◌, refl, ap, ◌∙◌, List, [], ◌∷◌, Env, after, arith, ◌==◌, if◌then◌else◌,
}
use most_aleph_zero_bridge.Common.Host.{Host}
use most_aleph_zero_bridge.Ownable
use most_aleph_zero_bridge.Ownable.{Ownable2StepData}
use most_aleph_zero_bridge.Ownable.Handover.{transfers, accepts, ownership_step}
use most_aleph_zero_bridge.Oracle.{
  Oracle, OracleState, OracleMessage, get_price, update_price, upgrade_contract, transfer_ownership,
  accept_ownership, ensure_owner,
}

pub data OracleCall : Type 0 where
  updates_price : ℕ → OracleCall
  upgrades transfers_ownership : ℕ → OracleCall
  accepts_ownership : OracleCall

-- What the oracle is meant to be: an owner under the two-step protocol, and the last price that
-- the owner of the moment set, with its time.
pub record Quote : Type 0 where
  pub ownership : Ownable2StepData
  pub price : ℕ
  pub time : ℕ

pub quote_step : Quote → Env → OracleCall → Quote
quote_step q env (updates_price p) =
    if env.caller == q.ownership.owner
    then record q { price = p; time = env.block_timestamp }
    else q
quote_step q env (upgrades h) = q
quote_step q env (transfers_ownership n) = record q {
  ownership = ownership_step q.ownership (transfers env.caller n);
}
quote_step q env accepts_ownership = record q {
  ownership = ownership_step q.ownership (accepts env.caller);
}

pub quote_run : Quote → List (Env × OracleCall) → Quote
quote_run q [] = q
quote_run q ((env, c) ∷ calls) = quote_run (quote_step q env c) calls

abbrev pub quote_of : Oracle → Quote
quote_of o =
    let (price, time) = get_price o in
    record { ownership = o.ownable_data; price = price; time = time }

module _ (host : Host) where
  pub run_call : OracleCall → OracleMessage host (Unit {0})
  run_call (updates_price p) = update_price host p
  run_call (upgrades h) = upgrade_contract host h
  run_call (transfers_ownership n) = transfer_ownership host n
  run_call accepts_ownership = accept_ownership host

  pub run : OracleState (host.World) → List (Env × OracleCall) → OracleState (host.World)
  run s [] = s
  run s ((env, c) ∷ calls) = run (after (run_call c env s) s) calls

  run_call-quote :
      (c : OracleCall) (env : Env) (s : OracleState (host.World))
      → quote_of (after (run_call c env s) s).self ≡ quote_step (quote_of s.self) env c
  unfolding run_call quote_step get_price update_price upgrade_contract transfer_ownership
      accept_ownership ownership_step ensure_owner Ownable.ensure_owner
  run_call-quote (updates_price p) env s = ground arith
  run_call-quote (upgrades h) env s = ground arith
  run_call-quote (transfers_ownership n) env s = ground arith
  run_call-quote accepts_ownership env s = ground arith

  -- Along every history of calls by any accounts the oracle answers with the last price that the
  -- owner of that moment set, and the block time of that update; ownership follows the two-step
  -- protocol.
  pub run-quote :
      (s : OracleState (host.World)) (calls : List (Env × OracleCall))
      → quote_of (run s calls).self ≡ quote_run (quote_of s.self) calls
  unfolding run quote_run
  run-quote s [] = refl
  run-quote s ((env, c) ∷ calls) =
      run-quote (after (run_call c env s) s) calls
      ∙ ap (λ q. quote_run q calls) (run_call-quote c env s)
