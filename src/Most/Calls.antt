-- ===== src/Most/Calls.antt =====
-- Every message of azero/contracts/most/lib.rs that can change the state, and histories of calls.
use most_aleph_zero_bridge.Common.{ℕ, Bool, List, [], ◌∷◌, Env, after}
use most_aleph_zero_bridge.Most.Types.{Most, State}
use most_aleph_zero_bridge.Most.Chain.{Chain, Call}
use most_aleph_zero_bridge.Most.Bridge.{
  send_request, receive_request, payout_rewards, fund_pocket_money,
}
use most_aleph_zero_bridge.Most.Admin.{
  set_code, remove_pair, add_pair, set_gas_price_oracle, set_committee, set_halted, recover_psp22,
  recover_azero, transfer_ownership, accept_ownership,
}

pub data MostCall : Type 0 where
  sends : ℕ → ℕ → ℕ → MostCall
  receives : ℕ → ℕ → ℕ → ℕ → ℕ → ℕ → MostCall
  pays_out : ℕ → ℕ → MostCall
  funds : MostCall
  sets_code : ℕ → MostCall
  removes_pair : ℕ → MostCall
  adds_pair : ℕ → ℕ → MostCall
  sets_oracle : ℕ → MostCall
  sets_committee : List ℕ → ℕ → MostCall
  sets_halted : Bool → MostCall
  recovers_psp22 : ℕ → ℕ → ℕ → MostCall
  recovers_azero : ℕ → ℕ → MostCall
  transfers_ownership : ℕ → MostCall
  accepts_ownership : MostCall

-- The state just after the contract was instantiated with the storage that `new` returned.
abbrev pub deployed : {W : Type 0} → Most → W → State W
deployed m w = record { self = m; world = w; events = [] }

module _ (chain : Chain) where
  unfoldable pub run_call : MostCall → Call chain (Unit {0})
  run_call (sends src amount dest) = send_request chain src amount dest
  run_call (receives hash committee token amount dest nonce) =
      receive_request chain hash committee token amount dest nonce
  run_call (pays_out committee member) = payout_rewards chain committee member
  run_call funds = fund_pocket_money chain
  run_call (sets_code code_hash) = set_code chain code_hash
  run_call (removes_pair from) = remove_pair chain from
  run_call (adds_pair from to) = add_pair chain from to
  run_call (sets_oracle oracle) = set_gas_price_oracle chain oracle
  run_call (sets_committee committee threshold) = set_committee chain committee threshold
  run_call (sets_halted new_state) = set_halted chain new_state
  run_call (recovers_psp22 token receiver amount) = recover_psp22 chain token receiver amount
  run_call (recovers_azero receiver amount) = recover_azero chain receiver amount
  run_call (transfers_ownership new_owner) = transfer_ownership chain new_owner
  run_call accepts_ownership = accept_ownership chain

  -- A transaction that calls the contract, at whatever state of the world it meets: other
  -- transactions change the world in between, and never the contract's storage.
  pub record Transaction : Type 0 where
    pub env : Env
    pub world : chain.World
    pub call : MostCall

  unfoldable pub step : State (chain.World) → Transaction → State (chain.World)
  step s tx =
      let met : State (chain.World) = record s { world = tx.world } in
      after (run_call tx.call tx.env met) met

  unfoldable pub run : State (chain.World) → List Transaction → State (chain.World)
  run s [] = s
  run s (tx ∷ txs) = run (step s tx) txs

  -- What holds of the state that no call breaks holds along every history.
  module _ {ℓ} (P : State (chain.World) → Type ℓ)
      (anywhere : (s : State (chain.World)) (w : chain.World) → P s → P (record s { world = w }))
      (kept : (c : MostCall) (env : Env) (s : State (chain.World))
        → P s
        → P (after (run_call c env s) s)) where
    pub run_inv : (s : State (chain.World)) (txs : List Transaction) → P s → P (run s txs)
    unfolding run step
    run_inv s [] p = p
    run_inv s (tx ∷ txs) p =
        run_inv (step s tx) txs
          (kept tx.call tx.env (record s { world = tx.world }) (anywhere s tx.world p))
