-- ===== src/Token/Tests.antt =====
-- The token at a concrete history.
use most_aleph_zero_bridge.Token.{approval, transfer, Psp22, TokenState}
use most_aleph_zero_bridge.Token.Minting.{
  transfers_tokens, strangers_keep_control, accepts_ownership, run, mints, transfers_ownership,
  SameControl, SupplyLaws, TokenCall,
}
use most_aleph_zero_bridge.Token.Announcements.{handovers_unannounced, acceptances, initiations}
use most_aleph_zero_bridge.Common.{
  ◌-◌, ◌+◌, ◌++◌, String, ℕ, ◌≡◌, refl, List, [], ◌∷◌, some, none, Env, arith, ok,
}

-- The data is the total supply alone.
abbrev supply_only : Psp22
supply_only = record {
  Data = ℕ;
  Error = String;
  custom = λ s. s;
  new = λ supply holder. supply;
  total_supply = λ d. d;
  balance_of = λ d a. d;
  allowance = λ d a b. 0;
  transfer = λ caller to value d. ok (transfer (some caller) (some to) value ∷ [], d);
  transfer_from = λ caller from to value d. ok (transfer (some from) (some to) value ∷ [], d);
  approve = λ owner spender value d. ok (approval owner spender value ∷ [], d);
  increase_allowance = λ owner spender value d. ok (approval owner spender value ∷ [], d);
  decrease_allowance = λ owner spender value d. ok (approval owner spender value ∷ [], d);
  mint = λ to value d. ok (transfer none (some to) value ∷ [], d + value);
  burn = λ from value d. ok (transfer (some from) none value ∷ [], d - value);
}

supply_only-SupplyLaws : SupplyLaws supply_only
supply_only-SupplyLaws = record {
  transfer_law = λ caller to value d. refl;
  transfer_from_law = λ caller from to value d. refl;
  approve_law = λ owner spender value d. refl;
  increase_law = λ owner spender value d. refl;
  decrease_law = λ owner spender value d. refl;
}

abbrev by : ℕ → Env
by caller = record { caller = caller; account_id = 9; transferred_value = 0; block_timestamp = 0 }

-- Owned by 1, minted and burned by 99.
abbrev issued : TokenState ℕ
issued = record {
  self = record {
    psp22_data = 1000;
    ownable_data = record { owner = 1; pending_owner = none };
    name = none;
    symbol = none;
    decimals = 12;
    minter_burner = 99;
  };
  events = [];
}

abbrev attempts : List (Env × TokenCall)
attempts = (by 5, mints 5 100) ∷ (by 5, transfers_tokens 6 10) ∷ (by 6, transfers_ownership 6) ∷ []

strangers_keep_control_example : SameControl supply_only issued (run supply_only issued attempts)
strangers_keep_control_example =
    strangers_keep_control supply_only supply_only-SupplyLaws issued attempts (ground arith)

-- The owner 1 names 2, who accepts after others tried to take over.
abbrev handover : List (Env × TokenCall)
handover = (by 1, transfers_ownership 2) ∷ (attempts ++ ((by 2, accepts_ownership) ∷ []))

handovers_unannounced_example :
    ((run supply_only issued handover).self.ownable_data
      ≡ record { owner = 2; pending_owner = none })
    × (acceptances ((run supply_only issued handover).events) ≡ 0)
    × (initiations ((run supply_only issued handover).events) ≡ 2)
handovers_unannounced_example =
    handovers_unannounced supply_only issued (by 1) (by 2) attempts refl (ground arith)
