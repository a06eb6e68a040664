-- ===== src/Most/Admin.antt =====
-- The owner's messages of azero/contracts/most/lib.rs and its `Ownable2Step` interface.
use most_aleph_zero_bridge.Common.{
  ℕ, number_key, pair_key, ◌+◌, ◌%◌, Bool, not, ◌!=◌, none, some, List, ok, err, pure, fail_if,
  asks, insert, remove, u128_size, ◌>>=◌, ◌>>◌, ◌==◌, if◌then◌else◌, returns, reverts, traps,
}
use most_aleph_zero_bridge.Common.Fallible.{map_err}
use most_aleph_zero_bridge.Ownable
use most_aleph_zero_bridge.Ownable.{Ownable2StepData, Ownable2StepResult}
use most_aleph_zero_bridge.Most.Types.{
  ownable, no_mint_permission, halted_state_changed, transfer_ownership_initiated,
  transfer_ownership_accepted, ink_env_error,
}
use most_aleph_zero_bridge.Most.Chain.{Chain, Call, reads, calls, env_transfer, writes, emit_event}
use most_aleph_zero_bridge.Most.Query.{read_data, ensure_halted, ensure_owner, read_ownable_data}
use most_aleph_zero_bridge.Most.Setup.{check_committee, insert_members}
use most_aleph_zero_bridge.Most.Bridge.{or_env_error}

module _ (chain : Chain) where
  open chain use {set_code_hash, psp22_transfer, psp22_minter, debug}

  -- `self.ensure_owner()?` in a message: the error is converted by `From`.
  unfoldable pub only_owner : Call chain (Unit {0})
  only_owner = do
    caller ← asks (λ env. env.caller)
    reads chain (λ m. map_err ownable (ensure_owner m caller))

  unfoldable pub set_code : ℕ → Call chain (Unit {0})
  set_code code_hash = do
    only_owner
    (λ env s. elim (set_code_hash env.account_id code_hash s.world) [
      | ok w ↦ returns tt (record s { world = w })
      | err why ↦ reverts (ink_env_error (debug why))
    ])

  unfoldable pub remove_pair : ℕ → Call chain (Unit {0})
  remove_pair from = do
    only_owner
    reads chain ensure_halted
    writes chain (λ m. record m { supported_pairs = remove m.supported_pairs from })

  -- A call of `minter()` that traps takes the message with it.
  abbrev minter_of : ℕ → Call chain ℕ
  minter_of token env s = elim (psp22_minter token s.world) [ some a ↦ returns a s | none ↦ traps ]

  unfoldable pub add_pair : ℕ → ℕ → Call chain (Unit {0})
  add_pair from to = do
    only_owner
    reads chain ensure_halted
    minter ← minter_of from
    self ← asks (λ env. env.account_id)
    fail_if (not (minter == self)) no_mint_permission
    writes chain (λ m. record m { supported_pairs = insert m.supported_pairs from to })

  unfoldable pub set_gas_price_oracle : ℕ → Call chain (Unit {0})
  set_gas_price_oracle gas_price_oracle = do
    only_owner
    d ← reads chain read_data
    writes chain
        (λ m. record m { lazy_data = some (record d { gas_price_oracle = some gas_price_oracle }) })

  -- The new committee goes into the cells of the old mapping: both handles have one manual key.
  -- The identifier wraps, since the release profile turns overflow checks off.
  unfoldable pub set_committee : List ℕ → ℕ → Call chain (Unit {0})
  set_committee committee signature_threshold = do
    only_owner
    reads chain ensure_halted
    reads chain (λ _. check_committee committee signature_threshold)
    d ← reads chain read_data
    let committee_id = (d.committee_id + 1) % u128_size
    writes chain (λ m. record m {
      committees = insert_members committee_id committee m.committees;
      lazy_data = some (record d { committee_id = committee_id });
      signature_thresholds = insert m.signature_thresholds committee_id signature_threshold;
    })

  unfoldable pub set_halted : Bool → Call chain (Unit {0})
  set_halted new_state = do
    only_owner
    d ← reads chain read_data
    caller ← asks (λ env. env.caller)
    if new_state != d.is_halted
        then (do
          writes chain (λ m. record m { lazy_data = some (record d { is_halted = new_state }) })
          emit_event chain (halted_state_changed d.is_halted new_state caller))
        else pure tt

  unfoldable pub recover_psp22 : ℕ → ℕ → ℕ → Call chain (Unit {0})
  recover_psp22 token receiver amount = do
    only_owner
    self ← asks (λ env. env.account_id)
    calls chain (psp22_transfer self token receiver amount)

  unfoldable pub recover_azero : ℕ → ℕ → Call chain (Unit {0})
  recover_azero receiver amount = do
    only_owner
    env_transfer chain receiver amount >>= or_env_error chain

  -- The stored ownership data after one of its methods, which the caller may have run in vain.
  abbrev owns : (Ownable2StepData → Ownable2StepResult Ownable2StepData) → Call chain (Unit {0})
  owns method = do
    o ← reads chain (λ m. map_err ownable (read_ownable_data m))
    changed ← reads chain (λ _. map_err ownable (method o))
    writes chain (λ m. record m { lazy_ownable_data = some changed })

  unfoldable pub transfer_ownership : ℕ → Call chain (Unit {0})
  transfer_ownership new_owner = do
    caller ← asks (λ env. env.caller)
    owns (λ o. Ownable.transfer_ownership o caller new_owner)
    emit_event chain (transfer_ownership_initiated new_owner)

  unfoldable pub accept_ownership : Call chain (Unit {0})
  accept_ownership = do
    new_owner ← asks (λ env. env.caller)
    owns (λ o. Ownable.accept_ownership o new_owner)
    emit_event chain (transfer_ownership_accepted new_owner)
