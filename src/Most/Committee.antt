-- ===== src/Most/Committee.antt =====
-- The committees of azero/contracts/most/lib.rs: which ones are accepted, and which can be paid.
use most_aleph_zero_bridge.Common.{
  ◌∙◌, ap, after-cases, ℕ, ◌%◌, ◌≤◌, ◌≡◌, ◌≢◌, ◌↔◌, refl, false, Option, none, List, [], ◌∷◌, All,
  length, ok, err, u32_size, number_key, pair_key, insert, Env, after, arith, if◌then◌else◌,
}
use most_aleph_zero_bridge.Most.Types.{Most, State, no_such_committee, not_in_committee}
use most_aleph_zero_bridge.Most.Chain.{Chain}
use most_aleph_zero_bridge.Most.Query.{
  is_in_committee, only_committee_member, get_outstanding_member_rewards,
}
use most_aleph_zero_bridge.Most.Setup.{occurs, has_duplicate, check_committee, new}
use most_aleph_zero_bridge.Most.Bridge.{receive_request, send_request, payout_rewards}
use most_aleph_zero_bridge.Most.Calls.{Transaction, run, deployed}
use most_aleph_zero_bridge.Most.View.{BridgeView, bridge_view, view_inv}
use most_aleph_zero_bridge.Most.Sending.{send_request-Sent}
use most_aleph_zero_bridge.Most.Receiving.{receive_request-keeps}

-- No account is listed twice.
abbrev pub IsDistinct : List ℕ → Type 0
IsDistinct [] = Unit
IsDistinct (a ∷ rest) = All (λ b. a ≢ b) rest × IsDistinct rest

occurs_iff : (a : ℕ) (xs : List ℕ) → (occurs a xs ≡ false) ↔ All (λ b. a ≢ b) xs
unfolding occurs
occurs_iff a [] = (λ _. tt, λ _. refl)
occurs_iff a (x ∷ xs) = ground (arith, occurs_iff a xs)

has_duplicate_iff : (xs : List ℕ) → (has_duplicate xs ≡ false) ↔ IsDistinct xs
unfolding has_duplicate
has_duplicate_iff [] = (λ _. tt, λ _. refl)
has_duplicate_iff (x ∷ xs) = ground (arith, occurs_iff x xs, has_duplicate_iff xs)

-- A committee is accepted exactly if its accounts are distinct, the threshold is not 0, and the
-- low 32 bits of the threshold are at most the number of accounts.
pub check_committee_iff :
    {E : Type 0} (committee : List ℕ) (threshold : ℕ)
    → (check_committee {E = E} committee threshold ≡ ok tt)
      ↔ (IsDistinct committee × (threshold ≢ 0) × (threshold % u32_size ≤ length committee))
unfolding check_committee
check_committee_iff committee threshold = ground (arith, has_duplicate_iff committee)

module _ (chain : Chain) where
  abbrev HasSizes : (ℕ → Option ℕ) → BridgeView → Type 0
  HasSizes sizes v = v.committee_sizes ≡ sizes

  send_request-HasSizes :
      (sizes : ℕ → Option ℕ) (src amount dest : ℕ) (env : Env) (s : State (chain.World))
      → HasSizes sizes (bridge_view s)
      → HasSizes sizes (bridge_view (after (send_request chain src amount dest env s) s))
  send_request-HasSizes sizes src amount dest env s h =
      after-cases (λ t. HasSizes sizes (bridge_view t)) (send_request chain src amount dest env s) s
        h λ _ t e. ground (arith, send_request-Sent chain env s src amount dest e)

  receive_request-HasSizes :
      (sizes : ℕ → Option ℕ) (hash committee token amount dest nonce : ℕ) (env : Env)
      (s : State (chain.World))
      → HasSizes sizes (bridge_view s)
      → HasSizes sizes (
          bridge_view
            (after (receive_request chain hash committee token amount dest nonce env s) s))
  receive_request-HasSizes sizes hash committee token amount dest nonce env s h =
      (receive_request-keeps chain hash committee token amount dest nonce env s).1 ∙ h

  payout_rewards-HasSizes :
      (sizes : ℕ → Option ℕ) (committee member : ℕ) (env : Env) (s : State (chain.World))
      → HasSizes sizes (bridge_view s)
      → HasSizes sizes (bridge_view (after (payout_rewards chain committee member env s) s))
  unfolding payout_rewards
  payout_rewards-HasSizes sizes committee member env s h = ground arith

  -- No call ever writes a committee's size: only the constructor does.
  run-committee_sizes :
      (s : State (chain.World)) (txs : List (Transaction chain))
      → (run chain s txs).committee_sizes ≡ s.committee_sizes
  run-committee_sizes s txs =
      view_inv chain (HasSizes s.committee_sizes) (send_request-HasSizes s.committee_sizes)
        (receive_request-HasSizes s.committee_sizes) (payout_rewards-HasSizes s.committee_sizes) s
        txs refl

new-committee_sizes :
    {E : Type 0} (committee : List ℕ) (threshold pocket_money usage low high default : ℕ)
    (oracle : Option ℕ) (owner : ℕ) {m : Most} (c : ℕ)
    → new {E = E} committee threshold pocket_money usage low high default oracle owner ≡ ok m
    → c ≢ 0
    → m.committee_sizes c ≡ none
unfolding new insert
new-committee_sizes committee threshold pocket_money usage low high default oracle owner c made
      later =
    ground arith

size_missing :
    {E : Type 0} (m : Most) (c a : ℕ)
    → m.committee_sizes c ≡ none
    → get_outstanding_member_rewards {E = E} m c a
      ≡ err (if is_in_committee m c a then no_such_committee else not_in_committee)
unfolding get_outstanding_member_rewards only_committee_member
size_missing m c a e = ground arith

-- Whatever history follows the deployment, only the first committee can be paid: for the members of
-- every later committee the rewards query, on which payouts depend, fails with `NoSuchCommittee`,
-- and for other accounts with `NotInCommittee`.
pub later_committees_unpaid :
    (chain : Chain) (committee : List ℕ) (threshold pocket_money usage low high default : ℕ)
    (oracle : Option ℕ) (owner : ℕ) {m : Most} (w : chain.World) (txs : List (Transaction chain))
    (c a : ℕ)
    → new {E = chain.PSP22Error} committee threshold pocket_money usage low high default oracle
        owner
      ≡ ok m
    → c ≢ 0
    → let t = run chain (deployed m w) txs in
      get_outstanding_member_rewards {E = chain.PSP22Error} t.self c a
      ≡ err (if is_in_committee t.self c a then no_such_committee else not_in_committee)
later_committees_unpaid chain committee threshold pocket_money usage low high default oracle owner
      {m} w txs c a made later =
    size_missing (run chain (deployed m w) txs).self c a (
      ap (λ f. f c) (run-committee_sizes chain (deployed m w) txs)
      ∙ new-committee_sizes committee threshold pocket_money usage low high default oracle owner c
          made later)
