-- ===== src/Most/Voters.antt =====
-- Counting in the record of events of azero/contracts/most/lib.rs: as many votes as there are
-- distinct voters, and how often a request was executed.
use most_aleph_zero_bridge.Common.{
  ℕ, suc, ◌≤◌, ◌≡◌, ◌≢◌, true, false, List, [], ◌∷◌, All, All-map, length, ◌==◌, if◌then◌else◌,
  Bool-cases, inl, inr, arith,
}
use most_aleph_zero_bridge.Most.Types.{Event, request_processed, request_signed}
use most_aleph_zero_bridge.Most.Votes.{votes, voted, executed, ExecutedOnce}
use most_aleph_zero_bridge.Most.Committee.{IsDistinct}

without : ℕ → List ℕ → List ℕ
without a [] = []
without a (x ∷ xs) = let rest = without a xs in if x == a then rest else x ∷ rest

without-All : (P : ℕ → Type 0) (a : ℕ) (xs : List ℕ) → All P xs → All P (without a xs)
unfolding without
without-All P a [] h = tt
without-All P a (x ∷ xs) h = ground (arith, without-All P a xs h.1)

-- What holds of all but one holds of the others.
without-rest :
    (P : ℕ → Type 0) (a : ℕ) (xs : List ℕ) → All (λ x. x ≢ a → P x) xs → All P (without a xs)
unfolding without
without-rest P a [] h = tt
without-rest P a (x ∷ xs) h = elim (Bool-cases (x == a)) [
  | inl e ↦ ground (arith, without-rest P a xs h.1)
  | inr e ↦ ground (arith, without-rest P a xs h.1)
]

without_absent : (a : ℕ) (xs : List ℕ) → All (λ b. a ≢ b) xs → length xs ≤ length (without a xs)
unfolding without
without_absent a [] h = omega arith
without_absent a (x ∷ xs) h = ground (arith, without_absent a xs h.1)

without-IsDistinct : (a : ℕ) (xs : List ℕ) → IsDistinct xs → IsDistinct (without a xs)
unfolding without
without-IsDistinct a [] d = tt
without-IsDistinct a (x ∷ xs) d =
    ground (arith, without-IsDistinct a xs d.1, without-All (λ b. x ≢ b) a xs d.0)

length-without : (a : ℕ) (xs : List ℕ) → IsDistinct xs → length xs ≤ suc (length (without a xs))
unfolding without
length-without a [] d = omega arith
length-without a (x ∷ xs) d = elim (Bool-cases (x == a)) [
  | inl e ↦ ground (arith, without_absent a xs)
  | inr e ↦ ground (arith, length-without a xs d.1)
]

-- Distinct accounts that have all voted for a hash are no more than its votes.
pub distinct_voters :
    (h : ℕ) (es : List Event) (xs : List ℕ)
    → IsDistinct xs
    → All (λ a. voted h a es ≡ true) xs
    → length xs ≤ votes h es
distinct_voters h [] [] d v = omega arith
distinct_voters h [] (x ∷ xs) d v = absurd (cc)
distinct_voters h (request_signed k a ∷ es) xs d v = elim (Bool-cases (k == h)) [
  | inl e ↦ ground (
    arith,
    length-without a xs d,
    distinct_voters h es (without a xs) (without-IsDistinct a xs d) (
        without-rest (λ b. voted h b es ≡ true) a xs
          (All-map xs (λ b voted_b. λ other. ground arith) v)),
  )
  | inr e ↦ ground (arith, distinct_voters h es xs d (All-map xs (λ b voted_b. ground arith) v))
]
distinct_voters h (_ ∷ es) xs d v = distinct_voters h es xs d v

-- How often a request was executed.
abbrev pub executions : ℕ → List Event → ℕ
executions h [] = 0
executions h (request_processed k t ∷ es) =
    if k == h then suc (executions h es) else executions h es
executions h (_ ∷ es) = executions h es

executions_zero : (h : ℕ) (es : List Event) → executed h es ≡ false → executions h es ≡ 0
executions_zero h [] e = omega arith
executions_zero h (request_processed k t ∷ es) e = ground (arith, executions_zero h es)
executions_zero h (_ ∷ es) e = executions_zero h es e

-- A request that was executed, and none of whose executions is repeated, was executed once.
pub executions_once :
    (h : ℕ) (es : List Event) → ExecutedOnce es → executed h es ≡ true → executions h es ≡ 1
executions_once h [] o e = absurd (cc)
executions_once h (request_processed k t ∷ es) o e =
    ground (arith, executions_zero h es, executions_once h es)
executions_once h (_ ∷ es) o e = executions_once h es o e
