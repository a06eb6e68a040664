-- ===== src/Relayer/Polling/Ends.antt =====
-- When the loops of relayer/relayer/src/listeners/azero.rs and eth.rs that ask again come to an end.
use most_aleph_zero_bridge.Common.{
  ℕ, zero, suc, ◌≤◌, ◌<◌, ◌≡◌, ◌≢◌, ◌⊎◌, ◌↔◌, inl, inr, refl, none, some, List, [], ◌∷◌, All,
  u32_size, arith, Bool-cases, leb,
}
use most_aleph_zero_bridge.Relayer.Polling.{
  Verdict, again, finished, panicked, poll_until, AzeroHead, azero_head, azero_head_turn,
  get_next_finalized_block_number_azero, EthHead, eth_head, eth_head_turn,
  get_next_finalized_block_number_eth, Transaction, get_error, not_found, found, transaction_turn,
  Told, of_head, of_transaction, wait_for_eth_tx_finality,
}

-- The first answers of a node that is asked again and again.
abbrev pub asked : {Answer : Type 0} → (ℕ → Answer) → ℕ → List Answer
asked node zero = []
asked node (suc n) = node 0 ∷ asked (λ i. node (suc i)) n

Verdict-cases :
    {A : Type 0} (v : Verdict A) → (v ≡ again) ⊎ ((a : A) × (v ≡ finished a)) ⊎ (v ≡ panicked)
Verdict-cases again = inl refl
Verdict-cases (finished a) = inr (inl (a, refl))
Verdict-cases panicked = inr (inr refl)

-- A loop that meets an answer that ends it, and none before that panics, ends with what some answer
-- led to.
poll_until-ends :
    {Answer A : Type 0} (P : A → Type 0) (body : Answer → Verdict A) (node : ℕ → Answer) (k : ℕ)
    → ((answer : Answer) (a : A) → body answer ≡ finished a → P a)
    → (a : A) → body (node k) ≡ finished a
    → ((j : ℕ) → j < k → body (node j) ≢ panicked)
    → (b : A) × (poll_until body (asked node (suc k)) ≡ finished b) × P b
unfolding poll_until
poll_until-ends P body node zero good a e calm = (a, ground arith, good (node 0) a e)
poll_until-ends P body node (suc k) good a e calm = elim (Verdict-cases (body (node 0))) [
  | inl more ↦
      let (b, rest, p) =
        poll_until-ends P body (λ i. node (suc i)) k good a e (λ j l. calm (suc j) (omega arith)) in
      (b, ground arith, p)
  | inr (inl (b, done)) ↦ (b, ground arith, good (node 0) b done)
  | inr (inr lost) ↦ absurd (calm 0 (omega arith) lost)
]

azero_head_turn-finished :
    (low : ℕ) (answer : AzeroHead) (b : ℕ) → azero_head_turn low answer ≡ finished b → low ≤ b
unfolding azero_head_turn
azero_head_turn-finished low answer b e = ground arith

azero_head_turn-panics :
    (low : ℕ) (answer : AzeroHead)
    → answer ≢ AzeroHead.no_number
    → azero_head_turn low answer ≢ panicked
unfolding azero_head_turn
azero_head_turn-panics low answer numbered e = ground arith

-- An answer to the question for the finalized block that makes the loop for Ethereum panic.
abbrev pub IsFatal : EthHead → Type 0
IsFatal (eth_head n) = u32_size ≤ n
IsFatal EthHead.no_number = Unit {0}
IsFatal _ = ⊥

eth_head_turn-finished :
    (low : ℕ) (answer : EthHead) (b : ℕ) → eth_head_turn low answer ≡ finished b → low ≤ b
unfolding eth_head_turn
eth_head_turn-finished low answer b e = ground arith

eth_head_turn-panics :
    (low : ℕ) (answer : EthHead) → (IsFatal answer → ⊥) → eth_head_turn low answer ≢ panicked
unfolding eth_head_turn
eth_head_turn-panics low EthHead.client_error h e = ground arith
eth_head_turn-panics low EthHead.no_block h e = ground arith
eth_head_turn-panics low EthHead.no_number h e = h tt
eth_head_turn-panics low (eth_head n) h e = ground arith

-- The loop for the next finalized block of Aleph Zero ends, whatever errors and older blocks came
-- before: if at some turn the node names a block that is not older than asked for, and at no turn
-- before a finalized block lacks its number, then after that turn the loop has returned a block
-- that is not older than asked for.
pub azero_head-found :
    (not_older_than : ℕ) (node : ℕ → AzeroHead) (k best : ℕ)
    → node k ≡ azero_head best
    → not_older_than ≤ best
    → ((j : ℕ) → j < k → node j ≢ AzeroHead.no_number)
    → (b : ℕ) × (get_next_finalized_block_number_azero not_older_than (asked node (suc k))
        ≡ finished b)
      × (not_older_than ≤ b)
unfolding get_next_finalized_block_number_azero azero_head_turn
azero_head-found low node k best e enough calm =
    poll_until-ends (λ b. low ≤ b) (azero_head_turn low) node k (azero_head_turn-finished low) best
      (rw e (ground arith)) (λ j l. azero_head_turn-panics low (node j) (calm j l))

-- The loop for the next finalized block of Ethereum ends, whatever errors and older blocks came
-- before: if at some turn the node names a block that is not older than asked for and whose number
-- has 32 bits, and at no turn before a finalized block lacks its number or has a larger one, then
-- after that turn the loop has returned a block that is not older than asked for.
pub eth_head-found :
    (not_older_than : ℕ) (node : ℕ → EthHead) (k best : ℕ)
    → node k ≡ eth_head best
    → best < u32_size
    → not_older_than ≤ best
    → ((j : ℕ) → j < k → IsFatal (node j) → ⊥)
    → (b : ℕ) × (get_next_finalized_block_number_eth not_older_than (asked node (suc k))
        ≡ finished b)
      × (not_older_than ≤ b)
unfolding get_next_finalized_block_number_eth eth_head_turn
eth_head-found low node k best e small enough calm =
    poll_until-ends (λ b. low ≤ b) (eth_head_turn low) node k (eth_head_turn-finished low) best
      (rw e (ground arith)) (λ j l. eth_head_turn-panics low (node j) (calm j l))

-- One round of `wait_for_eth_tx_finality`: the heads that did not do, the head that did, and what
-- the node says of the transaction.
pub record Round : Type 0 where
  pub refused : List EthHead
  pub head : ℕ
  pub transaction : Transaction

abbrev pub told_heads : List EthHead → List Told → List Told
told_heads [] rest = rest
told_heads (h ∷ hs) rest = of_head h ∷ told_heads hs rest

-- What the loop is told in these rounds.
abbrev pub told_in : List Round → List Told
told_in [] = []
told_in (r ∷ rs) =
    told_heads r.refused (of_head (eth_head r.head) ∷ of_transaction r.transaction ∷ told_in rs)

-- No answer of the round panics: the heads have numbers of 32 bits, and the transaction is known.
pub record IsCalm (r : Round) : Type 0 where
  pub errors : All (λ h. (h ≡ EthHead.client_error) ⊎ (h ≡ EthHead.no_block)) r.refused
  pub small : r.head < u32_size
  pub known : r.transaction ≢ not_found

-- The transaction is in a block that the round's head has reached.
abbrev pub IsFinal : Round → Type 0
IsFinal r = (b : ℕ) × (r.transaction ≡ found (some b)) × (b ≤ r.head)

abbrev pub AnyFinal : List Round → Type 0
AnyFinal [] = ⊥
AnyFinal (r ∷ rs) = IsFinal r ⊎ AnyFinal rs

told_heads-skip :
    (hs : List EthHead) (rest : List Told)
    → All (λ h. (h ≡ EthHead.client_error) ⊎ (h ≡ EthHead.no_block)) hs
    → wait_for_eth_tx_finality none (told_heads hs rest) ≡ wait_for_eth_tx_finality none rest
unfolding wait_for_eth_tx_finality eth_head_turn
told_heads-skip [] rest h = refl
told_heads-skip (x ∷ xs) rest (inl e, h) = rw e (told_heads-skip xs rest h)
told_heads-skip (x ∷ xs) rest (inr e, h) = rw e (told_heads-skip xs rest h)

round_iff :
    (n : ℕ) (tx : Transaction) (rest : List Told)
    → n < u32_size
    → tx ≢ not_found
    → (wait_for_eth_tx_finality none (of_head (eth_head n) ∷ of_transaction tx ∷ rest)
        ≡ finished tt)
      ↔ (((b : ℕ) × (tx ≡ found (some b)) × (b ≤ n))
          ⊎ (wait_for_eth_tx_finality none rest ≡ finished tt))
unfolding wait_for_eth_tx_finality eth_head_turn transaction_turn
round_iff n get_error rest small known = ground arith
round_iff n not_found rest small known = absurd (known refl)
round_iff n (found none) rest small known = ground arith
round_iff n (found (some b)) rest small known = elim (Bool-cases (leb b n)) [
  | inl reached ↦ (λ e. inl (b, refl, ground arith), λ e. ground arith)
  | inr above ↦ ground arith
]

-- The wait for the finality of a transaction ends exactly if in some round the node shows it in a
-- block that is not above the finalized head of that round, provided that no answer makes the loop
-- panic.
pub wait_for_eth_tx_finality_iff :
    (rounds : List Round)
    → All IsCalm rounds
    → (wait_for_eth_tx_finality none (told_in rounds) ≡ finished tt) ↔ AnyFinal rounds
unfolding wait_for_eth_tx_finality
wait_for_eth_tx_finality_iff [] h = (λ e. absurd (cc), λ e. absurd e)
wait_for_eth_tx_finality_iff (r ∷ rs) h = rw (told_heads-skip r.refused _ (h.0.errors)) (
    ground (
      arith,
      round_iff r.head r.transaction (told_in rs) (h.0.small) (h.0.known),
      wait_for_eth_tx_finality_iff rs h.1,
    ))
