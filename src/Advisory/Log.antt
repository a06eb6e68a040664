-- ===== src/Advisory/Log.antt =====
-- The events of azero/contracts/advisory/lib.rs tell its whole state, along every history.
use most_aleph_zero_bridge.Common.{
  ℕ, suc, ◌+◌, ◌≡◌, ◌≢◌, refl, ◌==◌, if◌then◌else◌, Bool, false, List, [], ◌∷◌, Env, after, arith,
}
use most_aleph_zero_bridge.Advisory.{
  AdvisoryState, AdvisoryEvent, emergency_changed, ownership_transferred, AdvisoryMessage, new,
  set_emergency, transfer_ownership, is_emergency, owner, ensure_owner,
}

pub data AdvisoryCall : Type 0 where
  sets_emergency : Bool → AdvisoryCall
  transfers_ownership : ℕ → AdvisoryCall

pub run_call : AdvisoryCall → AdvisoryMessage
run_call (sets_emergency new_state) = set_emergency new_state
run_call (transfers_ownership new_owner) = transfer_ownership new_owner

pub run : AdvisoryState → List (Env × AdvisoryCall) → AdvisoryState
run s [] = s
run s ((env, c) ∷ calls) = run (after (run_call c env s) s) calls

-- The events, newest first, lead from an owner `o₀` and no emergency to a flag and an owner: each
-- change of the flag is a change, made by the owner of that moment.
abbrev pub LeadsTo : ℕ → Bool → ℕ → List AdvisoryEvent → Type 0
LeadsTo o₀ flag o [] = (flag ≡ false) × (o ≡ o₀)
LeadsTo o₀ flag o (emergency_changed previous next caller ∷ es) =
    (next ≡ flag) × (previous ≢ next) × (caller ≡ o) × LeadsTo o₀ previous o es
LeadsTo o₀ flag o (ownership_transferred previous next ∷ es) =
    (next ≡ o) × LeadsTo o₀ flag previous es

abbrev pub IsLogged : ℕ → AdvisoryState → Type 0
IsLogged o₀ s = LeadsTo o₀ (is_emergency s.self) (owner s.self) s.events

run_call-IsLogged :
    (o₀ : ℕ) (c : AdvisoryCall) (env : Env) (s : AdvisoryState)
    → IsLogged o₀ s
    → IsLogged o₀ (after (run_call c env s) s)
unfolding run_call set_emergency transfer_ownership is_emergency owner
run_call-IsLogged o₀ (sets_emergency b) env s h = ground arith
run_call-IsLogged o₀ (transfers_ownership n) env s h = ground arith

run-IsLogged :
    (o₀ : ℕ) (s : AdvisoryState) (calls : List (Env × AdvisoryCall))
    → IsLogged o₀ s
    → IsLogged o₀ (run s calls)
unfolding run
run-IsLogged o₀ s [] h = h
run-IsLogged o₀ s ((env, c) ∷ calls) h =
    run-IsLogged o₀ (after (run_call c env s) s) calls (run_call-IsLogged o₀ c env s h)

-- The owner and the flag after these calls, from these at their start: the calls that count are
-- those that the owner of the moment makes.
abbrev pub last_owner : ℕ → List (Env × AdvisoryCall) → ℕ
last_owner o [] = o
last_owner o ((env, sets_emergency new_state) ∷ calls) = last_owner o calls
last_owner o ((env, transfers_ownership new_owner) ∷ calls) =
    last_owner (if env.caller == o then new_owner else o) calls

abbrev pub last_emergency : ℕ → Bool → List (Env × AdvisoryCall) → Bool
last_emergency o flag [] = flag
last_emergency o flag ((env, sets_emergency new_state) ∷ calls) =
    last_emergency o (if env.caller == o then new_state else flag) calls
last_emergency o flag ((env, transfers_ownership new_owner) ∷ calls) =
    last_emergency (if env.caller == o then new_owner else o) flag calls

-- How often an owner handed the contract over, and how many of the events say so.
abbrev pub handovers : ℕ → List (Env × AdvisoryCall) → ℕ
handovers o [] = 0
handovers o ((env, sets_emergency new_state) ∷ calls) = handovers o calls
handovers o ((env, transfers_ownership new_owner) ∷ calls) =
    if env.caller == o then suc (handovers new_owner calls) else handovers o calls

abbrev pub announced_handovers : List AdvisoryEvent → ℕ
announced_handovers [] = 0
announced_handovers (emergency_changed previous next caller ∷ es) = announced_handovers es
announced_handovers (ownership_transferred previous next ∷ es) = suc (announced_handovers es)

run-follows_owner :
    (s : AdvisoryState) (calls : List (Env × AdvisoryCall))
    → (owner (run s calls).self ≡ last_owner (owner s.self) calls)
      × (is_emergency (run s calls).self
          ≡ last_emergency (owner s.self) (is_emergency s.self) calls)
      × (announced_handovers (run s calls).events
          ≡ handovers (owner s.self) calls + announced_handovers s.events)
unfolding run run_call set_emergency transfer_ownership ensure_owner is_emergency owner
run-follows_owner s [] = (refl, refl, omega arith)
run-follows_owner s ((env, sets_emergency b) ∷ calls) =
    ground (arith, run-follows_owner (after (run_call (sets_emergency b) env s) s) calls)
run-follows_owner s ((env, transfers_ownership n) ∷ calls) =
    ground (arith, run-follows_owner (after (run_call (transfers_ownership n) env s) s) calls)

-- From its construction on, along every history of calls by any accounts, the contract's events
-- determine its emergency flag and owner, and every announced change of the flag is one, made by
-- the owner of that moment. The owner and the flag are those that the calls of the owners of the
-- moment leave, all others being refused, and as many handovers are announced as these owners made.
pub advisory-IsLogged :
    (o₀ : ℕ) (calls : List (Env × AdvisoryCall))
    → let t = run (record { self = new o₀; events = [] }) calls in
      IsLogged o₀ t
      × (owner t.self ≡ last_owner o₀ calls)
      × (is_emergency t.self ≡ last_emergency o₀ false calls)
      × (announced_handovers t.events ≡ handovers o₀ calls)
unfolding new is_emergency owner
advisory-IsLogged o₀ calls =
    let made : AdvisoryState = record { self = new o₀; events = [] } in
    let follows = run-follows_owner made calls in
    (run-IsLogged o₀ made calls (ground arith), follows.0, follows.1, omega (arith, follows.2))
