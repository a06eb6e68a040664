-- ===== src/Token/Announcements.antt =====
-- What the handover events of azero/contracts/token/lib.rs tell.
use most_aleph_zero_bridge.Common.{
  inr, inl, ◌++◌, ◌≢◌, none, some, All, All-map, ap, Result-cases, ◌∙◌, ℕ, ◌+◌, ◌≡◌, refl, List, [],
  ◌∷◌, Env, Result, after, arith,
}
use most_aleph_zero_bridge.Ownable
use most_aleph_zero_bridge.Ownable.Handover.{IsOutsider}
use most_aleph_zero_bridge.Token
use most_aleph_zero_bridge.Token.{
  Psp22, Psp22Event, transfer, approval, TokenState, TokenEvent, transferred, approved,
  transfer_ownership_initiated, transfer_ownership_accepted, emitted,
}
use most_aleph_zero_bridge.Token.Minting.{
  TokenCall, sets_minter_burner, transfers_tokens, transfers_from, approves, increases_allowance,
  decreases_allowance, mints, burns, transfers_ownership, accepts_ownership, step, run,
}

-- The events of each of the two kinds.
abbrev pub initiations : List TokenEvent → ℕ
initiations [] = 0
initiations (transfer_ownership_initiated a ∷ es) = initiations es + 1
initiations (_ ∷ es) = initiations es

abbrev pub acceptances : List TokenEvent → ℕ
acceptances [] = 0
acceptances (transfer_ownership_accepted a ∷ es) = acceptances es + 1
acceptances (_ ∷ es) = acceptances es

acceptances-emitted :
    (new : List Psp22Event) (es : List TokenEvent) → acceptances (emitted new es) ≡ acceptances es
unfolding emitted
acceptances-emitted [] es = refl
acceptances-emitted (transfer from to value ∷ rest) es =
    acceptances-emitted rest (transferred from to value ∷ es)
acceptances-emitted (approval owner spender amount ∷ rest) es =
    acceptances-emitted rest (approved owner spender amount ∷ es)

module _ (psp22 : Psp22) where
  open psp22 use {Data}

  changes-acceptances :
      (f : ℕ → Data → Result (psp22.Error) (List Psp22Event × Data)) (env : Env)
      (s : TokenState Data)
      → acceptances ((after (Token.changes psp22 f env s) s).events) ≡ acceptances s.events
  unfolding Token.changes
  changes-acceptances f env s = elim (Result-cases (f env.caller s.self.psp22_data)) [
    | inl (a, e) ↦ rw e (acceptances-emitted (a.0) s.events)
    | inr (_, e) ↦ rw e refl
  ]

  step-acceptances :
      (s : TokenState Data) (c : Env × TokenCall)
      → acceptances ((step psp22 s c).events) ≡ acceptances s.events
  unfolding step Token.set_minter_burner Token.ensure_owner Token.mint Token.burn
      Token.transfer_ownership Token.accept_ownership Token.token_transfer Token.transfer_from
      Token.approve Token.increase_allowance Token.decrease_allowance Token.ensure_minter
      Token.ensure_burner
  step-acceptances s (env, sets_minter_burner a) = ground arith
  step-acceptances s (env, transfers_tokens to value) =
      changes-acceptances (λ caller. psp22.transfer caller to value) env s
  step-acceptances s (env, transfers_from from to value) =
      changes-acceptances (λ caller. psp22.transfer_from caller from to value) env s
  step-acceptances s (env, approves spender value) =
      changes-acceptances (λ caller. psp22.approve caller spender value) env s
  step-acceptances s (env, increases_allowance spender delta) =
      changes-acceptances (λ caller. psp22.increase_allowance caller spender delta) env s
  step-acceptances s (env, decreases_allowance spender delta) =
      changes-acceptances (λ caller. psp22.decrease_allowance caller spender delta) env s
  step-acceptances s (env, mints to value) =
      ground (arith, changes-acceptances (λ _. psp22.mint to value) env s)
  step-acceptances s (env, burns value) =
      ground (arith, changes-acceptances (λ caller. psp22.burn caller value) env s)
  step-acceptances s (env, transfers_ownership a) = ground arith
  step-acceptances s (env, accepts_ownership) = ground arith

  run-acceptances :
      (s : TokenState Data) (calls : List (Env × TokenCall))
      → acceptances ((run psp22 s calls).events) ≡ acceptances s.events
  unfolding run
  run-acceptances s [] = refl
  run-acceptances s (c ∷ calls) = run-acceptances (step psp22 s c) calls ∙ step-acceptances s c

  -- A call that changes neither the owners nor the count of handovers announced as initiated.
  abbrev Quiet : TokenState Data → TokenState Data → Type 0
  Quiet s t =
      (t.self.ownable_data ≡ s.self.ownable_data) × (initiations t.events ≡ initiations s.events)

  initiations-emitted :
      (new : List Psp22Event) (es : List TokenEvent) → initiations (emitted new es) ≡ initiations es
  unfolding emitted
  initiations-emitted [] es = refl
  initiations-emitted (transfer from to value ∷ rest) es =
      initiations-emitted rest (transferred from to value ∷ es)
  initiations-emitted (approval owner spender amount ∷ rest) es =
      initiations-emitted rest (approved owner spender amount ∷ es)

  changes-Quiet :
      (f : ℕ → Data → Result (psp22.Error) (List Psp22Event × Data)) (env : Env)
      (s : TokenState Data)
      → Quiet s (after (Token.changes psp22 f env s) s)
  unfolding Token.changes
  changes-Quiet f env s = elim (Result-cases (f env.caller s.self.psp22_data)) [
    | inl (a, e) ↦ rw e (refl, initiations-emitted (a.0) s.events)
    | inr (_, e) ↦ rw e (refl, refl)
  ]

  -- Who is neither the owner nor the pending owner neither starts nor completes a handover.
  step-Quiet :
      (s : TokenState Data) (c : Env × TokenCall)
      → IsOutsider s.self.ownable_data c.0.caller
      → Quiet s (step psp22 s c)
  unfolding step Token.set_minter_burner Token.ensure_owner Token.mint Token.burn
      Token.transfer_ownership Token.accept_ownership Ownable.transfer_ownership
      Ownable.accept_ownership Ownable.ensure_owner Token.token_transfer Token.transfer_from
      Token.approve Token.increase_allowance Token.decrease_allowance Token.ensure_minter
      Token.ensure_burner
  step-Quiet s (env, sets_minter_burner a) h = ground arith
  step-Quiet s (env, transfers_tokens to value) h =
      changes-Quiet (λ caller. psp22.transfer caller to value) env s
  step-Quiet s (env, transfers_from from to value) h =
      changes-Quiet (λ caller. psp22.transfer_from caller from to value) env s
  step-Quiet s (env, approves spender value) h =
      changes-Quiet (λ caller. psp22.approve caller spender value) env s
  step-Quiet s (env, increases_allowance spender delta) h =
      changes-Quiet (λ caller. psp22.increase_allowance caller spender delta) env s
  step-Quiet s (env, decreases_allowance spender delta) h =
      changes-Quiet (λ caller. psp22.decrease_allowance caller spender delta) env s
  step-Quiet s (env, mints to value) h =
      ground (arith, changes-Quiet (λ _. psp22.mint to value) env s)
  step-Quiet s (env, burns value) h =
      ground (arith, changes-Quiet (λ caller. psp22.burn caller value) env s)
  step-Quiet s (env, transfers_ownership a) h = ground arith
  step-Quiet s (env, accepts_ownership) h = ground arith

  -- Calls of outsiders, and then the acceptance.
  accepted_later :
      (heir : Env) (calls : List (Env × TokenCall)) (s : TokenState Data)
      → s.self.ownable_data.pending_owner ≡ some heir.caller
      → All (λ c. IsOutsider s.self.ownable_data c.0.caller) calls
      → let t = run psp22 s (calls ++ ((heir, accepts_ownership) ∷ [])) in
        (t.self.ownable_data ≡ record { owner = heir.caller; pending_owner = none })
        × (initiations t.events ≡ initiations s.events + 1)
  unfolding run step Token.accept_ownership Ownable.accept_ownership
  accepted_later heir [] s pending calm = ground arith
  accepted_later heir (c ∷ calls) s pending calm =
      let quiet = step-Quiet s c calm.0 in
      let rest =
        accepted_later heir calls (step psp22 s c) (ground (arith, quiet))
          (rw (quiet.0) (calm.1)) in
      (rest.0, rest.1 ∙ ap (λ n. n + 1) quiet.1)

  nominated :
      (owner : Env) (heir : ℕ) (s : TokenState Data)
      → owner.caller ≡ s.self.ownable_data.owner
      → let t = step psp22 s (owner, transfers_ownership heir) in
        (t.self.ownable_data ≡ record { owner = owner.caller; pending_owner = some heir })
        × (initiations t.events ≡ initiations s.events + 1)
  unfolding step Token.transfer_ownership Ownable.transfer_ownership Ownable.ensure_owner
  nominated owner heir s own = ground arith

  -- A handover completes, and no `TransferOwnershipAccepted` event says so. Take any history in which
  -- the owner names an heir, accounts that are neither of the two make any calls, and the heir
  -- accepts. At its end the heir is the owner and nobody is pending, the history has no event of
  -- `TransferOwnershipAccepted`, and it has two of `TransferOwnershipInitiated`, the second of them
  -- for the acceptance.
  pub handovers_unannounced :
      (s : TokenState Data) (owner heir : Env) (calls : List (Env × TokenCall))
      → owner.caller ≡ s.self.ownable_data.owner
      → All (λ c. (c.0.caller ≢ owner.caller) × (c.0.caller ≢ heir.caller)) calls
      → let t = run psp22 s (
          (owner, transfers_ownership heir.caller) ∷ (calls ++ ((heir, accepts_ownership) ∷ []))) in
        (t.self.ownable_data ≡ record { owner = heir.caller; pending_owner = none })
        × (acceptances t.events ≡ acceptances s.events)
        × (initiations t.events ≡ initiations s.events + 2)
  unfolding run
  handovers_unannounced s owner heir calls own calm =
      let named = step psp22 s (owner, transfers_ownership heir.caller) in
      let start = nominated owner heir.caller s own in
      let accepted =
        accepted_later heir calls named (ground (arith, start))
          (All-map calls (λ c h. ground (arith, start)) calm) in
      (
        accepted.0,
        run-acceptances s (
            (owner, transfers_ownership heir.caller) ∷ (calls ++ ((heir, accepts_ownership) ∷ []))),
        omega (arith, accepted.1, start.1),
      )
