-- ===== src/Most/Sending.antt =====
-- What `send_request` of azero/contracts/most/lib.rs promises.
use mathlib.Core.Path.{subst}
use most_aleph_zero_bridge.Most.Money.{
  Burnt, PaidBack, burn_from-Burnt, book_request-world, return_surplus-PaidBack,
}
use most_aleph_zero_bridge.Common.{
  Outcome-cases, sym, ℕ, ◌+◌, ◌≤◌, ◌<◌, ◌≡◌, ◌≢◌, number_key, some, false, Option-cases,
  Result-cases, inl, inr, reverts, traps, Outcome, ◌>>=◌, ◌∷◌, ok, insert, Env, returns, arith,
  checked_add, u128_size,
}
use most_aleph_zero_bridge.Most.Types.{Data, State, Most, crosschain_transfer_request, Event}
use most_aleph_zero_bridge.Most.Chain.{Chain, Call, emit_event}
use most_aleph_zero_bridge.Most.Query.{
  get_collected_committee_rewards, ensure_not_halted, is_halted, read_data,
}
use most_aleph_zero_bridge.Most.Fee.{get_base_fee}
use most_aleph_zero_bridge.Most.Bridge.{send_request, burn_from, book_request, return_surplus}

-- A message that returns has left the storage and the events alone.
abbrev pub Keeps : {E W A : Type 0} → State W → Outcome E (State W) A → Type 0
Keeps s (returns a t) = (t.self ≡ s.self) × (t.events ≡ s.events)
Keeps s (reverts e) = Unit
Keeps s traps = Unit

-- The parts of `send_request`.
module _ (chain : Chain) where
  pub burn_from-Keeps :
      (token from amount : ℕ) (env : Env) (s : State (chain.World))
      → Keeps s (burn_from chain token from amount env s)
  unfolding burn_from
  burn_from-Keeps token from amount env s = ground arith

  pub return_surplus-Keeps :
      (sender paid fee : ℕ) (env : Env) (s : State (chain.World))
      → Keeps s (return_surplus chain sender paid fee env s)
  unfolding return_surplus
  return_surplus-Keeps sender paid fee env s = ground arith

module _ (chain : Chain) (env : Env) (s : State (chain.World)) where
  abbrev pub booked : Data → ℕ → Most
  booked d fee = record (s.self) {
    lazy_data = some (record d { request_nonce = d.request_nonce + 1 });
    collected_committee_rewards =
        insert s.collected_committee_rewards d.committee_id
          (get_collected_committee_rewards s.self d.committee_id + fee);
  }

  pub record Sent (src amount dest : ℕ) (t : State (chain.World)) : Type 0 where
    pub before : Data
    pub dest_token : ℕ
    pub fee : ℕ
    pub stored : s.lazy_data ≡ some before
    pub running : before.is_halted ≡ false
    pub receiver_given : dest ≢ 0
    pub amount_given : 0 < amount
    pub supported : s.supported_pairs src ≡ some dest_token
    pub priced : get_base_fee chain env s ≡ ok fee
    pub paid : fee ≤ env.transferred_value
    pub after_burn : chain.World
    pub tokens_burnt : Burnt chain env src amount s.world after_burn
    pub paid_back : PaidBack chain env fee after_burn t.world
    pub self_after : t.self ≡ booked before fee
    pub nonce_fits : before.request_nonce + 1 < u128_size
    pub announced :
        t.events
        ≡ crosschain_transfer_request (record {
          committee_id = before.committee_id;
          dest_token_address = dest_token;
          amount = amount;
          dest_receiver_address = dest;
          request_nonce = before.request_nonce;
        })
          ∷ s.events

  abbrev Books :
      Data → ℕ → State (chain.World) → {E A : Type 0} → Outcome E (State (chain.World)) A → Type 0
  Books d fee u (returns a t) =
      u.lazy_data ≡ some d
      → u.self ≡ s.self
      → (t.self ≡ booked d fee) × (t.events ≡ u.events) × (d.request_nonce + 1 < u128_size)
  Books d fee u (reverts e) = Unit
  Books d fee u traps = Unit

  book_request-Books :
      (d : Data) (fee : ℕ) (u : State (chain.World))
      → Books d fee u (book_request chain d fee env u)
  unfolding book_request checked_add
  book_request-Books d fee u = ground arith

  abbrev announcement : Data → ℕ → ℕ → ℕ → Event
  announcement d token amount dest = crosschain_transfer_request (record {
    committee_id = d.committee_id;
    dest_token_address = token;
    amount = amount;
    dest_receiver_address = dest;
    request_nonce = d.request_nonce;
  })

  -- What follows the checks.
  abbrev settle : Data → ℕ → ℕ → ℕ → ℕ → ℕ → Call chain (Unit {0})
  settle d src token amount dest fee = burn_from chain src env.caller amount >>= λ _.
      book_request chain d fee >>= λ _.
      return_surplus chain env.caller env.transferred_value fee >>= λ _.
      emit_event chain (announcement d token amount dest)

  settle-booked :
      (d : Data) (src token amount dest fee : ℕ) {t : State (chain.World)}
      → s.lazy_data ≡ some d
      → settle d src token amount dest fee env s ≡ returns tt t
      → (t.self ≡ booked d fee)
        × (t.events ≡ announcement d token amount dest ∷ s.events)
        × (d.request_nonce + 1 < u128_size)
  settle-booked d src token amount dest fee st h =
      grind (arith, burn_from-Keeps, book_request-Books, return_surplus-Keeps)

  -- The money of what follows the checks.
  settle-money :
      (d : Data) (src token amount dest fee : ℕ) {t : State (chain.World)}
      → fee ≤ env.transferred_value
      → settle d src token amount dest fee env s ≡ returns tt t
      → (w : chain.World) × Burnt chain env src amount s.world w × PaidBack chain env fee w t.world
  settle-money d src token amount dest fee {t} enough h =
      elim (Outcome-cases (burn_from chain src env.caller amount env s)) [
        | inl (_, u, burnt) ↦ elim (Outcome-cases (book_request chain d fee env u)) [
          | inl (_, v, booking) ↦
              elim (Outcome-cases
                (return_surplus chain env.caller env.transferred_value fee env v)) [
                  | inl (_, x, back) ↦
                      let same : v.world ≡ u.world =
                        book_request-world chain env d fee u v booking in
                      let last : x.world ≡ t.world = ground arith in
                      (
                        v.world,
                        subst (Burnt chain env src amount s.world) (sym same)
                            (burn_from-Burnt chain env src amount s u burnt),
                        subst (PaidBack chain env fee v.world) last
                            (return_surplus-PaidBack chain env fee v x enough back),
                      )
                  | inr failed ↦ absurd (ground arith)
                ]
          | inr failed ↦ absurd (ground arith)
        ]
        | inr failed ↦ absurd (ground arith)
      ]

  module _ (src amount dest : ℕ) {t : State (chain.World)}
      (h : send_request chain src amount dest env s ≡ returns tt t) where
    Sent-priced :
        (d : Data) (token fee : ℕ)
        → s.lazy_data ≡ some d
        → s.supported_pairs src ≡ some token
        → get_base_fee chain env s ≡ ok fee
        → Sent src amount dest t
    unfolding send_request read_data ensure_not_halted is_halted
    Sent-priced d token fee stored supported priced =
        let settled = settle-booked d src token amount dest fee {t = t} stored in
        let enough : fee ≤ env.transferred_value = ground arith in
        let (w, burnt, back) =
          settle-money d src token amount dest fee {t = t} enough (ground arith) in
        record {
          before = d;
          dest_token = token;
          fee = fee;
          stored = stored;
          running = ground arith;
          receiver_given = ground arith;
          amount_given = ground arith;
          supported = supported;
          priced = priced;
          paid = enough;
          after_burn = w;
          tokens_burnt = burnt;
          paid_back = back;
          self_after = ground (arith, settled);
          nonce_fits = ground (arith, settled);
          announced = ground (arith, settled);
        }

    -- A request that `send_request` accepts was sent while the bridge was running, with a receiver,
    -- a positive amount, a supported token and a payment of at least the base fee; the fee is
    -- booked for the current committee, the next nonce is taken, and exactly this request is
    -- announced. The amount of tokens was taken from the sender and burnt, and then what was paid above
    -- the fee went back to the sender.
    pub send_request-Sent : Sent src amount dest t
    unfolding send_request read_data
    send_request-Sent = elim (Option-cases s.lazy_data) [
      | inl e ↦ ground arith
      | inr (d, stored) ↦ elim (Option-cases (s.supported_pairs src)) [
        | inl e ↦ ground arith
        | inr (token, supported) ↦ elim (Result-cases (get_base_fee chain env s)) [
          | inl (fee, priced) ↦ Sent-priced d token fee stored supported priced
          | inr (e, failed) ↦ ground arith
        ]
      ]
    ]
