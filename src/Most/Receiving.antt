-- ===== src/Most/Receiving.antt =====
-- What `receive_request` of azero/contracts/most/lib.rs does, case by case.
use most_aleph_zero_bridge.Common.{
  ℕ, ◌+◌, ◌≤◌, ◌<◌, ◌≡◌, inl, inr, true, false, none, some, ◌∷◌, number_key, pair_key, insert,
  remove, contains, unwrap_or, checked_add, Env, returns, after, arith, Bool-cases, Option-cases,
  Outcome-cases, ok, err, leb, if◌then◌else◌,
}
use most_aleph_zero_bridge.Shared.{hash_request_data}
use most_aleph_zero_bridge.Most.Types.{
  Data, State, request_processed, request_signed, signed_processed_request, request_already_signed,
}
use most_aleph_zero_bridge.Most.Chain.{Chain}
use most_aleph_zero_bridge.Most.Query.{
  read_data, ensure_not_halted, is_halted, only_committee_member, is_in_committee,
}
use most_aleph_zero_bridge.Most.Bridge.{
  receive_request, sign_request, execute_request, mint_to, send_pocket_money,
}

module _ (chain : Chain) (hash committee token amount dest nonce : ℕ) (env : Env)
    (s : State (chain.World)) where
  -- Whatever its outcome, a vote leaves the committee sizes, the fees collected, the rewards paid
  -- and the stored data alone. The pocket money balance is part of that data, so it is not lowered
  -- when pocket money is sent.
  pub receive_request-keeps :
      ((after (receive_request chain hash committee token amount dest nonce env s) s).lazy_data
        ≡ s.lazy_data)
      × ((after
            (receive_request chain hash committee token amount dest nonce env s)
            s).committee_sizes
          ≡ s.committee_sizes)
      × ((after
            (receive_request chain hash committee token amount dest nonce env s)
            s).collected_committee_rewards
          ≡ s.collected_committee_rewards)
      × ((after
            (receive_request chain hash committee token amount dest nonce env s)
            s).paid_out_member_rewards
          ≡ s.paid_out_member_rewards)
  unfolding receive_request sign_request execute_request mint_to send_pocket_money
  receive_request-keeps = ground arith

  -- The votes for the hash with this one.
  abbrev pub tally : ℕ
  tally = (unwrap_or (s.pending_requests hash) (record { signature_count = 0 })).signature_count + 1

  -- The world once the receiver got its pocket money, if the balance allows and the transfer works.
  abbrev pub with_pocket_money : Data → chain.World → chain.World
  with_pocket_money d w =
      if leb d.pocket_money d.pocket_money_balance
      then elim (chain.transfer env.account_id dest d.pocket_money w) [ ok paid ↦ paid | err e ↦ w ]
      else w

  -- How a call that returns has ended.
  pub data Received (t : State (chain.World)) : Type 0 where
    was_processed :
        contains s.processed_requests hash ≡ true
        → t ≡ record s { events = signed_processed_request hash env.caller ∷ s.events }
        → Received t
    was_signed :
        contains s.processed_requests hash ≡ false
        → contains s.signatures (hash, env.caller) ≡ true
        → t ≡ record s { events = request_already_signed hash env.caller ∷ s.events }
        → Received t
    was_counted :
        (d : Data) (threshold : ℕ)
        → contains s.processed_requests hash ≡ false
        → contains s.signatures (hash, env.caller) ≡ false
        → hash ≡ hash_request_data chain.keccak256 committee token amount dest nonce
        → s.lazy_data ≡ some d
        → s.signature_thresholds d.committee_id ≡ some threshold
        → tally < threshold
        → t ≡ record s {
          self = record (s.self) {
            signatures = insert s.signatures (hash, env.caller) tt;
            pending_requests = insert s.pending_requests hash (record { signature_count = tally });
          };
          events = request_signed hash env.caller ∷ s.events;
        }
        → Received t
    was_executed :
        (d : Data) (threshold : ℕ) (w : chain.World)
        → contains s.processed_requests hash ≡ false
        → contains s.signatures (hash, env.caller) ≡ false
        → hash ≡ hash_request_data chain.keccak256 committee token amount dest nonce
        → s.lazy_data ≡ some d
        → s.signature_thresholds d.committee_id ≡ some threshold
        → threshold ≤ tally
        → chain.psp22_mint env.account_id token dest amount s.world ≡ returns tt w
        → t.self ≡ record (s.self) {
          signatures = insert s.signatures (hash, env.caller) tt;
          processed_requests = insert s.processed_requests hash tt;
          pending_requests = remove s.pending_requests hash;
        }
        → t.world ≡ with_pocket_money d w
        → t.events ≡ request_processed hash token ∷ request_signed hash env.caller ∷ s.events
        → Received t

  module _ {t : State (chain.World)}
      (h : receive_request chain hash committee token amount dest nonce env s ≡ returns tt t) where
    -- A vote that returns came from a member of the committee that it names, while the bridge was
    -- running.
    pub receive_request-admits :
        (is_in_committee s.self committee env.caller ≡ true)
        × (is_halted {E = chain.PSP22Error} s.self ≡ ok false)
    unfolding receive_request only_committee_member ensure_not_halted
    receive_request-admits = ground arith

    -- A vote that is neither for a processed request nor a repeated one.
    new_vote-Received :
        (d : Data) (threshold : ℕ)
        → s.lazy_data ≡ some d
        → contains s.processed_requests hash ≡ false
        → contains s.signatures (hash, env.caller) ≡ false
        → s.signature_thresholds d.committee_id ≡ some threshold
        → Received t
    unfolding receive_request read_data sign_request execute_request mint_to send_pocket_money
        checked_add
    new_vote-Received d threshold stored new unsigned required =
        elim (Bool-cases (leb threshold tally)) [
          | inl quorum ↦
              elim (Outcome-cases (chain.psp22_mint env.account_id token dest amount s.world)) [
                | inl (_, w, minted) ↦
                    was_executed d threshold w new unsigned (ground arith) stored required
                      (ground arith) minted (ground arith) (ground arith) (ground arith)
                | inr failed ↦ ground arith
              ]
          | inr short ↦
              was_counted d threshold new unsigned (ground arith) stored required (ground arith)
                (ground arith)
        ]

    missing_threshold :
        (d : Data)
        → s.lazy_data ≡ some d
        → contains s.processed_requests hash ≡ false
        → contains s.signatures (hash, env.caller) ≡ false
        → s.signature_thresholds d.committee_id ≡ none
        → ⊥
    unfolding receive_request read_data sign_request
    missing_threshold d stored new unsigned missing = ground arith

    -- A vote that returns was for a processed request, was a repeated one, was counted below the
    -- threshold, or reached it and executed the request; each case has the conditions under which
    -- it is taken, and the whole state and the world that it leaves.
    pub receive_request-Received : Received t
    unfolding receive_request read_data
    receive_request-Received = elim (Option-cases s.lazy_data) [
      | inl e ↦ ground arith
      | inr (d, stored) ↦ elim (Bool-cases (contains s.processed_requests hash)) [
        | inl old ↦ was_processed old (ground arith)
        | inr new ↦ elim (Bool-cases (contains s.signatures (hash, env.caller))) [
          | inl signed ↦ was_signed new signed (ground arith)
          | inr unsigned ↦ elim (Option-cases (s.signature_thresholds d.committee_id)) [
            | inl missing ↦ absurd (missing_threshold d stored new unsigned missing)
            | inr (threshold, required) ↦ new_vote-Received d threshold stored new unsigned required
          ]
        ]
      ]
    ]
