-- ===== src/Most/Status.antt =====
-- The status query of azero/contracts/most/lib.rs against the record of events.
use most_aleph_zero_bridge.Common.{ℕ, ◌%◌, ◌≡◌, true, false, List, u32_size, arith}
use most_aleph_zero_bridge.Most.Types.{
  State, Event, RequestStatus, pending, processed, request_hash_not_known,
}
use most_aleph_zero_bridge.Most.Query.{request_status}
use most_aleph_zero_bridge.Most.View.{bridge_events, bridge_view}
use most_aleph_zero_bridge.Most.Votes.{IsTallied, votes, executed}

-- What a status says of the events.
abbrev pub Reports : ℕ → List Event → RequestStatus → Type 0
Reports h es processed = executed h es ≡ true
Reports h es (pending n) = (executed h es ≡ false) × (n ≡ votes h es % u32_size)
Reports h es request_hash_not_known = (executed h es ≡ false) × (votes h es ≡ 0)

-- In a state whose books agree with its events the status query reports `Processed` for the
-- executed requests only, and for the others the number of votes modulo 2^32, or that the hash is
-- not known, in which case there are no votes.
pub request_status-Reports :
    {W : Type 0} (s : State W) (h : ℕ)
    → IsTallied (bridge_view s)
    → Reports h (bridge_events s.events) (request_status s.self h)
unfolding request_status
request_status-Reports s h v = ground (arith, v.counted h, v.finished h)
