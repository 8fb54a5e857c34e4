-- ===== src/Toolbusd/RequestManager/Events.antt =====
-- toolbusd/src/request_manager.cpp: the events that `poll` reports of one request.
use remote_bsp.Prelude.{
  ℕ, zero, suc, ◌+◌, ◌/◌, ◌^◌, ◌≡◌, ◌<◌, ◌==◌, ltb, refl, ap, ◌∙◌, Bool, true, false, Option, none,
  some, List, [], ◌∷◌, ◌++◌, append-nil, All, if◌then◌else◌, arith,
}
use remote_bsp.Prelude.Map.{Map, find, assign, Distinct}
use remote_bsp.Toolbusd.RequestManager.{
  RequestManagerConfig, RequestEvent, retry, timed_out, Pending, RequestManager, key, header_key,
  poll_entries, poll, expire_completed,
}
use remote_bsp.Toolbusd.RequestManager.Allocate.{key-value}
use remote_bsp.Toolbusd.RequestManager.Valid.{IsValid}

-- The events that carry the session and request ids of a key.
abbrev pub events_of : ℕ → List RequestEvent → List RequestEvent
events_of k [] = []
events_of k (e ∷ events) =
    let rest = events_of k events in if key e.session_id e.request_id == k then e ∷ rest else rest

-- What there is to report of a request: nothing before its deadline, then that it is sent again, with
-- its packet, or that it has timed out.
abbrev pub report : ℕ → Pending → List RequestEvent
report now p = if ltb now p.deadline then [] else elim p.retries_remaining [
  | zero ↦
      record {
        event_type = timed_out;
        session_id = p.packet.header.session_id;
        request_id = p.packet.header.request_id;
        packet = none;
      }
      ∷ []
  | suc n ↦
      record {
        event_type = retry;
        session_id = p.packet.header.session_id;
        request_id = p.packet.header.request_id;
        packet = some p.packet;
      }
      ∷ []
]

abbrev pub report_option : ℕ → Option Pending → List RequestEvent
report_option now none = []
report_option now (some p) = report now p

-- An entry under the key of its header, with a request id of 32 bits.
abbrev Named : ℕ × Pending → Type 0
Named (k, p) = (header_key p.packet.header ≡ k) × (p.packet.header.request_id < 2 ^ 32)

abbrev completed_after : RequestManagerConfig → ℕ → ℕ → Pending → Map ℕ → Map ℕ
completed_after config now k p c =
    if ltb now p.deadline
    then c
    else elim p.retries_remaining [ zero ↦ assign k (now + config.duplicate_window) c | suc n ↦ c ]

session_of_key : (k : ℕ) (p : Pending) → Named (k, p) → k / 2 ^ 32 ≡ p.packet.header.session_id
session_of_key k p (same, small) =
    omega (arith, same, key-value p.packet.header.session_id p.packet.header.request_id small)

poll_entries-report :
    (config : RequestManagerConfig) (now k : ℕ) (p : Pending) (m : Map Pending) (c : Map ℕ)
    → Named (k, p)
    → (poll_entries config now ((k, p) ∷ m) c).2
      ≡ report now p ++ (poll_entries config now m (completed_after config now k p c)).2
unfolding poll_entries
poll_entries-report config now k p m c named = ground (arith, session_of_key k p named)

events_of-append :
    (k : ℕ) (xs ys : List RequestEvent) → events_of k (xs ++ ys) ≡ events_of k xs ++ events_of k ys
events_of-append k [] ys = refl
events_of-append k (e ∷ xs) ys = ground (arith, events_of-append k xs ys)

events_of-report :
    (k j now : ℕ) (p : Pending)
    → Named (j, p)
    → events_of k (report now p) ≡ (if j == k then report now p else [])
events_of-report k j now p named = ground (arith, named.0)

events_of-cons :
    (config : RequestManagerConfig) (now k j : ℕ) (p : Pending) (m : Map Pending) (c : Map ℕ)
    → Named (j, p)
    → events_of k (poll_entries config now ((j, p) ∷ m) c).2
      ≡ (if j == k then report now p else [])
        ++ events_of k (poll_entries config now m (completed_after config now j p c)).2
events_of-cons config now k j p m c named =
    ap (events_of k) (poll_entries-report config now j p m c named)
    ∙ events_of-append k (report now p)
        (poll_entries config now m (completed_after config now j p c)).2
    ∙ ap (λ r. r ++ events_of k (poll_entries config now m (completed_after config now j p c)).2)
        (events_of-report k j now p named)

poll_entries-events :
    (config : RequestManagerConfig) (now k : ℕ) (m : Map Pending) (c : Map ℕ)
    → Distinct m
    → All Named m
    → events_of k (poll_entries config now m c).2 ≡ report_option now (find k m)
unfolding poll_entries find
poll_entries-events config now k [] c d named = refl
poll_entries-events config now k ((j, p) ∷ m) c d named =
    events_of-cons config now k j p m c named.0
    ∙ ap (λ r. (if j == k then report now p else []) ++ r)
        (poll_entries-events config now k m (completed_after config now j p c) d.1 named.1)
    ∙ choose (j == k) refl
  where
    choose :
        (b : Bool)
        → (j == k) ≡ b
        → (if b then report now p else []) ++ report_option now (find k m)
          ≡ report_option now (if b then some p else find k m)
    choose false e = refl
    choose true e =
        ap (λ o. report now p ++ report_option now o) (ap (λ i. find i m) (ground (arith, e)) ∙ d.0)
        ∙ append-nil (report now p)

entries-Named :
    (m : Map Pending) (c : Map ℕ)
    → All (λ e. (header_key e.1.packet.header ≡ e.0) × (find e.0 c ≡ none)) m
    → All (λ e. e.1.packet.header.request_id < 2 ^ 32) m
    → All Named m
entries-Named [] c h small = tt
entries-Named ((k, p) ∷ m) c h small = ((h.0.0, small.0), entries-Named m c h.1 small.1)

-- In a valid object whose pending request ids are below 2^32, a pass of `poll` reports of each key
-- nothing, if no request is pending under it or its deadline is not reached. Otherwise it reports one
-- event, with the session and request ids of the request: a retry that carries its packet, if it has
-- a retry left, and else a timeout without a packet.
pub poll-events :
    (m : RequestManager) (now k : ℕ)
    → IsValid m
    → All (λ e. e.1.packet.header.request_id < 2 ^ 32) m.pending
    → events_of k (poll m now).0 ≡ report_option now (find k m.pending)
unfolding poll expire_completed
poll-events m now k v small =
    poll_entries-events m.config now k m.pending (expire_completed m now).completed
      v.pending_distinct (entries-Named m.pending m.completed v.entries small)
