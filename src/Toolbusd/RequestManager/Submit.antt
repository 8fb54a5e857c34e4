-- ===== src/Toolbusd/RequestManager/Submit.antt =====
-- toolbusd/src/request_manager.cpp: `submit` and the request id that it gives.
use remote_bsp.Prelude.{
  ℕ, ◌+◌, ◌^◌, ◌≡◌, ◌≤◌, ◌<◌, ◌==◌, refl, sym, ap, subst, ◌∙◌, Option, none, some, true, false,
  if◌then◌else◌, length, ok, err, arith, Option-cases, Bool-cases, inl, inr,
}
use remote_bsp.Prelude.Map.{
  Map, find, assign, emplace, find-assign, find-assign_self, assign-Distinct,
}
use remote_bsp.Protocol.Packet.{Packet}
use remote_bsp.Protocol.MessageType
use remote_bsp.Toolbusd.RequestManager.{
  Submission, Pending, RequestManager, key, header_key, expire_completed, submit, enter_request,
  allocate_request_id, attempt_ids, maximum_attempts, with_request_id, new_pending, not_request,
  request_id_exhausted,
}
use remote_bsp.Prelude.Entries.{All-assign}
use remote_bsp.Toolbusd.RequestManager.Allocate.{
  attempt_ids-free, attempt_ids-range, attempt_ids-enough,
}
use remote_bsp.Toolbusd.RequestManager.Valid.{IsValid, expire_completed-IsValid}

-- `emplace` of a key that is not there
emplace_absent {ℓ} :
    {V : Type ℓ} (k : ℕ) (v : V) (m : Map V) → find k m ≡ none → emplace k v m ≡ assign k v m
unfolding emplace
emplace_absent k v m h = rw (h, emplace) refl

enter_found :
    (m : RequestManager) (request : Packet) (now id : ℕ)
    → find (key request.header.session_id id) m.pending ≡ none
    → enter_request request now (ok id) m ≡ (
      ok (record { request_id = id; packet = with_request_id request id }),
      record m {
        pending =
            assign
              (key request.header.session_id id)
              (new_pending m.config (with_request_id request id) now)
              m.pending;
      },
    )
unfolding enter_request
enter_found m request now id h =
    ap
      (λ (w : Map Pending). (
        ok (record { request_id = id; packet = with_request_id request id }),
        record m { pending = w },
      ))
      (emplace_absent (key request.header.session_id id)
        (new_pending m.config (with_request_id request id) now) m.pending h)

-- The object behind an allocation that gave `id` and left `next`.
abbrev pub entered : RequestManager → Packet → ℕ → ℕ → ℕ → RequestManager
entered m request now id next = record m {
  next_request_id = next;
  pending =
      assign (key request.header.session_id id)
        (new_pending m.config (with_request_id request id) now) m.pending;
}

entered-IsValid :
    (m : RequestManager) (request : Packet) (now id next : ℕ)
    → IsValid m
    → find (key request.header.session_id id) m.completed ≡ none
    → 1 ≤ next
    → next < 2 ^ 32
    → IsValid (entered m request now id next)
entered-IsValid m request now id next v absent h1 h2 =
    let k : ℕ = key request.header.session_id id in
    let p : Pending = new_pending m.config (with_request_id request id) now in
    record {
      pending_distinct = assign-Distinct k p m.pending v.pending_distinct;
      completed_distinct = v.completed_distinct;
      entries =
          All-assign (λ e. (header_key e.1.packet.header ≡ e.0) × (find e.0 m.completed ≡ none)) k p
            m.pending (refl, absent) v.entries;
      next_positive = h1;
      next_bound = h2;
    }

-- The outcome of the search for a free id.
abbrev pub search : RequestManager → Packet → Option ℕ × ℕ
search m request =
    attempt_ids maximum_attempts m.pending m.completed request.header.session_id m.next_request_id

abbrev pub submission : Packet → ℕ → Submission
submission request id = record { request_id = id; packet = with_request_id request id }

module _ (m : RequestManager) (request : Packet) (now : ℕ) (v : IsValid m) where
  abbrev live : RequestManager
  live = expire_completed m now

  live-IsValid : IsValid live
  live-IsValid = expire_completed-IsValid m now v

  -- A request for which the search gives `id`.
  pub submit_found :
      (id : ℕ)
      → (request.header.message_type == MessageType.request) ≡ true
      → (search live request).0 ≡ some id
      → submit m request now
        ≡ (ok (submission request id), entered live request now id (search live request).1)
  unfolding submit allocate_request_id
  submit_found id h e =
      rw (h, e, submit, allocate_request_id)
        (enter_found (record live { next_request_id = (search live request).1 }) request now id
          (attempt_ids-free live.pending live.completed request.header.session_id maximum_attempts
            live.next_request_id id live-IsValid.next_positive live-IsValid.next_bound e).0)

  pub submit_exhausted :
      (request.header.message_type == MessageType.request) ≡ true
      → (search live request).0 ≡ none
      → submit m request now
        ≡ (err request_id_exhausted, record live { next_request_id = (search live request).1 })
  unfolding submit allocate_request_id enter_request
  submit_exhausted h e = rw (h, e, submit, allocate_request_id, enter_request) refl

  pub submit_refused :
      (request.header.message_type == MessageType.request) ≡ false
      → submit m request now ≡ (err not_request, live)
  unfolding submit
  submit_refused h = rw (h, submit) refl

pub submit-IsValid :
    (m : RequestManager) (request : Packet) (now : ℕ) → IsValid m → IsValid (submit m request now).1
submit-IsValid m request now v =
    elim (Bool-cases (request.header.message_type == MessageType.request)) [
      | inl h ↦ elim (Option-cases (search (expire_completed m now) request).0) [
        | inl e ↦
            subst (λ w. IsValid w.1) (sym (submit_exhausted m request now v h e))
              (record {
                pending_distinct = w.pending_distinct;
                completed_distinct = w.completed_distinct;
                entries = w.entries;
                next_positive = range.0;
                next_bound = range.1;
              })
        | inr (id, e) ↦
            subst (λ w. IsValid w.1) (sym (submit_found m request now v id h e))
              (entered-IsValid (expire_completed m now) request now id
                (search (expire_completed m now) request).1 w (free id e) range.0 range.1)
      ]
      | inr h ↦ subst (λ w. IsValid w.1) (sym (submit_refused m request now v h)) w
    ]
  where
    w : IsValid (expire_completed m now)
    w = expire_completed-IsValid m now v

    range :
        (1 ≤ (search (expire_completed m now) request).1)
        × ((search (expire_completed m now) request).1 < 2 ^ 32)
    range =
        attempt_ids-range (expire_completed m now).pending (expire_completed m now).completed
          request.header.session_id maximum_attempts (expire_completed m now).next_request_id
          w.next_positive w.next_bound

    free :
        (id : ℕ)
        → (search (expire_completed m now) request).0 ≡ some id
        → find (key request.header.session_id id) (expire_completed m now).completed ≡ none
    free id e =
        (attempt_ids-free (expire_completed m now).pending (expire_completed m now).completed
          request.header.session_id maximum_attempts (expire_completed m now).next_request_id id
          w.next_positive w.next_bound e).1

-- In a valid object with fewer than 2^32 - 1 pending and completed keys, `submit` of a request
-- message succeeds. The packet it returns is the request under an id from 1 to 2^32 - 1 whose key
-- was neither pending nor, at that time, still remembered as completed; it is now pending under that
-- key with the configured deadline and retries, and what is pending under any other key `j` is as it
-- was.
pub submit-fresh :
    (m : RequestManager) (request : Packet) (now j : ℕ)
    → IsValid m
    → request.header.message_type ≡ MessageType.request
    → length m.pending + length (expire_completed m now).completed < maximum_attempts
    → (s : Submission) × ((submit m request now).0 ≡ ok s)
      × (s.packet ≡ with_request_id request s.request_id)
      × (1 ≤ s.request_id)
      × (s.request_id < 2 ^ 32)
      × (find (key request.header.session_id s.request_id) m.pending ≡ none)
      × (find (key request.header.session_id s.request_id) (expire_completed m now).completed
          ≡ none)
      × (find j (submit m request now).1.pending ≡ (
          if key request.header.session_id s.request_id == j
          then some (new_pending m.config s.packet now)
          else find j m.pending))
unfolding expire_completed
submit-fresh m request now j v h small =
    let w : IsValid (expire_completed m now) = expire_completed-IsValid m now v in
    let (id, e) =
      attempt_ids-enough m.pending (expire_completed m now).completed request.header.session_id
        m.next_request_id v.next_positive v.next_bound small in
    let (free, done, low, high) =
      attempt_ids-free m.pending (expire_completed m now).completed request.header.session_id
        maximum_attempts m.next_request_id id v.next_positive v.next_bound e in
    let outcome : submit m request now ≡ (
      ok (submission request id),
      entered (expire_completed m now) request now id (search (expire_completed m now) request).1,
    ) =
      submit_found m request now v id (ground (arith, h)) e in
    (
      submission request id,
      ap (λ r. r.0) outcome,
      refl,
      low,
      high,
      free,
      done,
      ap (λ r. find j r.1.pending) outcome
          ∙ find-assign (key request.header.session_id id) j
              (new_pending m.config (with_request_id request id) now) m.pending,
    )

-- The request that a `submit` returned is pending.
pub submit-pending :
    (m : RequestManager) (request : Packet) (now : ℕ) (s : Submission)
    → IsValid m
    → (submit m request now).0 ≡ ok s
    → (s.packet ≡ with_request_id request s.request_id)
      × (find (key request.header.session_id s.request_id) (submit m request now).1.pending
          ≡ some (new_pending m.config s.packet now))
unfolding expire_completed
submit-pending m request now s v h =
    elim (Bool-cases (request.header.message_type == MessageType.request)) [
      | inl t ↦ elim (Option-cases (search (expire_completed m now) request).0) [
        | inl e ↦ absurd (ground (arith, h, submit_exhausted m request now v t e))
        | inr (id, e) ↦ from id (submit_found m request now v id t e)
      ]
      | inr t ↦ absurd (ground (arith, h, submit_refused m request now v t))
    ]
  where
    from :
        (id : ℕ)
        → submit m request now ≡ (
          ok (submission request id),
          entered
              (expire_completed m now)
              request
              now
              id
              (search (expire_completed m now) request).1,
        )
        → (s.packet ≡ with_request_id request s.request_id)
          × (find (key request.header.session_id s.request_id) (submit m request now).1.pending
              ≡ some (new_pending m.config s.packet now))
    from id outcome =
        subst
          (λ (w : Submission).
            (w.packet ≡ with_request_id request w.request_id)
            × (find (key request.header.session_id w.request_id) (submit m request now).1.pending
                ≡ some (new_pending m.config w.packet now)))
          same
          (
            refl,
            ap (λ w. find (key request.header.session_id id) w.1.pending) outcome
                ∙ find-assign_self (key request.header.session_id id)
                    (new_pending m.config (with_request_id request id) now) m.pending,
          )
      where
        same : submission request id ≡ s
        same = cc (outcome, h)
