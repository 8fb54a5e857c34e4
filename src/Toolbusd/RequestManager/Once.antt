-- ===== src/Toolbusd/RequestManager/Once.antt =====
-- toolbusd/src/request_manager.cpp: a request whose response was matched, while its key is remembered.
use remote_bsp.Prelude.{
  ℕ, ◌+◌, ◌≡◌, ◌≢◌, ◌<◌, ◌==◌, refl, sym, ap, subst, ◌∙◌, Option, none, some, List, [], ◌∷◌, All,
  arith, Option-cases, Bool-cases, inl, inr, lt→not_leb,
}
use remote_bsp.Prelude.Map.{find, find-assign, find-assign_self, find-keep_if}
use remote_bsp.Prelude.Entries.{find-erase-none, find-erase_self}
use remote_bsp.Protocol.Packet.{Packet}
use remote_bsp.Protocol.MessageType
use remote_bsp.Toolbusd.RequestManager.{
  matched, duplicate, reply, Pending, RequestManager, key, header_key, is_fresh, expire_completed,
  remember_completed, match_response, accept_response, submit, poll, cancel, with_request_id,
  new_pending,
}
use remote_bsp.Toolbusd.RequestManager.Valid.{
  IsValid, expire_completed-IsValid, accept_response-IsValid,
}
use remote_bsp.Toolbusd.RequestManager.Allocate.{attempt_ids-free}
use remote_bsp.Toolbusd.RequestManager.Poll.{poll_entries-completed_kept, polled_option}
use remote_bsp.Toolbusd.RequestManager.Submit.{
  search, entered, submit_found, submit_exhausted, submit_refused,
}
use remote_bsp.Toolbusd.RequestManager.Responses.{
  poll-find, completing, accept_matched, accept_again,
}
use remote_bsp.Toolbusd.RequestManager.Life.{
  Call, submitting, accepting, polling, cancelling, after_call, after_calls, after_call-IsValid,
}

-- A key that is completed until a time, and not pending.
abbrev Remembers : ℕ → ℕ → RequestManager → Type 0
Remembers k until m = (find k m.pending ≡ none) × (find k m.completed ≡ some until)

module _ (k until : ℕ) where
  expire_completed-Remembers :
      (m : RequestManager) (now : ℕ)
      → IsValid m
      → now < until
      → Remembers k until m
      → Remembers k until (expire_completed m now)
  unfolding expire_completed
  expire_completed-Remembers m now v soon (absent, known) = (
    absent,
    find-keep_if (is_fresh now) k m.completed until v.completed_distinct known
        ∙ rw (lt→not_leb until now soon) refl,
  )

  completing-Remembers :
      (m : RequestManager) (response : Packet) (now : ℕ)
      → IsValid m
      → header_key response.header ≢ k
      → Remembers k until m
      → Remembers k until (completing m response now)
  unfolding remember_completed
  completing-Remembers m response now v apart (absent, known) = (
    find-erase-none (header_key response.header) k m.pending v.pending_distinct absent,
    find-assign (header_key response.header) k (now + m.config.duplicate_window) m.completed
        ∙ ground (arith, apart, known),
  )

  match_response-Remembers :
      (m : RequestManager) (response : Packet) (now : ℕ) (p : Option Pending)
      → find (header_key response.header) m.pending ≡ p
      → IsValid m
      → Remembers k until m
      → Remembers k until (match_response m response now p).1
  unfolding match_response
  match_response-Remembers m response now none e v h = ground (arith, h)
  match_response-Remembers m response now (some p) e v h =
      ground (arith, h, completing-Remembers m response now v apart h)
    where
      apart : header_key response.header ≢ k
      apart same = ground (arith, sym e ∙ ap (λ j. find j m.pending) same ∙ h.0)

  accept_response-Remembers :
      (m : RequestManager) (response : Packet) (now : ℕ)
      → IsValid m
      → now < until
      → Remembers k until m
      → Remembers k until (accept_response m response now).1
  unfolding accept_response
  accept_response-Remembers m response now v soon h =
      let w : IsValid (expire_completed m now) = expire_completed-IsValid m now v in
      let live = expire_completed-Remembers m now v soon h in
      ground (
        arith,
        live,
        match_response-Remembers (expire_completed m now) response now
            (find (header_key response.header) (expire_completed m now).pending) refl w live,
      )

  poll-Remembers :
      (m : RequestManager) (now : ℕ)
      → IsValid m
      → now < until
      → Remembers k until m
      → Remembers k until (poll m now).1
  unfolding poll
  poll-Remembers m now v soon h = (
    poll-find m now k v ∙ ap (polled_option m.config now) h.0,
    poll_entries-completed_kept m.config now k until m.pending (expire_completed m now).completed
        h.0 (expire_completed-Remembers m now v soon h).1,
  )

  entered-Remembers :
      (m : RequestManager) (request : Packet) (now id next : ℕ)
      → find (key request.header.session_id id) m.completed ≡ none
      → Remembers k until m
      → Remembers k until (entered m request now id next)
  entered-Remembers m request now id next free (absent, known) = (
    find-assign (key request.header.session_id id) k
          (new_pending m.config (with_request_id request id) now) m.pending
        ∙ ground (arith, apart, absent),
    known,
  )
    where
      apart : key request.header.session_id id ≢ k
      apart same = ground (arith, sym known ∙ ap (λ j. find j m.completed) (sym same) ∙ free)

  submit-Remembers :
      (m : RequestManager) (request : Packet) (now : ℕ)
      → IsValid m
      → now < until
      → Remembers k until m
      → Remembers k until (submit m request now).1
  submit-Remembers m request now v soon h =
      elim (Bool-cases (request.header.message_type == MessageType.request)) [
        | inl t ↦ elim (Option-cases (search (expire_completed m now) request).0) [
          | inl e ↦
              subst (λ w. Remembers k until w.1) (sym (submit_exhausted m request now v t e)) live
          | inr (id, e) ↦
              subst (λ w. Remembers k until w.1) (sym (submit_found m request now v id t e))
                (entered-Remembers (expire_completed m now) request now id
                  (search (expire_completed m now) request).1 (free id e) live)
        ]
        | inr t ↦ subst (λ w. Remembers k until w.1) (sym (submit_refused m request now v t)) live
      ]
    where
      live : Remembers k until (expire_completed m now)
      live = expire_completed-Remembers m now v soon h

      w : IsValid (expire_completed m now)
      w = expire_completed-IsValid m now v

      free :
          (id : ℕ)
          → (search (expire_completed m now) request).0 ≡ some id
          → find (key request.header.session_id id) (expire_completed m now).completed ≡ none
      free id e =
          (attempt_ids-free (expire_completed m now).pending (expire_completed m now).completed
            request.header.session_id 4294967295 (expire_completed m now).next_request_id id
            w.next_positive w.next_bound e).1

  cancel-Remembers :
      (m : RequestManager) (session_id request_id : ℕ)
      → IsValid m
      → Remembers k until m
      → Remembers k until (cancel m session_id request_id).1
  unfolding cancel
  cancel-Remembers m session_id request_id v (absent, known) =
      (find-erase-none (key session_id request_id) k m.pending v.pending_distinct absent, known)

-- A call at a time before `until`; a cancellation has no time.
abbrev pub Before : ℕ → Call → Type 0
Before until (submitting request now) = now < until
Before until (accepting response now) = now < until
Before until (polling now) = now < until
Before until (cancelling session_id request_id) = Unit {0}

after_call-Remembers :
    (k until : ℕ) (m : RequestManager) (c : Call)
    → IsValid m
    → Before until c
    → Remembers k until m
    → Remembers k until (after_call m c)
unfolding after_call
after_call-Remembers k until m (submitting request now) v soon h =
    submit-Remembers k until m request now v soon h
after_call-Remembers k until m (accepting response now) v soon h =
    accept_response-Remembers k until m response now v soon h
after_call-Remembers k until m (polling now) v soon h = poll-Remembers k until m now v soon h
after_call-Remembers k until m (cancelling session_id request_id) v soon h =
    cancel-Remembers k until m session_id request_id v h

remembered_again :
    (m : RequestManager) (again : Packet) (later until : ℕ) (calls : List Call)
    → IsValid m
    → All (Before until) calls
    → Remembers (header_key again.header) until m
    → later < until
    → again.header.message_type ≡ MessageType.response
    → (accept_response (after_calls m calls) again later).0 ≡ reply duplicate
unfolding after_calls
remembered_again m again later until [] v soon h last kind =
    accept_again m again later v until h.0 h.1 last kind
remembered_again m again later until (c ∷ calls) v soon h last kind =
    remembered_again (after_call m c) again later until calls (after_call-IsValid m c v) soon.1
      (after_call-Remembers (header_key again.header) until m c v soon.0 h) last kind

-- In a valid object, after a response was matched at `now`, and after any further calls at times
-- before `now` and the duplicate window are over, be they submissions, responses (that one again
-- included), polls or cancellations: every response message with the session and request ids of the
-- first that comes before that time is reported as a duplicate.
pub accept_response-once :
    (m : RequestManager) (response again : Packet) (now later : ℕ) (calls : List Call)
    → IsValid m
    → (accept_response m response now).0.status ≡ matched
    → All (Before (now + m.config.duplicate_window)) calls
    → header_key again.header ≡ header_key response.header
    → again.header.message_type ≡ MessageType.response
    → later < now + m.config.duplicate_window
    → (accept_response (after_calls (accept_response m response now).1 calls) again later).0
      ≡ reply duplicate
unfolding expire_completed remember_completed
accept_response-once m response again now later calls v h soon same kind last =
    let k : ℕ = header_key response.header in
    let outcome : accept_response m response now ≡ (
      record { status = matched; response = some response },
      completing (expire_completed m now) response now,
    ) =
      accept_matched m response now v h in
    remembered_again (accept_response m response now).1 again later
      (now + m.config.duplicate_window) calls (accept_response-IsValid m response now v) soon
      (
        ap (λ j. find j (accept_response m response now).1.pending) same
            ∙ ap (λ w. find k w.1.pending) outcome
            ∙ find-erase_self k m.pending v.pending_distinct,
        ap (λ j. find j (accept_response m response now).1.completed) same
            ∙ ap (λ w. find k w.1.completed) outcome
            ∙ find-assign_self k (now + m.config.duplicate_window)
                (expire_completed m now).completed,
      )
      last kind
