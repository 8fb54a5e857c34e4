-- ===== src/Toolbusd/RequestManager/Responses.antt =====
-- toolbusd/src/request_manager.cpp: `accept_response` on the answer to a request, and `poll` on a request
-- that gets none.
use remote_bsp.Prelude.{
  ℕ, zero, suc, ◌+◌, ◌≡◌, ◌≤◌, ◌<◌, ◌==◌, refl, sym, ap, ◌∙◌, Option, none, some, List, [], ◌∷◌,
  true, false, length, arith, Option-cases, inl, inr, lt→not_leb,
}
use remote_bsp.Prelude.Map.{find, erase, keep_if, find-keep_if}
use remote_bsp.Protocol.Packet.{Packet}
use remote_bsp.Protocol.MessageType
use remote_bsp.Toolbusd.RequestManager.{
  matched, duplicate, reply, Pending, RequestManager, header_key, has, expire_completed, is_fresh,
  object_matches, remember_completed, match_response, accept_response, poll,
}
use remote_bsp.Prelude.Entries.{find-erase_self}
use remote_bsp.Toolbusd.RequestManager.Poll.{
  polled_option, polled, poll_entries-find, poll_entries-find-none,
}
use remote_bsp.Toolbusd.RequestManager.Valid.{IsValid, poll-IsValid}

-- A pass of `poll` in a valid object leaves a request as it is before its deadline. From the deadline
-- on it takes one retry from the request and moves the deadline to the timeout behind `now`, or
-- removes the request, if it has no retry left. A key that is not pending does not become pending.
pub poll-find :
    (m : RequestManager) (now k : ℕ)
    → IsValid m
    → find k (poll m now).1.pending ≡ polled_option m.config now (find k m.pending)
unfolding poll expire_completed
poll-find m now k v = elim (Option-cases (find k m.pending)) [
  | inl h ↦
      poll_entries-find-none m.config now k m.pending (expire_completed m now).completed h
      ∙ ap (polled_option m.config now) (sym h)
  | inr (p, h) ↦
      poll_entries-find m.config now k m.pending (expire_completed m now).completed p
        v.pending_distinct h
      ∙ ap (polled_option m.config now) (sym h)
]

abbrev pub poll_all : RequestManager → List ℕ → RequestManager
poll_all m [] = m
poll_all m (now ∷ times) = poll_all (poll m now).1 times

-- Each time is at or behind the deadline that the one before it sets.
abbrev pub Overdue : ℕ → ℕ → List ℕ → Type 0
Overdue timeout deadline [] = Unit {0}
Overdue timeout deadline (now ∷ times) = (deadline ≤ now) × Overdue timeout (now + timeout) times

poll-config : (m : RequestManager) (now : ℕ) → (poll m now).1.config ≡ m.config
unfolding poll expire_completed
poll-config m now = refl

polls-absent :
    (m : RequestManager) (k : ℕ) (times : List ℕ)
    → IsValid m
    → find k m.pending ≡ none
    → find k (poll_all m times).pending ≡ none
polls-absent m k [] v h = h
polls-absent m k (now ∷ times) v h =
    polls-absent (poll m now).1 k times (poll-IsValid m now v)
      (poll-find m now k v ∙ ap (polled_option m.config now) h)

abbrev pending_with : Packet → ℕ → ℕ → Pending
pending_with packet deadline retries = record {
  packet = packet;
  deadline = deadline;
  retries_remaining = retries;
}

polls :
    (times : List ℕ) (m : RequestManager) (k : ℕ) (packet : Packet) (deadline retries timeout : ℕ)
    → IsValid m
    → m.config.timeout ≡ timeout
    → find k m.pending ≡ some (pending_with packet deadline retries)
    → length times ≡ suc retries
    → Overdue timeout deadline times
    → find k (poll_all m times).pending ≡ none
polls [] m k packet deadline retries timeout v c h n late = absurd (omega arith)
polls (now ∷ times) m k packet deadline zero timeout v c h n late =
    polls-absent (poll m now).1 k times (poll-IsValid m now v)
      (poll-find m now k v ∙ ap (polled_option m.config now) h ∙ ground (arith, late.0))
polls (now ∷ times) m k packet deadline (suc retries) timeout v c h n late =
    polls times (poll m now).1 k packet (now + timeout) retries timeout (poll-IsValid m now v)
      (ap (λ w. w.timeout) (poll-config m now) ∙ c)
      (poll-find m now k v ∙ ap (polled_option m.config now) h ∙ retried) (omega arith) late.1
  where
    retried :
        polled m.config now (pending_with packet deadline (suc retries))
        ≡ some (pending_with packet (now + timeout) retries)
    retried = ground (arith, late.0) ∙ ap (λ t. some (pending_with packet (now + t) retries)) c

-- In a valid object, a request that is pending with `r` retries left and whose response does not come is gone after
-- `r + 1` calls of `poll`, the first of them at or behind its deadline and each further one at or
-- behind the timeout after the one before.
pub polls-timed_out :
    (m : RequestManager) (k : ℕ) (p : Pending) (times : List ℕ)
    → IsValid m
    → find k m.pending ≡ some p
    → length times ≡ suc p.retries_remaining
    → Overdue m.config.timeout p.deadline times
    → find k (poll_all m times).pending ≡ none
polls-timed_out m k p times v h n late =
    polls times m k p.packet p.deadline p.retries_remaining m.config.timeout v refl h n late

-- The response that belongs to a pending request.
abbrev pub IsAnswer : Packet → Packet → Type 0
IsAnswer request response =
    (response.header.message_type ≡ MessageType.response)
    × (response.header.command ≡ request.header.command)
    × (object_matches request.header response.header ≡ true)

-- What `accept_response` leaves after a match, of the object without what expired.
abbrev pub completing : RequestManager → Packet → ℕ → RequestManager
completing live response now =
    remember_completed (record live { pending = erase (header_key response.header) live.pending })
      (header_key response.header) now

match_matched :
    (live : RequestManager) (response : Packet) (now : ℕ) (p : Option Pending)
    → (match_response live response now p).0.status ≡ matched
    → match_response live response now p
      ≡ (record { status = matched; response = some response }, completing live response now)
unfolding match_response
match_matched live response now none h = ground arith
match_matched live response now (some p) h = ground arith

module _ (m : RequestManager) (response : Packet) (now : ℕ) (v : IsValid m) where
  abbrev k : ℕ
  k = header_key response.header

  abbrev done : RequestManager
  done = completing (expire_completed m now) response now

  accept_pending :
      (p : Pending)
      → find k m.pending ≡ some p
      → IsAnswer p.packet response
      → accept_response m response now
        ≡ (record { status = matched; response = some response }, done)
  unfolding accept_response expire_completed match_response
  accept_pending p h a = rw (is_response, h, match_response, same_command, a.2) refl
    where
      is_response : (response.header.message_type == MessageType.response) ≡ true
      is_response = ground (arith, a.0)

      same_command : (p.packet.header.command == response.header.command) ≡ true
      same_command = ground (arith, a.1)

  -- What stands under the key after a reply `matched`.
  pub accept_matched :
      (accept_response m response now).0.status ≡ matched
      → accept_response m response now
        ≡ (record { status = matched; response = some response }, done)
  unfolding accept_response
  accept_matched h = ground (
    arith,
    match_matched (expire_completed m now) response now (find k (expire_completed m now).pending),
  )

  pub accept_again :
      (t : ℕ)
      → find k m.pending ≡ none
      → find k m.completed ≡ some t
      → now < t
      → response.header.message_type ≡ MessageType.response
      → (accept_response m response now).0 ≡ reply duplicate
  unfolding accept_response expire_completed match_response
  accept_again t absent known soon h = rw (is_response, absent, match_response, remembered) refl
    where
      is_response : (response.header.message_type == MessageType.response) ≡ true
      is_response = ground (arith, h)

      kept : find k (keep_if (is_fresh now) m.completed) ≡ some t
      kept =
          find-keep_if (is_fresh now) k m.completed t v.completed_distinct known
          ∙ rw (lt→not_leb t now soon) refl

      remembered : has k (expire_completed m now).completed ≡ true
      remembered = ap (λ (o : Option ℕ). elim o [ none ↦ false | some v ↦ true ]) kept

-- In a valid object, a response whose session and request ids are those of a pending request, and
-- which answers it by command and object, is matched and returned. The request is pending no longer.
pub accept_response-answer :
    (m : RequestManager) (response : Packet) (now : ℕ) (p : Pending)
    → IsValid m
    → find (header_key response.header) m.pending ≡ some p
    → IsAnswer p.packet response
    → ((accept_response m response now).0 ≡ record { status = matched; response = some response })
      × (find (header_key response.header) (accept_response m response now).1.pending ≡ none)
unfolding expire_completed remember_completed
accept_response-answer m response now p v h a =
    let outcome : accept_response m response now ≡ (
      record { status = matched; response = some response },
      completing (expire_completed m now) response now,
    ) =
      accept_pending m response now v p h a in
    (
      ap (λ w. w.0) outcome,
      ap (λ w. find (header_key response.header) w.1.pending) outcome
          ∙ find-erase_self (header_key response.header) m.pending v.pending_distinct,
    )
