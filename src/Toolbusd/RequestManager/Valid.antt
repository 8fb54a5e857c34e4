-- ===== src/Toolbusd/RequestManager/Valid.antt =====
-- toolbusd/src/request_manager.cpp: the invariant of a request manager.
use remote_bsp.Prelude.{ℕ, ◌+◌, ◌^◌, ◌≡◌, ◌≤◌, ◌<◌, Option, none, some, [], ◌∷◌, Bool, All, arith}
use remote_bsp.Prelude.Map.{
  Map, find, assign, erase, keep_if, Distinct, assign-Distinct, erase-Distinct, keep_if-Distinct,
  find-keep_if-none,
}
use remote_bsp.Protocol.Packet.{Packet}
use remote_bsp.Toolbusd.RequestManager.{
  RequestManagerConfig, Pending, RequestManager, key, header_key, expire_completed, is_fresh,
  accept_response, match_response, remember_completed, poll, poll_entries, cancel,
}
use remote_bsp.Prelude.Entries.{All-erase, All-absent, find-erase_self, find-assign-none}
use remote_bsp.Toolbusd.RequestManager.Poll.{
  poll_entries-completed_none, poll_entries-Distinct, poll_entries-completed_Distinct,
}

-- A pending request stands under the key of its header, and has not been completed.
abbrev pub Entry : Map ℕ → ℕ × Pending → Type 0
Entry completed (k, p) = (header_key p.packet.header ≡ k) × (find k completed ≡ none)

pub record IsValid (m : RequestManager) : Type 0 where
  pub pending_distinct : Distinct m.pending
  pub completed_distinct : Distinct m.completed
  pub entries : All (Entry m.completed) m.pending
  pub next_positive : 1 ≤ m.next_request_id
  pub next_bound : m.next_request_id < 2 ^ 32

entries-keep_if :
    (f : ℕ → Bool) (m : Map Pending) (c : Map ℕ) → All (Entry c) m → All (Entry (keep_if f c)) m
entries-keep_if f [] c h = tt
entries-keep_if f ((k, p) ∷ m) c h =
    ((h.0.0, find-keep_if-none f k c h.0.1), entries-keep_if f m c h.1)

-- Entries of other keys do not see a key that is completed.
entries-assign :
    (k t : ℕ) (m : Map Pending) (c : Map ℕ)
    → find k m ≡ none
    → All (Entry c) m
    → All (Entry (assign k t c)) m
entries-assign k t m c h v =
    All-absent (Entry c) (Entry (assign k t c)) k (λ j p e h. (h.0, find-assign-none k j t c e h.1))
      m h v

pub expire_completed-IsValid :
    (m : RequestManager) (now : ℕ) → IsValid m → IsValid (expire_completed m now)
unfolding expire_completed
expire_completed-IsValid m now v = record {
  pending_distinct = v.pending_distinct;
  completed_distinct = keep_if-Distinct (is_fresh now) m.completed v.completed_distinct;
  entries = entries-keep_if (is_fresh now) m.pending m.completed v.entries;
  next_positive = v.next_positive;
  next_bound = v.next_bound;
}

poll_entries-entries :
    (config : RequestManagerConfig) (now : ℕ) (m : Map Pending) (c : Map ℕ)
    → Distinct m
    → All (Entry c) m
    → All (Entry (poll_entries config now m c).1) (poll_entries config now m c).0
unfolding poll_entries
poll_entries-entries config now [] c d h = tt
poll_entries-entries config now ((k, p) ∷ m) c d h =
    let after : Map ℕ = assign k (now + config.duplicate_window) c in
    ground (
      arith,
      poll_entries-entries config now m c d.1 h.1,
      poll_entries-entries config now m after d.1
          (entries-assign k (now + config.duplicate_window) m c d.0 h.1),
      poll_entries-completed_none config now k m c d.0 h.0.1,
    )

pub poll-IsValid : (m : RequestManager) (now : ℕ) → IsValid m → IsValid (poll m now).1
unfolding poll expire_completed
poll-IsValid m now v =
    let w : IsValid (expire_completed m now) = expire_completed-IsValid m now v in
    record {
      pending_distinct =
          poll_entries-Distinct m.config now m.pending (expire_completed m now).completed
            w.pending_distinct;
      completed_distinct =
          poll_entries-completed_Distinct m.config now m.pending (expire_completed m now).completed
            w.completed_distinct;
      entries =
          poll_entries-entries m.config now m.pending (expire_completed m now).completed
            w.pending_distinct w.entries;
      next_positive = v.next_positive;
      next_bound = v.next_bound;
    }

pub cancel-IsValid :
    (m : RequestManager) (session_id request_id : ℕ)
    → IsValid m
    → IsValid (cancel m session_id request_id).1
unfolding cancel
cancel-IsValid m session_id request_id v = record {
  pending_distinct = erase-Distinct (key session_id request_id) m.pending v.pending_distinct;
  completed_distinct = v.completed_distinct;
  entries = All-erase (Entry m.completed) (key session_id request_id) m.pending v.entries;
  next_positive = v.next_positive;
  next_bound = v.next_bound;
}

complete-IsValid :
    (m : RequestManager) (k now : ℕ)
    → IsValid m
    → IsValid (remember_completed (record m { pending = erase k m.pending }) k now)
unfolding remember_completed
complete-IsValid m k now v = record {
  pending_distinct = erase-Distinct k m.pending v.pending_distinct;
  completed_distinct =
      assign-Distinct k (now + m.config.duplicate_window) m.completed v.completed_distinct;
  entries =
      entries-assign k (now + m.config.duplicate_window) (erase k m.pending) m.completed
        (find-erase_self k m.pending v.pending_distinct)
        (All-erase (Entry m.completed) k m.pending v.entries);
  next_positive = v.next_positive;
  next_bound = v.next_bound;
}

match_response-IsValid :
    (m : RequestManager) (response : Packet) (now : ℕ) (p : Option Pending)
    → IsValid m
    → IsValid (match_response m response now p).1
unfolding match_response
match_response-IsValid m response now none v = ground (arith, v)
match_response-IsValid m response now (some p) v =
    ground (arith, v, complete-IsValid m (header_key response.header) now v)

pub accept_response-IsValid :
    (m : RequestManager) (response : Packet) (now : ℕ)
    → IsValid m
    → IsValid (accept_response m response now).1
unfolding accept_response
accept_response-IsValid m response now v =
    let w : IsValid (expire_completed m now) = expire_completed-IsValid m now v in
    ground (
      arith,
      w,
      match_response-IsValid (expire_completed m now) response now
          (find (header_key response.header) (expire_completed m now).pending) w,
    )
