-- ===== src/Toolbusd/RequestManager/Poll.antt =====
-- toolbusd/src/request_manager.cpp: a pass of `poll` over the pending requests.
use remote_bsp.Prelude.{
  ℕ, zero, suc, ◌+◌, ◌≡◌, ltb, refl, Option, none, some, [], ◌∷◌, if◌then◌else◌, arith,
}
use remote_bsp.Prelude.Map.{Map, find, assign, Distinct, assign-Distinct, find-assign}
use remote_bsp.Toolbusd.RequestManager.{RequestManagerConfig, Pending, poll_entries}
use remote_bsp.Prelude.Entries.{find-assign-none}

-- What a pass leaves of one request.
abbrev pub polled : RequestManagerConfig → ℕ → Pending → Option Pending
polled config now p = if ltb now p.deadline then some p else elim p.retries_remaining [
  | zero ↦ none
  | suc n ↦ some (record p { retries_remaining = n; deadline = now + config.timeout })
]

abbrev pub polled_option : RequestManagerConfig → ℕ → Option Pending → Option Pending
polled_option config now none = none
polled_option config now (some p) = polled config now p

module _ (config : RequestManagerConfig) (now : ℕ) where
  pub poll_entries-find-none :
      (k : ℕ) (m : Map Pending) (c : Map ℕ)
      → find k m ≡ none
      → find k (poll_entries config now m c).0 ≡ none
  unfolding poll_entries find
  poll_entries-find-none k [] c h = refl
  poll_entries-find-none k ((j, p) ∷ m) c h = ground (
    arith,
    poll_entries-find-none k m c,
    poll_entries-find-none k m (assign j (now + config.duplicate_window) c),
  )

  pub poll_entries-completed_none :
      (k : ℕ) (m : Map Pending) (c : Map ℕ)
      → find k m ≡ none
      → find k c ≡ none
      → find k (poll_entries config now m c).1 ≡ none
  unfolding poll_entries find
  poll_entries-completed_none k [] c h g = g
  poll_entries-completed_none k ((j, p) ∷ m) c h g = ground (
    arith,
    poll_entries-completed_none k m c,
    poll_entries-completed_none k m (assign j (now + config.duplicate_window) c),
    find-assign-none j k (now + config.duplicate_window) c,
  )

  pub poll_entries-completed_kept :
      (k u : ℕ) (m : Map Pending) (c : Map ℕ)
      → find k m ≡ none
      → find k c ≡ some u
      → find k (poll_entries config now m c).1 ≡ some u
  unfolding poll_entries find
  poll_entries-completed_kept k u [] c h g = g
  poll_entries-completed_kept k u ((j, p) ∷ m) c h g = ground (
    arith,
    poll_entries-completed_kept k u m c,
    poll_entries-completed_kept k u m (assign j (now + config.duplicate_window) c),
    find-assign j k (now + config.duplicate_window) c,
  )

  pub poll_entries-find :
      (k : ℕ) (m : Map Pending) (c : Map ℕ) (p : Pending)
      → Distinct m
      → find k m ≡ some p
      → find k (poll_entries config now m c).0 ≡ polled config now p
  unfolding poll_entries find
  poll_entries-find k [] c p d h = cc
  poll_entries-find k ((j, q) ∷ m) c p d h = ground (
    arith,
    poll_entries-find k m c p,
    poll_entries-find-none j m c,
    poll_entries-find-none j m (assign j (now + config.duplicate_window) c),
    poll_entries-find k m (assign j (now + config.duplicate_window) c) p,
  )

  pub poll_entries-Distinct :
      (m : Map Pending) (c : Map ℕ) → Distinct m → Distinct (poll_entries config now m c).0
  unfolding poll_entries
  poll_entries-Distinct [] c d = tt
  poll_entries-Distinct ((j, q) ∷ m) c d = ground (
    arith,
    poll_entries-Distinct m c d.1,
    poll_entries-find-none j m c d.0,
    poll_entries-Distinct m (assign j (now + config.duplicate_window) c) d.1,
  )

  pub poll_entries-completed_Distinct :
      (m : Map Pending) (c : Map ℕ) → Distinct c → Distinct (poll_entries config now m c).1
  unfolding poll_entries
  poll_entries-completed_Distinct [] c d = d
  poll_entries-completed_Distinct ((j, q) ∷ m) c d = ground (
    arith,
    poll_entries-completed_Distinct m c d,
    poll_entries-completed_Distinct m (assign j (now + config.duplicate_window) c)
        (assign-Distinct j (now + config.duplicate_window) c d),
  )
