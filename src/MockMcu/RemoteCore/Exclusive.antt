-- ===== src/MockMcu/RemoteCore/Exclusive.antt =====
-- mock_mcu/src/remote_core.cpp: which leases of one resource are compatible, and how a sweep leaves them.
use remote_bsp.Prelude.{
  ℕ, ◌≤◌, ◌≡◌, refl, sym, subst, ◌==◌, not, ◌&&◌, ◌||◌, Bool, true, false, List, [], ◌∷◌, ◌++◌,
  length, any, is_empty, All, if◌then◌else◌, arith, Option-cases, inl, inr,
}
use remote_bsp.Prelude.Map.{Map, find}
use remote_bsp.Prelude.Entries.{All-find}
use remote_bsp.MockMcu.RemoteCore.{RemoteCore, Lease}
use remote_bsp.MockMcu.RemoteCore.Leases.{
  entries_of, leases_of, release_resource_objects, sweep_entries, sweep_leases, sweep,
}
use remote_bsp.MockMcu.RemoteCore.LeaseHandlers.{is_exclusive, erase_first}

abbrev pub has_owner : ℕ → List Lease → Bool
has_owner session_id entries = any (λ l. l.owner_session_id == session_id) entries

abbrev pub distinct_owners : List Lease → Bool
distinct_owners [] = true
distinct_owners (l ∷ entries) =
    not (has_owner l.owner_session_id entries) && distinct_owners entries

-- The leases of one resource.
abbrev pub AreCompatible : List Lease → Type 0
AreCompatible entries =
    (distinct_owners entries ≡ true) × (any is_exclusive entries ≡ true → length entries ≤ 1)

abbrev pub AllCompatible : Map (List Lease) → Type 0
AllCompatible leases = All (λ e. AreCompatible e.1) leases

any-erase_first {ℓ} :
    {A : Type ℓ} (q p : A → Bool) (xs : List A)
    → any q xs ≡ false
    → any q (erase_first p xs) ≡ false
unfolding erase_first
any-erase_first q p [] h = refl
any-erase_first q p (x ∷ xs) h = ground (arith, any-erase_first q p xs)

length-erase_first {ℓ} :
    {A : Type ℓ} (p : A → Bool) (xs : List A) → length (erase_first p xs) ≤ length xs
unfolding erase_first
length-erase_first p [] = omega arith
length-erase_first p (x ∷ xs) = ground (arith, length-erase_first p xs)

-- What is left of compatible leases is compatible, if it has no lease that they have not.
sublist-AreCompatible :
    (kept entries : List Lease)
    → distinct_owners kept ≡ true
    → (any is_exclusive entries ≡ false → any is_exclusive kept ≡ false)
    → length kept ≤ length entries
    → AreCompatible entries
    → AreCompatible kept
sublist-AreCompatible kept entries owners fewer shorter h =
    (owners, λ e. ground (arith, h.1, fewer, shorter))

distinct_owners-erase_first :
    (p : Lease → Bool) (entries : List Lease)
    → distinct_owners entries ≡ true
    → distinct_owners (erase_first p entries) ≡ true
unfolding erase_first
distinct_owners-erase_first p [] h = refl
distinct_owners-erase_first p (l ∷ entries) h = ground (
  arith,
  distinct_owners-erase_first p entries,
  any-erase_first (λ k. k.owner_session_id == l.owner_session_id) p entries,
)

pub erase_first-AreCompatible :
    (p : Lease → Bool) (entries : List Lease)
    → AreCompatible entries
    → AreCompatible (erase_first p entries)
erase_first-AreCompatible p entries h =
    sublist-AreCompatible (erase_first p entries) entries
      (distinct_owners-erase_first p entries h.0) (any-erase_first is_exclusive p entries)
      (length-erase_first p entries) h

-- The leases that a sweep keeps.
unfoldable kept : (Lease → Bool) → List Lease → List Lease
kept gone [] = []
kept gone (l ∷ entries) = let rest = kept gone entries in if gone l then rest else l ∷ rest

any-kept :
    (q gone : Lease → Bool) (entries : List Lease)
    → any q entries ≡ false
    → any q (kept gone entries) ≡ false
unfolding kept
any-kept q gone [] h = refl
any-kept q gone (l ∷ entries) h = ground (arith, any-kept q gone entries)

length-kept :
    (gone : Lease → Bool) (entries : List Lease) → length (kept gone entries) ≤ length entries
unfolding kept
length-kept gone [] = omega arith
length-kept gone (l ∷ entries) = ground (arith, length-kept gone entries)

distinct_owners-kept :
    (gone : Lease → Bool) (entries : List Lease)
    → distinct_owners entries ≡ true
    → distinct_owners (kept gone entries) ≡ true
unfolding kept
distinct_owners-kept gone [] h = refl
distinct_owners-kept gone (l ∷ entries) h = ground (
  arith,
  distinct_owners-kept gone entries,
  any-kept (λ k. k.owner_session_id == l.owner_session_id) gone entries,
)

sweep_entries-kept :
    (gone : Lease → Bool) (resource_id : ℕ) (entries : List Lease) (core : RemoteCore)
    → (sweep_entries gone resource_id entries core).0 ≡ kept gone entries
unfolding sweep_entries kept
sweep_entries-kept gone resource_id [] core = refl
sweep_entries-kept gone resource_id (l ∷ entries) core = ground (
  arith,
  sweep_entries-kept gone resource_id entries
      (if gone l then release_resource_objects resource_id l.owner_session_id core else core),
)

swept-AreCompatible :
    (gone : Lease → Bool) (resource_id : ℕ) (entries : List Lease) (core : RemoteCore)
    → AreCompatible entries
    → AreCompatible (sweep_entries gone resource_id entries core).0
swept-AreCompatible gone resource_id entries core h =
    subst AreCompatible (sym (sweep_entries-kept gone resource_id entries core)) (
      sublist-AreCompatible (kept gone entries) entries (distinct_owners-kept gone entries h.0)
        (any-kept is_exclusive gone entries) (length-kept gone entries) h)

sweep_leases-AllCompatible :
    (gone : Lease → Bool) (leases : Map (List Lease)) (core : RemoteCore)
    → AllCompatible leases
    → AllCompatible (sweep_leases gone leases core).0
unfolding sweep_leases
sweep_leases-AllCompatible gone [] core h = tt
sweep_leases-AllCompatible gone ((resource_id, entries) ∷ leases) core h =
    choose _ _ (is_empty (sweep_entries gone resource_id entries core).0)
      (swept-AreCompatible gone resource_id entries core h.0)
      (sweep_leases-AllCompatible gone leases (sweep_entries gone resource_id entries core).2 h.1)
  where
    choose :
        (es : List Lease) (others : Map (List Lease)) (b : Bool)
        → AreCompatible es
        → AllCompatible others
        → AllCompatible (if b then others else (resource_id, es) ∷ others)
    choose es others true x y = y
    choose es others false x y = (x, y)

pub sweep-AllCompatible :
    (gone : Lease → Bool) (core : RemoteCore)
    → AllCompatible core.leases
    → AllCompatible (sweep gone core).1.leases
unfolding sweep
sweep-AllCompatible gone core h = sweep_leases-AllCompatible gone core.leases core h

pub leases_of-AreCompatible :
    (core : RemoteCore) (resource_id : ℕ)
    → AllCompatible core.leases
    → AreCompatible (leases_of core resource_id)
unfolding leases_of
leases_of-AreCompatible core resource_id h = elim (Option-cases (find resource_id core.leases)) [
  | inl e ↦ subst (λ o. AreCompatible (entries_of o)) (sym e) (refl, λ e. omega arith)
  | inr (entries, e) ↦
      subst (λ o. AreCompatible (entries_of o)) (sym e)
        (All-find (λ e. AreCompatible e.1) resource_id entries core.leases e h)
]

pub any-append {ℓ} :
    {A : Type ℓ} (p : A → Bool) (xs ys : List A) → any p (xs ++ ys) ≡ (any p xs || any p ys)
any-append p [] ys = refl
any-append p (x ∷ xs) ys = ground (arith, any-append p xs ys)

pub distinct_owners-snoc :
    (entries : List Lease) (l : Lease)
    → distinct_owners entries ≡ true
    → has_owner l.owner_session_id entries ≡ false
    → distinct_owners (entries ++ (l ∷ [])) ≡ true
distinct_owners-snoc [] l h fresh = refl
distinct_owners-snoc (k ∷ entries) l h fresh = ground (
  arith,
  distinct_owners-snoc entries l,
  any-append (λ j. j.owner_session_id == k.owner_session_id) entries (l ∷ []),
)
