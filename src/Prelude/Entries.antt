-- ===== src/Prelude/Entries.antt =====
-- Predicates on the entries of a map, through the operations of the map.
use Prim.Native.Nat.{ℕ}
use mathlib.Core.Path.{◌≡◌}
use mathlib.Core.Logic.{◌≢◌}
use mathlib.Core.Bool.{Bool}
use mathlib.Core.Option.{none, some}
use mathlib.Core.List.{[], ◌∷◌}
use native.Mathlib.Omega.{arith}
use remote_bsp.Prelude.Lists.{All}
use remote_bsp.Prelude.Map.{Map, find, assign, erase, keep_if, Distinct, find-erase, find-assign}

module _ {ℓ κ} {V : Type ℓ} (P : ℕ × V → Type κ) where
  pub All-assign : (k : ℕ) (v : V) (m : Map V) → P (k, v) → All P m → All P (assign k v m)
  unfolding assign
  All-assign k v [] p h = (p, tt)
  All-assign k v ((j, w) ∷ m) p h = ground (arith, All-assign k v m p h.1)

  pub All-erase : (k : ℕ) (m : Map V) → All P m → All P (erase k m)
  unfolding erase
  All-erase k [] h = tt
  All-erase k ((j, w) ∷ m) h = ground (arith, All-erase k m h.1)

  pub All-keep_if : (p : V → Bool) (m : Map V) → All P m → All P (keep_if p m)
  unfolding keep_if
  All-keep_if p [] h = tt
  All-keep_if p ((j, w) ∷ m) h = ground (arith, All-keep_if p m h.1)

  pub All-find : (k : ℕ) (v : V) (m : Map V) → find k m ≡ some v → All P m → P (k, v)
  unfolding find
  All-find k v [] e h = cc
  All-find k v ((j, w) ∷ m) e h = ground (arith, All-find k v m)

  -- The predicate holds of each entry, and may use that its key is not `k`.
  pub All-absent {μ} :
      (Q : ℕ × V → Type μ) (k : ℕ) (step : (j : ℕ) (w : V) → j ≢ k → P (j, w) → Q (j, w))
      (m : Map V)
      → find k m ≡ none
      → All P m
      → All Q m
  unfolding find
  All-absent Q k step [] e h = tt
  All-absent Q k step ((j, w) ∷ m) e h =
      let (head, rest) = absent j w m e in (step j w head h.0, All-absent Q k step m rest h.1)
    where
      absent :
          (j : ℕ) (w : V) (m : Map V) → find k ((j, w) ∷ m) ≡ none → (j ≢ k) × (find k m ≡ none)
      absent j w m e = ground arith

module _ {ℓ} {V : Type ℓ} where
  pub find-erase_self : (k : ℕ) (m : Map V) → Distinct m → find k (erase k m) ≡ none
  find-erase_self k m d = ground (arith, find-erase k k m d)

  pub find-erase-none :
      (k j : ℕ) (m : Map V) → Distinct m → find j m ≡ none → find j (erase k m) ≡ none
  find-erase-none k j m d h = ground (arith, find-erase k j m d)

  pub find-assign-none :
      (k j : ℕ) (v : V) (m : Map V) → j ≢ k → find j m ≡ none → find j (assign k v m) ≡ none
  find-assign-none k j v m e h = ground (arith, find-assign k j v m)
