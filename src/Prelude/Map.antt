-- ===== src/Prelude/Map.antt =====
-- `std::unordered_map` with numbers for keys, as an association list: the order of the entries is
-- the order in which they were made, which the results do not speak of.
use Prim.Native.Nat.{ℕ}
use mathlib.Core.Path.{◌≡◌, refl}
use mathlib.Core.Bool.{Bool}
use mathlib.Core.Option.{Option, none, some}
use mathlib.Core.List.{List, [], ◌∷◌}
use native.Mathlib.Omega.{arith}
use remote_bsp.Prelude.Tests.{◌==◌, if◌then◌else◌}

abbrev pub Map {ℓ} : Type ℓ → Type ℓ
Map V = List (ℕ × V)

module _ {ℓ} {V : Type ℓ} where
  -- `find`
  unfoldable pub find : ℕ → Map V → Option V
  find k [] = none
  find k ((j, v) ∷ m) = if j == k then some v else find k m

  -- `m[k] = v`, and `emplace` of a key that is not there
  unfoldable pub assign : ℕ → V → Map V → Map V
  assign k v [] = (k, v) ∷ []
  assign k v ((j, w) ∷ m) = if j == k then (k, v) ∷ m else (j, w) ∷ assign k v m

  -- `emplace`, which leaves an entry that is there
  unfoldable pub emplace : ℕ → V → Map V → Map V
  emplace k v m = elim (find k m) [ none ↦ assign k v m | some w ↦ m ]

  -- `erase`
  unfoldable pub erase : ℕ → Map V → Map V
  erase k [] = []
  erase k ((j, w) ∷ m) = if j == k then m else (j, w) ∷ erase k m

  -- A pass over the map that erases the entries which fail a test.
  unfoldable pub keep_if : (V → Bool) → Map V → Map V
  keep_if p [] = []
  keep_if p ((j, w) ∷ m) = if p w then (j, w) ∷ keep_if p m else keep_if p m

  -- No key stands twice.
  abbrev pub Distinct : Map V → Type ℓ
  Distinct [] = Unit {ℓ}
  Distinct ((j, w) ∷ m) = (find j m ≡ none) × Distinct m

  pub find-assign :
      (k j : ℕ) (v : V) (m : Map V) → find j (assign k v m) ≡ (if k == j then some v else find j m)
  unfolding find assign
  find-assign k j v [] = refl
  find-assign k j v ((i, w) ∷ m) = ground (arith, find-assign k j v m)

  pub find-emplace :
      (k j : ℕ) (v : V) (m : Map V)
      → find k m ≡ none
      → find j (emplace k v m) ≡ (if k == j then some v else find j m)
  unfolding emplace
  find-emplace k j v m h = rw (h, emplace) (find-assign k j v m)

  pub find-assign_self : (k : ℕ) (v : V) (m : Map V) → find k (assign k v m) ≡ some v
  find-assign_self k v m = ground (arith, find-assign k k v m)

  pub find-keep_if-none :
      (p : V → Bool) (k : ℕ) (m : Map V) → find k m ≡ none → find k (keep_if p m) ≡ none
  unfolding find keep_if
  find-keep_if-none p k [] h = refl
  find-keep_if-none p k ((i, w) ∷ m) h = ground (arith, find-keep_if-none p k m)

  -- An entry that passes the test stays, and one that fails it goes.
  pub find-keep_if :
      (p : V → Bool) (k : ℕ) (m : Map V) (v : V)
      → Distinct m
      → find k m ≡ some v
      → find k (keep_if p m) ≡ (if p v then some v else none)
  unfolding find keep_if
  find-keep_if p k [] v d h = cc
  find-keep_if p k ((i, w) ∷ m) v d h =
      ground (arith, find-keep_if p k m v d.1, find-keep_if-none p i m d.0, find-keep_if-none p k m)

  pub keep_if-Distinct : (p : V → Bool) (m : Map V) → Distinct m → Distinct (keep_if p m)
  unfolding keep_if
  keep_if-Distinct p [] d = tt
  keep_if-Distinct p ((i, w) ∷ m) d =
      ground (arith, keep_if-Distinct p m d.1, find-keep_if-none p i m d.0)

  pub assign-Distinct : (k : ℕ) (v : V) (m : Map V) → Distinct m → Distinct (assign k v m)
  unfolding find assign
  assign-Distinct k v [] d = (refl, tt)
  assign-Distinct k v ((i, w) ∷ m) d =
      ground (arith, assign-Distinct k v m d.1, find-assign k i v m)

  pub find-erase :
      (k j : ℕ) (m : Map V) → Distinct m → find j (erase k m) ≡ (if k == j then none else find j m)
  unfolding find erase
  find-erase k j [] d = ground arith
  find-erase k j ((i, w) ∷ m) d = ground (arith, find-erase k j m d.1)

  pub erase-Distinct : (k : ℕ) (m : Map V) → Distinct m → Distinct (erase k m)
  unfolding find erase
  erase-Distinct k [] d = tt
  erase-Distinct k ((i, w) ∷ m) d = ground (arith, erase-Distinct k m d.1, find-erase k i m d.1)
