-- ===== src/Toolbusd/RequestManager/Allocate.antt =====
-- toolbusd/src/request_manager.cpp: the search of `allocate_request_id` for a free id.
use remote_bsp.Prelude.{
  ℕ, zero, suc, ◌+◌, ◌-◌, ◌^◌, ◌*◌, ◌≡◌, ◌≢◌, ◌≤◌, ◌<◌, ◌==◌, leb, refl, ap, ◌∙◌, none, some, List,
  [], ◌∷◌, ◌++◌, length-append, Option-cases, Bool, true, false, ◌||◌, if◌then◌else◌, length, arith,
  inl, inr,
}
use remote_bsp.Prelude.Bits.{bit_or_comm, bit_or_fields}
use remote_bsp.Prelude.Map.{Map, find}
use remote_bsp.Toolbusd.RequestManager.{Pending, key, has, next_id, attempt_ids, maximum_attempts}

-- The keys in use.
abbrev keys {ℓ} : {V : Type ℓ} → Map V → List ℕ
keys [] = []
keys ((k, v) ∷ m) = k ∷ keys m

abbrev Used {ℓ κ} : {V : Type ℓ} {W : Type κ} → Map V → Map W → ℕ → Type 0
Used a b k = (has k a || has k b) ≡ true

-- So many steps of `next_id` lead from `c` to `x`.
abbrev distance : ℕ → ℕ → ℕ
distance c x = if leb c x then x - c else 4294967295 - c + x

distance-next_id :
    (c x n : ℕ) → 1 ≤ c → c < 2 ^ 32 → suc n ≤ distance c x → n ≤ distance (next_id c) x
unfolding next_id
distance-next_id c x n h1 h2 h = ground arith

pub next_id-range : (c : ℕ) → c < 2 ^ 32 → (1 ≤ next_id c) × (next_id c < 2 ^ 32)
unfolding next_id
next_id-range c h = ground arith

distance_self : (c : ℕ) → 1 ≤ c → c < 2 ^ 32 → 4294967294 ≤ distance (next_id c) c
unfolding next_id
distance_self c h1 h2 = ground arith

distance-zero : (c : ℕ) → distance c c ≡ 0
distance-zero c = ground arith

pub key-value : (s i : ℕ) → i < 2 ^ 32 → key s i ≡ i + s * 2 ^ 32
unfolding key
key-value s i h = bit_or_comm (s * 2 ^ 32) i ∙ bit_or_fields 32 i s h

key-injective : (s i j : ℕ) → i < 2 ^ 32 → j < 2 ^ 32 → key s i ≡ key s j → i ≡ j
key-injective s i j hi hj e = omega (arith, key-value s i hi, key-value s j hj)

abbrev mem : ℕ → List ℕ → Bool
mem k [] = false
mem k (j ∷ xs) = (j == k) || mem k xs

abbrev remove : ℕ → List ℕ → List ℕ
remove k [] = []
remove k (j ∷ xs) = if j == k then xs else j ∷ remove k xs

length-remove : (k : ℕ) (xs : List ℕ) → mem k xs ≡ true → suc (length (remove k xs)) ≡ length xs
length-remove k [] h = cc
length-remove k (j ∷ xs) h = ground (arith, length-remove k xs)

mem-remove : (k j : ℕ) (xs : List ℕ) → j ≢ k → mem j xs ≡ true → mem j (remove k xs) ≡ true
mem-remove k j [] e h = h
mem-remove k j (i ∷ xs) e h = ground (arith, mem-remove k j xs e)

mem-append : (k : ℕ) (xs ys : List ℕ) → mem k (xs ++ ys) ≡ (mem k xs || mem k ys)
mem-append k [] ys = refl
mem-append k (x ∷ xs) ys = ground (arith, mem-append k xs ys)

mem-keys {ℓ} : {V : Type ℓ} (k : ℕ) (m : Map V) → has k m ≡ mem k (keys m)
unfolding find
mem-keys k [] = refl
mem-keys k ((j, v) ∷ m) = ground (arith, mem-keys k m)

length-keys {ℓ} : {V : Type ℓ} (m : Map V) → length (keys m) ≡ length m
length-keys [] = refl
length-keys ((j, v) ∷ m) = ap suc (length-keys m)

-- The keys of the next `n` candidates are all in the list.
abbrev AllTaken : ℕ → List ℕ → ℕ → ℕ → Type 0
AllTaken zero xs s c = Unit {0}
AllTaken (suc n) xs s c = (mem (key s c) xs ≡ true) × AllTaken n xs s (next_id c)

AllTaken-remove :
    (n : ℕ) (xs : List ℕ) (s c x : ℕ)
    → 1 ≤ c
    → c < 2 ^ 32
    → x < 2 ^ 32
    → n ≤ distance c x
    → AllTaken n xs s c
    → AllTaken n (remove (key s x) xs) s c
AllTaken-remove zero xs s c x h1 h2 h3 h t = tt
AllTaken-remove (suc n) xs s c x h1 h2 h3 h t = (
  mem-remove (key s x) (key s c) xs differs t.0,
  AllTaken-remove n xs s (next_id c) x (next_id-range c h2).0 (next_id-range c h2).1 h3
      (distance-next_id c x n h1 h2 h) t.1,
)
  where
    differs : key s c ≢ key s x
    differs e = absurd (ground (arith, key-injective s c x h2 h3 e))

AllTaken-length :
    (n : ℕ) (xs : List ℕ) (s c : ℕ)
    → 1 ≤ c
    → c < 2 ^ 32
    → n ≤ maximum_attempts
    → AllTaken n xs s c
    → n ≤ length xs
AllTaken-length zero xs s c h1 h2 h t = omega arith
AllTaken-length (suc n) xs s c h1 h2 h t = omega (
  arith,
  length-remove (key s c) xs t.0,
  AllTaken-length n (remove (key s c) xs) s (next_id c) (next_id-range c h2).0
      (next_id-range c h2).1 (omega arith)
      (AllTaken-remove n xs s (next_id c) c (next_id-range c h2).0 (next_id-range c h2).1 h2
        (omega (arith, distance_self c h1 h2)) t.1),
)

module _ (p : Map Pending) (q : Map ℕ) (s : ℕ) where
  attempt_ids-taken :
      (n c : ℕ) → (attempt_ids n p q s c).0 ≡ none → AllTaken n (keys p ++ keys q) s c
  unfolding attempt_ids
  attempt_ids-taken zero c h = tt
  attempt_ids-taken (suc n) c h = ground (
    arith,
    attempt_ids-taken n (next_id c),
    mem-append (key s c) (keys p) (keys q),
    mem-keys (key s c) p,
    mem-keys (key s c) q,
  )

  -- What the loop returns is free, and what it leaves is an id again.
  pub attempt_ids-free :
      (n c id : ℕ)
      → 1 ≤ c
      → c < 2 ^ 32
      → (attempt_ids n p q s c).0 ≡ some id
      → (find (key s id) p ≡ none) × (find (key s id) q ≡ none) × (1 ≤ id) × (id < 2 ^ 32)
  unfolding attempt_ids
  attempt_ids-free zero c id h1 h2 h = cc
  attempt_ids-free (suc n) c id h1 h2 h =
      ground (arith, attempt_ids-free n (next_id c) id, next_id-range c h2)

  pub attempt_ids-range :
      (n c : ℕ)
      → 1 ≤ c
      → c < 2 ^ 32
      → (1 ≤ (attempt_ids n p q s c).1) × ((attempt_ids n p q s c).1 < 2 ^ 32)
  unfolding attempt_ids
  attempt_ids-range zero c h1 h2 = (h1, h2)
  attempt_ids-range (suc n) c h1 h2 =
      ground (arith, attempt_ids-range n (next_id c), next_id-range c h2)

  pub attempt_ids-enough :
      (c : ℕ)
      → 1 ≤ c
      → c < 2 ^ 32
      → length p + length q < maximum_attempts
      → (id : ℕ) × ((attempt_ids maximum_attempts p q s c).0 ≡ some id)
  attempt_ids-enough c h1 h2 h = elim (Option-cases (attempt_ids maximum_attempts p q s c).0) [
    | inl absent ↦ absurd (
        omega (
          arith,
          AllTaken-length maximum_attempts (keys p ++ keys q) s c h1 h2 (omega arith)
              (attempt_ids-taken maximum_attempts c absent),
          length-append (keys p) (keys q),
          length-keys p,
          length-keys q,
        ))
    | inr found ↦ found
  ]
