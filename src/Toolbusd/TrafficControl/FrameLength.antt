-- ===== src/Toolbusd/TrafficControl/FrameLength.antt =====
-- toolbusd/src/traffic_control.cpp: the length of a CAN FD frame.
use remote_bsp.Prelude.{
  ℕ, ◌≤◌, ◌≡◌, refl, leb, Bool, true, false, if◌then◌else◌, List, [], ◌∷◌, ok, arith,
}
use remote_bsp.Toolbusd.TrafficControl.{first_length, canonical_fd_length, fd_lengths}

first_length-covers : (n : ℕ) (lengths : List ℕ) (w : ℕ) → first_length n lengths ≡ ok w → n ≤ w
unfolding first_length
first_length-covers n [] w h = cc
first_length-covers n (c ∷ lengths) w h = ground (arith, first_length-covers n lengths w)

-- A shorter payload has a length too, which is no longer.
first_length_mono :
    (a b : ℕ) (lengths : List ℕ) (w : ℕ)
    → a ≤ b
    → first_length b lengths ≡ ok w
    → (v : ℕ) × (first_length a lengths ≡ ok v) × (v ≤ w)
unfolding first_length
first_length_mono a b [] w le h = cc
first_length_mono a b (c ∷ lengths) w le h =
    choose (leb a c) (leb b c) refl refl h (λ e. first_length_mono a b lengths w le e)
      (λ e. first_length-covers b lengths w e)
  where
    choose :
        (p q : Bool)
        → leb a c ≡ p
        → leb b c ≡ q
        → (if q then ok c else first_length b lengths) ≡ ok w
        → (first_length b lengths ≡ ok w → (v : ℕ) × (first_length a lengths ≡ ok v) × (v ≤ w))
        → (first_length b lengths ≡ ok w → b ≤ w)
        → (v : ℕ) × ((if p then ok c else first_length a lengths) ≡ ok v) × (v ≤ w)
    choose true true hp hq e rest covers = (c, refl, ground (arith, e))
    choose true false hp hq e rest covers = (c, refl, ground (arith, hq, covers e))
    choose false true hp hq e rest covers = absurd (ground (arith, hp, hq, le))
    choose false false hp hq e rest covers = rest e

pub canonical_fd_length_mono :
    (a b w : ℕ)
    → a ≤ b
    → canonical_fd_length b ≡ ok w
    → (v : ℕ) × (canonical_fd_length a ≡ ok v) × (v ≤ w)
unfolding canonical_fd_length
canonical_fd_length_mono a b w le h = choose (leb a 8) (leb b 8) refl refl h
  where
    choose :
        (p q : Bool)
        → leb a 8 ≡ p
        → leb b 8 ≡ q
        → (if q then ok b else first_length b fd_lengths) ≡ ok w
        → (v : ℕ) × ((if p then ok a else first_length a fd_lengths) ≡ ok v) × (v ≤ w)
    choose true true hp hq e = (a, refl, ground (arith, e, le))
    choose true false hp hq e = (a, refl, ground (arith, le, first_length-covers b fd_lengths w e))
    choose false true hp hq e = absurd (ground (arith, hp, hq, le))
    choose false false hp hq e = first_length_mono a b fd_lengths w le e

pub canonical_fd_length-bound : (n w : ℕ) → canonical_fd_length n ≡ ok w → w ≤ 64
unfolding canonical_fd_length first_length
canonical_fd_length-bound n w h = ground (arith, h)

pub canonical_fd_length-covers : (n w : ℕ) → canonical_fd_length n ≡ ok w → n ≤ w
unfolding canonical_fd_length
canonical_fd_length-covers n w h = ground (arith, first_length-covers n fd_lengths w)
