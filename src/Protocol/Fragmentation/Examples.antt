-- ===== src/Protocol/Fragmentation/Examples.antt =====
-- A packet of ten bytes on a bus of eight.
use remote_bsp.Prelude.{◌≡◌, refl, List, [], ◌∷◌, ◌++◌, length, replicate, All, ok, arith}
use remote_bsp.Prelude.Map.{find}
use remote_bsp.Bytes.{Bytes}
use remote_bsp.Protocol.Fragmentation.Frame.{
  Fragment, encode_fragment, decode_fragment, reserved_flags, length_and_flags,
}
use remote_bsp.Protocol.Fragmentation.FrameRoundTrip.{IsFragment, decode-encode_fragment}
use remote_bsp.Protocol.Fragmentation.Split.{split, split_from, fragment_at}
use remote_bsp.Protocol.Fragmentation.Split.Pieces.{Chain, payloads, frames_of, split-payloads}
use remote_bsp.Protocol.Fragmentation.Reassembler.{Reassembler}
use remote_bsp.Protocol.Fragmentation.Reassembler.InOrder.{
  Arrival, frames_at, accept_all, expected, accept_all-in_order,
}
use remote_bsp.Protocol.Fragmentation.Reassembler.RoundTrip.{at_time, accept_all-split}

abbrev ten_bytes : Bytes
ten_bytes = 1 ∷ 2 ∷ 3 ∷ 4 ∷ 5 ∷ 6 ∷ 7 ∷ 8 ∷ 9 ∷ 10 ∷ []

abbrev idle : Reassembler
idle = record { mtu = 8; timeout = 100; transfers = [] }

-- The packet makes four fragments of at most three bytes.
split_ten :
    split 8 ten_bytes 7
    ≡ ok (
        (7 ∷ 0 ∷ 0 ∷ 0 ∷ 13 ∷ 1 ∷ 2 ∷ 3 ∷ [])
        ∷ (7 ∷ 0 ∷ 1 ∷ 0 ∷ 12 ∷ 4 ∷ 5 ∷ 6 ∷ [])
        ∷ (7 ∷ 0 ∷ 2 ∷ 0 ∷ 12 ∷ 7 ∷ 8 ∷ 9 ∷ [])
        ∷ (7 ∷ 0 ∷ 3 ∷ 0 ∷ 6 ∷ 10 ∷ [])
        ∷ [])
unfolding split split_from encode_fragment reserved_flags fragment_at length_and_flags
split_ten = refl

accept_all-split_example :
    (frames : List Bytes) × (split 8 ten_bytes 7 ≡ ok frames)
    × ((accept_all idle 3 (at_time 50 frames)).0 ≡ expected (length frames) ten_bytes)
unfolding find
accept_all-split_example =
    accept_all-split idle ten_bytes 7 3 50 (omega arith) (omega arith) (omega arith) (omega arith)
      (omega arith) (omega arith) tt refl

split-payloads_example :
    (fs : List Fragment) × (split 8 ten_bytes 7 ≡ ok (frames_of fs))
    × All (λ f. IsFragment f 8) fs
    × Chain 7 0 fs
    × (payloads fs ≡ ten_bytes)
split-payloads_example =
    split-payloads 8 ten_bytes 7 (omega arith) (omega arith) (omega arith) (omega arith)
      (omega arith)

abbrev head_fragment : Fragment
head_fragment = record { flags = 1; transfer_id = 7; sequence = 0; payload = 1 ∷ 2 ∷ [] }

abbrev tail_fragment : Fragment
tail_fragment = record { flags = 2; transfer_id = 7; sequence = 1; payload = 3 ∷ [] }

head-IsFragment : IsFragment head_fragment 8
head-IsFragment = record {
  flags = omega arith;
  starts = refl;
  filled = omega arith;
  within = omega arith;
  short = omega arith;
  transfer_id = omega arith;
  sequence = omega arith;
}

tail-IsFragment : IsFragment tail_fragment 8
tail-IsFragment = record {
  flags = omega arith;
  starts = refl;
  filled = omega arith;
  within = omega arith;
  short = omega arith;
  transfer_id = omega arith;
  sequence = omega arith;
}

decode-encode_fragment_example :
    (frame : Bytes) × (encode_fragment tail_fragment 8 ≡ ok frame)
    × (length frame ≡ 6)
    × (decode_fragment (frame ++ replicate 2 0) 8 ≡ ok tail_fragment)
decode-encode_fragment_example =
    decode-encode_fragment tail_fragment 8 2 tail-IsFragment (omega arith)

-- The second frame is padded to the bus's eight bytes and comes 40 ticks after the first.
abbrev head_arrival : Arrival
head_arrival = record { fragment = head_fragment; padding = 1; time = 10 }

abbrev tail_arrival : Arrival
tail_arrival = record { fragment = tail_fragment; padding = 2; time = 50 }

accept_all-in_order_example :
    (accept_all idle 3 (frames_at (head_arrival ∷ tail_arrival ∷ []))).0
    ≡ expected 2 (1 ∷ 2 ∷ 3 ∷ [])
unfolding find
accept_all-in_order_example =
    accept_all-in_order idle 3 7 head_arrival (tail_arrival ∷ []) tt refl
      (refl, refl, refl, (refl, refl, refl, tt))
      (
        record { fragment = head-IsFragment; within = omega arith },
        (record { fragment = tail-IsFragment; within = omega arith }, tt),
      )
      (omega arith, tt) (omega arith)
