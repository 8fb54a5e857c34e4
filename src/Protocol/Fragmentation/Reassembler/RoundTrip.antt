-- ===== src/Protocol/Fragmentation/Reassembler/RoundTrip.antt =====
-- `Fragmenter::split` on one side of the bus and `Reassembler::accept` on the other.
use remote_bsp.Prelude.{
  ℕ, suc, ◌+◌, ◌^◌, ◌<◌, ◌≤◌, ◌≡◌, refl, sym, ap, ap₂, ◌∙◌, subst, none, List, [], ◌∷◌, append-nil,
  length, All, ok, arith,
}
use remote_bsp.Prelude.Map.{find, Distinct}
use remote_bsp.Bytes.{Bytes}
use remote_bsp.Protocol.Packet.{maximum_packet_size}
use remote_bsp.Protocol.Fragmentation.Frame.{Fragment, fragment_header_size}
use remote_bsp.Protocol.Fragmentation.FrameRoundTrip.{IsFragment, frame_of}
use remote_bsp.Protocol.Fragmentation.Split.{split}
use remote_bsp.Protocol.Fragmentation.Split.Pieces.{split-payloads, frames_of, payloads, Chain}
use remote_bsp.Protocol.Fragmentation.Reassembler.{Reassembler, key}
use remote_bsp.Protocol.Fragmentation.Reassembler.InOrder.{
  Arrival, IsArrival, Timely, fragments_of, frames_at, accept_all, expected, accept_all-in_order,
}

-- Frames that all arrive at one time.
abbrev pub at_time : ℕ → List Bytes → List (Bytes × ℕ)
at_time now [] = []
at_time now (frame ∷ frames) = (frame, now) ∷ at_time now frames

abbrev arrivals : ℕ → List Fragment → List Arrival
arrivals now [] = []
arrivals now (f ∷ fs) = record { fragment = f; padding = 0; time = now } ∷ arrivals now fs

fragments_of-arrivals : (now : ℕ) (fs : List Fragment) → fragments_of (arrivals now fs) ≡ fs
fragments_of-arrivals now [] = refl
fragments_of-arrivals now (f ∷ fs) = ap (◌∷◌ f) (fragments_of-arrivals now fs)

length-arrivals : (now : ℕ) (fs : List Fragment) → length (arrivals now fs) ≡ length (frames_of fs)
length-arrivals now [] = refl
length-arrivals now (f ∷ fs) = ap suc (length-arrivals now fs)

frames_at-arrivals :
    (now : ℕ) (fs : List Fragment) → frames_at (arrivals now fs) ≡ at_time now (frames_of fs)
frames_at-arrivals now [] = refl
frames_at-arrivals now (f ∷ fs) =
    ap₂ ◌∷◌ (ap (λ w. (w, now)) (append-nil (frame_of f))) (frames_at-arrivals now fs)

arrivals-IsArrival :
    (now mtu : ℕ) (fs : List Fragment)
    → All (λ f. IsFragment f mtu) fs
    → All (IsArrival mtu) (arrivals now fs)
arrivals-IsArrival now mtu [] v = tt
arrivals-IsArrival now mtu (f ∷ fs) v =
    let within : fragment_header_size + length f.payload ≤ mtu = v.0.within in
    (record { fragment = v.0; within = omega arith }, arrivals-IsArrival now mtu fs v.1)

arrivals-Timely :
    (now timeout : ℕ) (fs : List Fragment) → 0 < timeout → Timely timeout (arrivals now fs)
arrivals-Timely now timeout [] h = tt
arrivals-Timely now timeout (f ∷ []) h = tt
arrivals-Timely now timeout (f ∷ g ∷ fs) h = (omega arith, arrivals-Timely now timeout (g ∷ fs) h)

-- A packet of 1 to 2048 bytes that is split for an MTU from 6 to 68 under a transfer id of 16 bits
-- and whose frames arrive in order, at one time, at a reassembler with that MTU, a positive timeout
-- and no transfer under the key, whose map has no key twice: `split` succeeds, each frame but the last is answered by
-- `in_progress`, and the last by the packet.
pub accept_all-split :
    (r : Reassembler) (packet : Bytes) (transfer_id stream_id now : ℕ)
    → fragment_header_size < r.mtu
    → r.mtu ≤ 68
    → 0 < r.timeout
    → 1 ≤ length packet
    → length packet ≤ maximum_packet_size
    → transfer_id < 2 ^ 16
    → Distinct r.transfers
    → find (key stream_id transfer_id) r.transfers ≡ none
    → (frames : List Bytes) × (split r.mtu packet transfer_id ≡ ok frames)
      × ((accept_all r stream_id (at_time now frames)).0 ≡ expected (length frames) packet)
accept_all-split r packet transfer_id stream_id now h1 h2 ht h3 h4 hid d absent =
    let (fs, done, valid, chain, whole) = split-payloads r.mtu packet transfer_id h1 h2 h3 h4 hid in
    (frames_of fs, done, delivered fs valid chain whole)
  where
    delivered :
        (fs : List Fragment)
        → All (λ f. IsFragment f r.mtu) fs
        → Chain transfer_id 0 fs
        → payloads fs ≡ packet
        → (accept_all r stream_id (at_time now (frames_of fs))).0
          ≡ expected (length (frames_of fs)) packet
    delivered [] valid chain whole = absurd (omega (arith, ap length whole))
    delivered (f ∷ fs) valid chain whole =
        ap (λ w. (accept_all r stream_id w).0) (sym (frames_at-arrivals now (f ∷ fs)))
        ∙ accept_all-in_order r stream_id transfer_id
            (record { fragment = f; padding = 0; time = now }) (arrivals now fs) d absent
            (subst (Chain transfer_id 0) (sym (fragments_of-arrivals now (f ∷ fs))) chain)
            (arrivals-IsArrival now r.mtu (f ∷ fs) valid)
            (arrivals-Timely now r.timeout (f ∷ fs) ht) (omega (arith, ap length packet_back))
        ∙ ap (expected (length (arrivals now (f ∷ fs)))) packet_back
        ∙ ap (λ n. expected n packet) (length-arrivals now (f ∷ fs))
      where
        packet_back : payloads (fragments_of (arrivals now (f ∷ fs))) ≡ packet
        packet_back = ap payloads (fragments_of-arrivals now (f ∷ fs)) ∙ whole
