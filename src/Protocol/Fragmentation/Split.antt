-- ===== src/Protocol/Fragmentation/Split.antt =====
-- `Fragmenter::split`: a packet cut into frames.
pub mod Pieces
use remote_bsp.Prelude.{
  ℕ, zero, suc, ◌+◌, ◌-◌, ◌*◌, ◌/◌, min, bit_or, ltb, ◌==◌, if◌then◌else◌, List, [], ◌∷◌, ◌++◌,
  length, take, drop, Result, ok, err, throw_if, ◌>>◌, ◌>>=◌,
}
use remote_bsp.Bytes.{Bytes, u16}
use remote_bsp.Protocol.Packet.{maximum_packet_size}
use remote_bsp.Protocol.Fragmentation.Frame.{
  Fragment, FragmentError, empty_packet, packet_too_large, fragment_header_size, fragment_first,
  fragment_last, validate_mtu, encode_fragment,
}

-- `Fragmenter::Fragmenter`: the state is the MTU.
unfoldable pub make_fragmenter : ℕ → Result FragmentError ℕ
unfolding validate_mtu
make_fragmenter mtu = validate_mtu mtu >> ok mtu

-- The fragment that the loop of `split` makes in round `i`.
unfoldable pub fragment_at : Bytes → ℕ → ℕ → ℕ → ℕ → Fragment
fragment_at packet transfer_id capacity count i =
    let offset = i * capacity in
    let size = min capacity (length packet - offset) in
    record {
      transfer_id = transfer_id;
      sequence = u16 i;
      flags =
          bit_or (if i == 0 then fragment_first else 0)
            (if i + 1 == count then fragment_last else 0);
      payload = take size (drop offset packet);
    }

-- The loop, `n` rounds of it from `i` on, with the frames made so far.
unfoldable pub split_from :
    ℕ → Bytes → ℕ → ℕ → ℕ → ℕ → ℕ → List Bytes → Result FragmentError (List Bytes)
split_from mtu packet transfer_id capacity count zero i frames = ok frames
split_from mtu packet transfer_id capacity count (suc n) i frames =
    encode_fragment (fragment_at packet transfer_id capacity count i) mtu >>= λ frame.
    split_from mtu packet transfer_id capacity count n (i + 1) (frames ++ (frame ∷ []))

unfoldable pub frame_count : ℕ → ℕ → ℕ
frame_count capacity size = (size + capacity - 1) / capacity

unfoldable pub split : ℕ → Bytes → ℕ → Result FragmentError (List Bytes)
unfolding frame_count
split mtu packet transfer_id = do
  throw_if (length packet == 0) empty_packet
  throw_if (ltb maximum_packet_size (length packet)) packet_too_large
  let capacity = mtu - fragment_header_size
  let count = frame_count capacity (length packet)
  throw_if (ltb 0xFFFF count) packet_too_large
  split_from mtu packet transfer_id capacity count count 0 []
