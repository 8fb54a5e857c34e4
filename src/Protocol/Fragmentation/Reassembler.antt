-- ===== src/Protocol/Fragmentation/Reassembler.antt =====
-- The class `Reassembler`. A time point is a number of ticks, the timeout a positive number of them.
-- A call that throws returns its error beside the object that it leaves.
pub mod Pieces
pub mod InOrder
pub mod RoundTrip
use remote_bsp.Prelude.{
  ℕ, zero, suc, ◌+◌, ◌-◌, ◌*◌, ◌^◌, bit_or, ltb, leb, ◌==◌, not, ◌&&◌, ◌||◌, Bool, true, false,
  if◌then◌else◌, Option, none, some, List, [], ◌∷◌, ◌++◌, length, Result, ok, err, throw_if, ◌>>◌,
  ◌>>=◌,
}
use remote_bsp.Prelude.Map.{Map, find, assign, emplace, erase, keep_if}
use remote_bsp.Bytes.{Bytes, bytes_eq}
use remote_bsp.Protocol.Packet.{maximum_packet_size}
use remote_bsp.Protocol.Fragmentation.Frame.{
  Fragment, FragmentError, unknown_transfer, conflicting_duplicate, data_after_last,
  invalid_sequence, reassembled_packet_too_large, fragment_first, fragment_last, has_flag,
  decode_fragment, validate_mtu,
}

pub data ReassemblyStatus : Type 0 where
  in_progress complete duplicate : ReassemblyStatus

pub record ReassemblyResult : Type 0 where
  pub status : ReassemblyStatus
  pub packet : Option Bytes

pub record Transfer : Type 0 where
  pub last_update : ℕ
  pub pieces : Map Bytes
  pub piece_flags : Map ℕ
  pub last_sequence : Option ℕ
  pub received_size : ℕ
  pub is_complete : Bool
  pub completed_packet : Bytes

pub record Reassembler : Type 0 where
  pub mtu : ℕ
  pub timeout : ℕ
  pub transfers : Map Transfer

-- `stream_id << 16 | transfer_id`, the two halves of a 64-bit key
unfoldable pub key : ℕ → ℕ → ℕ
key stream_id transfer_id = bit_or (stream_id * 2 ^ 16) transfer_id

-- `now - last_update >= timeout`, a comparison of signed durations
abbrev pub is_live : ℕ → ℕ → Transfer → Bool
is_live timeout now t = not (leb (t.last_update + timeout) now)

-- The number of transfers that are removed, and what is left.
unfoldable pub expire : Reassembler → ℕ → ℕ × Reassembler
expire r now =
    let kept = keep_if (is_live r.timeout now) r.transfers in
    (length r.transfers - length kept, record r { transfers = kept })

unfoldable pub pending : Reassembler → ℕ
pending r = length r.transfers

-- The loop of `try_complete`: `n` sequences from `sequence` on, behind what was joined so far.
unfoldable pub join_pieces : ℕ → ℕ → Map Bytes → Bytes → Option Bytes
join_pieces zero sequence pieces packet = some packet
join_pieces (suc n) sequence pieces packet = elim (find sequence pieces) [
  | none ↦ none
  | some piece ↦ join_pieces n (sequence + 1) pieces (packet ++ piece)
]

unfoldable pub try_complete : Transfer → Option Bytes
unfolding join_pieces
try_complete t = elim t.last_sequence [
  | none ↦ none
  | some last ↦ join_pieces (last + 1) 0 t.pieces []
]

abbrev pub new_transfer : ℕ → Transfer
new_transfer now = record {
  last_update = now;
  pieces = [];
  piece_flags = [];
  last_sequence = none;
  received_size = 0;
  is_complete = false;
  completed_packet = [];
}

-- What a call throws: a `FragmentException`, or the `std::out_of_range` of `piece_flags.at`.
pub data Failure : Type 0 where
  thrown : FragmentError → Failure
  out_of_range invalid_argument : Failure

-- The constructor. A timeout below 0, which the C++ type has, takes the branch of 0.
unfoldable pub new_reassembler : ℕ → ℕ → Result Failure Reassembler
unfolding validate_mtu
new_reassembler mtu timeout = elim (validate_mtu mtu) [
  | err e ↦ err (thrown e)
  | ok _ ↦
      if leb timeout 0
      then err invalid_argument
      else ok (record { mtu = mtu; timeout = timeout; transfers = [] })
]

abbrev pub Reply : Type 0
Reply = Result Failure ReassemblyResult × Reassembler

-- The object with a transfer written back.
abbrev pub store : Reassembler → ℕ → Transfer → Reassembler
store r k t = record r { transfers = assign k t r.transfers }

abbrev pub in_progress_result : ReassemblyResult
in_progress_result = record { status = in_progress; packet = none }

abbrev pub complete_result : Bytes → ReassemblyResult
complete_result packet = record { status = complete; packet = some packet }

-- A sequence that was received before, as `piece` with `flags`.
unfoldable pub accept_duplicate :
    Reassembler → ℕ → Transfer → Fragment → ℕ → Bytes → Option ℕ → Reply
accept_duplicate r k t f now piece none =
    if not (bytes_eq piece f.payload)
    then (err (thrown conflicting_duplicate), r)
    else (err out_of_range, r)
accept_duplicate r k t f now piece (some flags) =
    if not (bytes_eq piece f.payload) || not (flags == f.flags)
    then (err (thrown conflicting_duplicate), r)
    else (
      ok (record {
        status = duplicate;
        packet = if t.is_complete then some t.completed_packet else none;
      }),
      store r k (record t { last_update = now }),
    )

abbrev pub follows_last : Option ℕ → ℕ → Bool
follows_last none sequence = false
follows_last (some last) sequence = ltb last sequence

abbrev pub other_last : Option ℕ → ℕ → Bool
other_last none sequence = false
other_last (some last) sequence = not (last == sequence)

-- The transfer with a new piece.
unfoldable pub add_piece : Transfer → Fragment → ℕ → Transfer
unfolding emplace
add_piece t f now = record t {
  last_update = now;
  received_size = t.received_size + length f.payload;
  pieces = emplace f.sequence f.payload t.pieces;
  piece_flags = emplace f.sequence f.flags t.piece_flags;
  last_sequence = if has_flag f.flags fragment_last then some f.sequence else t.last_sequence;
}

unfoldable pub finish : Reassembler → ℕ → Transfer → Option Bytes → Reply
finish r k t none = (ok in_progress_result, store r k t)
finish r k t (some packet) = (
  ok (complete_result packet),
  store r k (record t { is_complete = true; completed_packet = packet }),
)

-- A sequence that was not received before.
unfoldable pub accept_new : Reassembler → ℕ → Transfer → Fragment → ℕ → Reply
unfolding finish
accept_new r k t f now =
    if t.is_complete || follows_last t.last_sequence f.sequence
    then (err (thrown data_after_last), r)
    else if has_flag f.flags fragment_last && other_last t.last_sequence f.sequence
    then (err (thrown invalid_sequence), r)
    else if ltb maximum_packet_size (t.received_size + length f.payload)
    then (err (thrown reassembled_packet_too_large), record r { transfers = erase k r.transfers })
    else finish r k (add_piece t f now) (try_complete (add_piece t f now))

unfoldable pub accept_piece : Reassembler → ℕ → Transfer → Fragment → ℕ → Reply
unfolding accept_duplicate accept_new
accept_piece r k t f now = elim (find f.sequence t.pieces) [
  | some piece ↦ accept_duplicate r k t f now piece (find f.sequence t.piece_flags)
  | none ↦ accept_new r k t f now
]

unfoldable pub accept_fragment : Reassembler → ℕ → Fragment → ℕ → Reply
unfolding accept_piece
accept_fragment r k f now = elim (find k r.transfers) [
  | none ↦
      if not (has_flag f.flags fragment_first)
      then (err (thrown unknown_transfer), r)
      else accept_piece (store r k (new_transfer now)) k (new_transfer now) f now
  | some t ↦ accept_piece r k t f now
]

unfoldable pub accept : Reassembler → ℕ → Bytes → ℕ → Reply
unfolding expire accept_fragment
accept r stream_id frame now =
    let live = (expire r now).1 in
    elim (decode_fragment frame live.mtu) [
      | err e ↦ (err (thrown e), live)
      | ok f ↦ accept_fragment live (key stream_id f.transfer_id) f now
    ]
