-- ===== src/Protocol/Fragmentation/Reassembler/Pieces.antt =====
-- What a transfer holds while the fragments of a packet arrive in order.
use remote_bsp.Prelude.{
  ℕ, zero, suc, ◌+◌, ◌≤◌, ◌≡◌, refl, sym, ap, ◌∙◌, ◌==◌, true, false, if◌then◌else◌, Option, none,
  some, List, [], ◌∷◌, ◌++◌, append-nil, append_assoc, length, length-append, ok, arith,
}
use native.Mathlib.Nat.{zero-add}
use remote_bsp.Prelude.Map.{Map, find, emplace, find-emplace}
use remote_bsp.Bytes.{Bytes}
use remote_bsp.Protocol.Packet.{maximum_packet_size}
use remote_bsp.Protocol.Fragmentation.Frame.{Fragment, fragment_last, has_flag}
use remote_bsp.Protocol.Fragmentation.Split.Pieces.{payloads}
use remote_bsp.Protocol.Fragmentation.Reassembler.{
  Reassembler, Transfer, join_pieces, try_complete, new_transfer, store, in_progress_result,
  complete_result, add_piece, accept_piece,
}

-- The payload of the fragment at a position.
abbrev pub payload_at : List Fragment → ℕ → Option Bytes
payload_at [] s = none
payload_at (f ∷ fs) zero = some f.payload
payload_at (f ∷ fs) (suc s) = payload_at fs s

payload_at_snoc :
    (fs : List Fragment) (f : Fragment) (s : ℕ)
    → payload_at (fs ++ (f ∷ [])) s ≡ (if length fs == s then some f.payload else payload_at fs s)
payload_at_snoc [] f zero = refl
payload_at_snoc [] f (suc s) = ground arith
payload_at_snoc (g ∷ fs) f zero = ground arith
payload_at_snoc (g ∷ fs) f (suc s) = ground (arith, payload_at_snoc fs f s)

payload_at_end : (fs : List Fragment) → payload_at fs (length fs) ≡ none
payload_at_end [] = refl
payload_at_end (f ∷ fs) = payload_at_end fs

payloads_snoc :
    (fs : List Fragment) (f : Fragment) → payloads (fs ++ (f ∷ [])) ≡ payloads fs ++ f.payload
payloads_snoc [] f = append-nil f.payload
payloads_snoc (g ∷ fs) f =
    ap (◌++◌ g.payload) (payloads_snoc fs f) ∙ sym (append_assoc g.payload (payloads fs) f.payload)

pub payloads-append : (fs gs : List Fragment) → payloads (fs ++ gs) ≡ payloads fs ++ payloads gs
payloads-append [] gs = refl
payloads-append (g ∷ fs) gs =
    ap (◌++◌ g.payload) (payloads-append fs gs)
    ∙ sym (append_assoc g.payload (payloads fs) (payloads gs))

-- A transfer that holds just these fragments, none of them the last.
pub record Holds (t : Transfer) (done : List Fragment) : Type 0 where
  pub pieces : (s : ℕ) → find s t.pieces ≡ payload_at done s
  pub last_sequence : t.last_sequence ≡ none
  pub received_size : t.received_size ≡ length (payloads done)
  pub is_complete : t.is_complete ≡ false

pub new_transfer-Holds : (now : ℕ) → Holds (new_transfer now) []
unfolding find
new_transfer-Holds now = record {
  pieces = λ s. refl;
  last_sequence = refl;
  received_size = refl;
  is_complete = refl;
}

join_pieces_lem :
    (fs : List Fragment) (i : ℕ) (pieces : Map Bytes) (packet : Bytes)
    → ((s : ℕ) → find (i + s) pieces ≡ payload_at fs s)
    → join_pieces (length fs) i pieces packet ≡ some (packet ++ payloads fs)
unfolding join_pieces
join_pieces_lem [] i pieces packet h = ap some (sym (append-nil packet))
join_pieces_lem (f ∷ fs) i pieces packet h =
    rw (first, join_pieces)
      (join_pieces_lem fs (i + 1) pieces (packet ++ f.payload) rest
        ∙ ap some (append_assoc packet f.payload (payloads fs)))
  where
    first : find i pieces ≡ some f.payload
    first = ap (λ k. find k pieces) (omega arith) ∙ h 0

    rest : (s : ℕ) → find (i + 1 + s) pieces ≡ payload_at fs s
    rest s = ap (λ k. find k pieces) (omega arith) ∙ h (suc s)

-- What `add_piece` makes of a transfer that holds the fragments before.
module _ (t : Transfer) (done : List Fragment) (f : Fragment) (now : ℕ) (h : Holds t done)
    (next : f.sequence ≡ length done) where
  not_received : find f.sequence t.pieces ≡ none
  not_received = ap (λ s. find s t.pieces) next ∙ h.pieces (length done) ∙ payload_at_end done

  pieces_after :
      (s : ℕ) → find s (emplace f.sequence f.payload t.pieces) ≡ payload_at (done ++ (f ∷ [])) s
  pieces_after s =
      find-emplace f.sequence s f.payload t.pieces not_received
      ∙ ap (λ k. if k == s then some f.payload else find s t.pieces) next
      ∙ ap (λ o. if length done == s then some f.payload else o) (h.pieces s)
      ∙ sym (payload_at_snoc done f s)

  size_after : t.received_size + length f.payload ≡ length (payloads (done ++ (f ∷ [])))
  size_after = omega (
    arith,
    h.received_size,
    ap length (payloads_snoc done f),
    length-append (payloads done) f.payload,
  )

  pub add_piece-last_update : (add_piece t f now).last_update ≡ now
  unfolding add_piece
  add_piece-last_update = refl

  pub add_piece-Holds :
      has_flag f.flags fragment_last ≡ false → Holds (add_piece t f now) (done ++ (f ∷ []))
  unfolding add_piece
  add_piece-Holds l = record {
    pieces = pieces_after;
    last_sequence = rw l h.last_sequence;
    received_size = size_after;
    is_complete = h.is_complete;
  }

  try_complete_not_last :
      has_flag f.flags fragment_last ≡ false → try_complete (add_piece t f now) ≡ none
  unfolding try_complete
  try_complete_not_last l = rw ((add_piece-Holds l).last_sequence, try_complete)

  try_complete_last :
      has_flag f.flags fragment_last ≡ true
      → try_complete (add_piece t f now) ≡ some (payloads (done ++ (f ∷ [])))
  unfolding try_complete add_piece
  try_complete_last l =
      rw (l, try_complete)
        (ap (λ n. join_pieces n 0 pieces []) count
          ∙ join_pieces_lem (done ++ (f ∷ [])) 0 pieces [] from_start)
    where
      pieces : Map Bytes
      pieces = emplace f.sequence f.payload t.pieces

      count : f.sequence + 1 ≡ length (done ++ (f ∷ []))
      count = omega (arith, next, length-append done (f ∷ []))

      from_start : (s : ℕ) → find (0 + s) pieces ≡ payload_at (done ++ (f ∷ [])) s
      from_start s = ap (λ i. find i pieces) (zero-add s) ∙ pieces_after s

  module _ (r : Reassembler) (k : ℕ)
      (small : length (payloads (done ++ (f ∷ []))) ≤ maximum_packet_size) where
    pub accept_piece_not_last :
        has_flag f.flags fragment_last ≡ false
        → accept_piece r k t f now ≡ (ok in_progress_result, store r k (add_piece t f now))
    unfolding accept_piece
    accept_piece_not_last l =
        rw (not_received, accept_piece)
          (ground
            (arith, h.is_complete, h.last_sequence, small, size_after, try_complete_not_last l))

    pub accept_piece_last :
        has_flag f.flags fragment_last ≡ true
        → (accept_piece r k t f now).0 ≡ ok (complete_result (payloads (done ++ (f ∷ []))))
    unfolding accept_piece
    accept_piece_last l =
        rw (not_received, accept_piece)
          (ground (arith, h.is_complete, h.last_sequence, small, size_after, try_complete_last l))
