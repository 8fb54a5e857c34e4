-- ===== src/Protocol/Fragmentation/Reassembler/InOrder.antt =====
-- `Reassembler::accept` on the fragments of a packet in order.
use remote_bsp.Prelude.{
  ℕ, zero, suc, ◌+◌, ◌<◌, ◌≤◌, ◌≡◌, refl, sym, ap, subst, ◌∙◌, true, none, some, List, [], ◌∷◌,
  ◌++◌, append_assoc, length, length-append, replicate, All, Result, ok, arith, lt→not_leb,
}
use remote_bsp.Prelude.Map.{
  find, keep_if, Distinct, find-assign_self, find-keep_if, find-keep_if-none, keep_if-Distinct,
  assign-Distinct,
}
use remote_bsp.Bytes.{Bytes}
use remote_bsp.Protocol.Packet.{maximum_packet_size}
use remote_bsp.Protocol.Fragmentation.Frame.{
  Fragment, fragment_first, has_flag, fragment_header_size, decode_fragment,
}
use remote_bsp.Protocol.Fragmentation.FrameRoundTrip.{IsFragment, frame_of, decode_padded}
use remote_bsp.Protocol.Fragmentation.Split.Pieces.{payloads, Chain}
use remote_bsp.Protocol.Fragmentation.Reassembler.{
  Reassembler, Transfer, ReassemblyResult, Failure, key, is_live, expire, new_transfer, store,
  in_progress_result, complete_result, add_piece, accept_piece, accept_fragment, accept,
}
use remote_bsp.Protocol.Fragmentation.Reassembler.Pieces.{
  Holds, new_transfer-Holds, add_piece-Holds, add_piece-last_update, payloads-append,
  accept_piece_not_last, accept_piece_last,
}

-- A fragment on the bus: the zeros behind its frame, and the time at which it arrives.
pub record Arrival : Type 0 where
  pub fragment : Fragment
  pub padding : ℕ
  pub time : ℕ

abbrev pub arriving_frame : Arrival → Bytes
arriving_frame a = frame_of a.fragment ++ replicate a.padding 0

abbrev pub fragments_of : List Arrival → List Fragment
fragments_of [] = []
fragments_of (a ∷ xs) = a.fragment ∷ fragments_of xs

-- What a receiver on a bus with this MTU asks of an arrival.
pub record IsArrival (mtu : ℕ) (a : Arrival) : Type 0 where
  pub fragment : IsFragment a.fragment mtu
  pub within : fragment_header_size + length a.fragment.payload + a.padding ≤ mtu

-- No arrival is as much as the timeout behind the one before it.
abbrev pub Timely : ℕ → List Arrival → Type 0
Timely timeout [] = Unit {0}
Timely timeout (a ∷ []) = Unit {0}
Timely timeout (a ∷ b ∷ xs) = (b.time < a.time + timeout) × Timely timeout (b ∷ xs)

-- The frames with the times at which they arrive.
abbrev pub frames_at : List Arrival → List (Bytes × ℕ)
frames_at [] = []
frames_at (a ∷ xs) = (arriving_frame a, a.time) ∷ frames_at xs

-- The replies to frames, one after the other, and the object behind them.
unfoldable pub accept_all :
    Reassembler → ℕ → List (Bytes × ℕ) → List (Result Failure ReassemblyResult) × Reassembler
accept_all r stream_id [] = ([], r)
accept_all r stream_id ((frame, now) ∷ rest) =
    let (reply, s) = accept r stream_id frame now in
    let (replies, u) = accept_all s stream_id rest in (reply ∷ replies, u)

-- `n` frames, of which every one but the last is answered by `in_progress`, and the last by the packet.
abbrev pub expected : ℕ → Bytes → List (Result Failure ReassemblyResult)
expected zero packet = []
expected (suc zero) packet = ok (complete_result packet) ∷ []
expected (suc (suc n)) packet = ok in_progress_result ∷ expected (suc n) packet

decode_arrival :
    (mtu : ℕ) (a : Arrival)
    → IsArrival mtu a
    → decode_fragment (arriving_frame a) mtu ≡ ok a.fragment
decode_arrival mtu a v =
    let within : fragment_header_size + length a.fragment.payload + a.padding ≤ mtu = v.within in
    decode_padded a.fragment mtu a.padding v.fragment (omega arith)

-- The object that `accept` works on.
abbrev live : Reassembler → ℕ → Reassembler
live r now = (expire r now).1

module _ (r : Reassembler) (stream_id k : ℕ) (a : Arrival) (v : IsArrival r.mtu a)
    (e : key stream_id a.fragment.transfer_id ≡ k) where
  accept_lem :
      accept r stream_id (arriving_frame a) a.time
      ≡ accept_fragment (live r a.time) k a.fragment a.time
  unfolding accept
  accept_lem =
      rw (decode_arrival r.mtu a v, accept)
        (ap (λ j. accept_fragment (live r a.time) j a.fragment a.time) e)

  -- The first fragment of a transfer that is not known.
  accept_first :
      find k r.transfers ≡ none
      → has_flag a.fragment.flags fragment_first ≡ true
      → accept r stream_id (arriving_frame a) a.time
        ≡ accept_piece
            (store (live r a.time) k (new_transfer a.time))
            k
            (new_transfer a.time)
            a.fragment
            a.time
  unfolding accept_fragment expire
  accept_first absent first =
      accept_lem
      ∙ rw (
        find-keep_if-none (is_live r.timeout a.time) k r.transfers absent,
        accept_fragment,
        first,
      )

  -- A fragment of a transfer that is known and has not expired.
  accept_next :
      (t : Transfer)
      → Distinct r.transfers
      → find k r.transfers ≡ some t
      → a.time < t.last_update + r.timeout
      → accept r stream_id (arriving_frame a) a.time
        ≡ accept_piece (live r a.time) k t a.fragment a.time
  unfolding accept_fragment expire
  accept_next t d found soon = accept_lem ∙ rw (kept, accept_fragment)
    where
      kept : find k (keep_if (is_live r.timeout a.time) r.transfers) ≡ some t
      kept =
          find-keep_if (is_live r.timeout a.time) k r.transfers t d found
          ∙ rw (lt→not_leb (t.last_update + r.timeout) a.time soon)

live-Distinct : (r : Reassembler) (now : ℕ) → Distinct r.transfers → Distinct (live r now).transfers
unfolding expire
live-Distinct r now d = keep_if-Distinct (is_live r.timeout now) r.transfers d

live-mtu : (r : Reassembler) (now : ℕ) → (live r now).mtu ≡ r.mtu
unfolding expire
live-mtu r now = refl

live-timeout : (r : Reassembler) (now : ℕ) → (live r now).timeout ≡ r.timeout
unfolding expire
live-timeout r now = refl

module _ (stream_id transfer_id mtu timeout : ℕ) where
  abbrev k : ℕ
  k = key stream_id transfer_id

  -- The arrivals from `a` on, where `accept` works on `r0` and `t` for the first of them.
  receive :
      (xs : List Arrival) (a : Arrival) (r r0 : Reassembler) (t : Transfer) (done : List Fragment)
      → r0.mtu ≡ mtu
      → r0.timeout ≡ timeout
      → Distinct r0.transfers
      → Holds t done
      → Chain transfer_id (length done) (fragments_of (a ∷ xs))
      → All (IsArrival mtu) (a ∷ xs)
      → Timely timeout (a ∷ xs)
      → length (payloads (done ++ fragments_of (a ∷ xs))) ≤ maximum_packet_size
      → accept r stream_id (arriving_frame a) a.time ≡ accept_piece r0 k t a.fragment a.time
      → (accept_all r stream_id (frames_at (a ∷ xs))).0
        ≡ expected (length (a ∷ xs)) (payloads (done ++ fragments_of (a ∷ xs)))
  unfolding accept_all
  receive [] a r r0 t done hm ht d h c v w small e =
      rw e (ap (λ x. x ∷ []) (accept_piece_last t done a.fragment a.time h c.1 r0 k small c.2))
  receive (b ∷ xs) a r r0 t done hm ht d h c v w small e = rw step (
      ap (◌∷◌ (ok in_progress_result)) (
        receive xs b stored (live stored b.time) t' done' hm' ht'
          (live-Distinct stored b.time (assign-Distinct k t' r0.transfers d))
          (add_piece-Holds t done a.fragment a.time h c.1 c.2) chain' v.1 w.1 small'
          (accept_next stored stream_id k b (subst (λ m. IsArrival m b) (sym hm) v.1.0)
            (ap (key stream_id) c.3.0) t' (assign-Distinct k t' r0.transfers d)
            (find-assign_self k t' r0.transfers) soon)
        ∙ ap (λ fs. expected (length (b ∷ xs)) (payloads fs)) regroup))
    where
      t' : Transfer
      t' = add_piece t a.fragment a.time

      stored : Reassembler
      stored = store r0 k t'

      done' : List Fragment
      done' = done ++ (a.fragment ∷ [])

      regroup : done' ++ fragments_of (b ∷ xs) ≡ done ++ fragments_of (a ∷ b ∷ xs)
      regroup = append_assoc done (a.fragment ∷ []) (fragments_of (b ∷ xs))

      small' : length (payloads (done' ++ fragments_of (b ∷ xs))) ≤ maximum_packet_size
      small' = subst (λ fs. length (payloads fs) ≤ maximum_packet_size) (sym regroup) small

      front : length (payloads done') ≤ maximum_packet_size
      front = omega (
        arith,
        small',
        ap length (payloads-append done' (fragments_of (b ∷ xs))),
        length-append (payloads done') (payloads (fragments_of (b ∷ xs))),
      )

      step : accept r stream_id (arriving_frame a) a.time ≡ (ok in_progress_result, stored)
      step = e ∙ accept_piece_not_last t done a.fragment a.time h c.1 r0 k front c.2

      chain' : Chain transfer_id (length done') (fragments_of (b ∷ xs))
      chain' =
          subst (λ i. Chain transfer_id i (fragments_of (b ∷ xs)))
            (sym (length-append done (a.fragment ∷ []))) c.3

      hm' : (live stored b.time).mtu ≡ mtu
      hm' = live-mtu stored b.time ∙ hm

      ht' : (live stored b.time).timeout ≡ timeout
      ht' = live-timeout stored b.time ∙ ht

      soon : b.time < t'.last_update + stored.timeout
      soon = omega (arith, w.0, ht, add_piece-last_update t done a.fragment a.time h c.1)

-- Fragments of one transfer, numbered from 0 on with the last and only the last marked as such, whose
-- payloads make up at most 2048 bytes, arrive in order, each padded with any number of zeros within
-- the MTU and less than the timeout behind the one before. A reassembler that has no transfer under
-- their key, and no key twice, answers `in_progress` to each but the last, and to the last the joined payloads.
pub accept_all-in_order :
    (r : Reassembler) (stream_id transfer_id : ℕ) (a : Arrival) (xs : List Arrival)
    → Distinct r.transfers
    → find (key stream_id transfer_id) r.transfers ≡ none
    → Chain transfer_id 0 (fragments_of (a ∷ xs))
    → All (IsArrival r.mtu) (a ∷ xs)
    → Timely r.timeout (a ∷ xs)
    → length (payloads (fragments_of (a ∷ xs))) ≤ maximum_packet_size
    → (accept_all r stream_id (frames_at (a ∷ xs))).0
      ≡ expected (length (a ∷ xs)) (payloads (fragments_of (a ∷ xs)))
accept_all-in_order r stream_id transfer_id a xs d absent c v w small =
    receive stream_id transfer_id r.mtu r.timeout xs a r
      (store (live r a.time) k' (new_transfer a.time)) (new_transfer a.time) [] (live-mtu r a.time)
      (live-timeout r a.time)
      (assign-Distinct k' (new_transfer a.time) (live r a.time).transfers
        (live-Distinct r a.time d))
      (new_transfer-Holds a.time) c v w small
      (accept_first r stream_id k' a v.0 (ap (key stream_id) c.0) absent first)
  where
    k' : ℕ
    k' = key stream_id transfer_id

    first : has_flag a.fragment.flags fragment_first ≡ true
    first = v.0.fragment.starts ∙ rw c.1
