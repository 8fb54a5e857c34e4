-- ===== src/MockMcu/Node/Steps.antt =====
-- mock_mcu/src/mock_node.cpp: the cache of the simulated node over each call.
use remote_bsp.Prelude.{
  ℕ, suc, ◌≤◌, ◌≡◌, refl, ap, ◌∙◌, ◌&&◌, ◌||◌, Bool, true, false, Option, none, some, List, [], ◌∷◌,
  length, if◌then◌else◌, Result, ok, err, arith,
}
use remote_bsp.Prelude.Map.{Map, find, Distinct}
use remote_bsp.Bytes.{Bytes}
use remote_bsp.Protocol.Packet.{Packet, PacketError, encode}
use remote_bsp.Protocol.Fragmentation.Frame.{decode_fragment}
use remote_bsp.Protocol.Fragmentation.Reassembler
use remote_bsp.Protocol.Fragmentation.Reassembler.{Reassembler, ReassemblyResult}
use remote_bsp.MockMcu.RemoteCore.{RemoteCore}
use remote_bsp.MockMcu.RemoteCore.UartHandlers.{poll_uart_events}
use remote_bsp.MockMcu.Node.{
  NodeReply, NodeFailure, MockNode, CachedRequest, make_reply, allocated, reassembly_failure,
  packet_failure, invalid_argument,
}
use remote_bsp.MockMcu.Node.Calls.{
  handle_packet, handle_frame, make_heartbeat, send_events, poll_node_events, expire, drop_cached,
  drop_order, clear_session, is_of_session, is_complete, is_duplicate, is_last_frame,
}
use remote_bsp.MockMcu.Node.Bounds.{keys, IsBounded, handle_packet-IsBounded}

pub handle_frame-IsBounded :
    {m : ℕ} (node : MockNode) (stream_id : ℕ) (frame : Bytes) (now : ℕ)
    → IsBounded m node
    → IsBounded m (handle_frame node stream_id frame now).1
unfolding handle_frame
handle_frame-IsBounded {m = m} node stream_id frame now h =
    choose (Reassembler.accept node.reassembler stream_id frame now).0
  where
    received : MockNode
    received = record node {
      reassembler = (Reassembler.accept node.reassembler stream_id frame now).1;
    }

    choose :
        (outcome : Result Reassembler.Failure ReassemblyResult)
        → IsBounded m
            (elim outcome as (λ o. Result NodeFailure (Option NodeReply) × MockNode) [
              | err e ↦ (err (reassembly_failure e), received)
              | ok result ↦
                  handle_packet received now
                    (is_complete result.status
                      || (is_duplicate result.status
                          && is_last_frame (decode_fragment frame node.mtu)))
                    result.packet
            ]).1
    choose (err e) = h
    choose (ok result) =
        handle_packet-IsBounded received now
          (is_complete result.status
            || (is_duplicate result.status && is_last_frame (decode_fragment frame node.mtu)))
          result.packet h

pub make_heartbeat-IsBounded :
    {m : ℕ} (node : MockNode) → IsBounded m node → IsBounded m (make_heartbeat node).1
unfolding make_heartbeat
make_heartbeat-IsBounded node h = ground (arith, h)

-- The outcomes of one event, before a later state of the node or at it.
sent-IsBounded :
    {m : ℕ} (node sent : MockNode) (encoded : Result PacketError Bytes)
    (reply_to : Bytes → Result NodeFailure NodeReply) (later : Result NodeFailure (List NodeReply))
    → IsBounded m node
    → IsBounded m sent
    → IsBounded m
        (elim encoded as (λ e. Result NodeFailure (List NodeReply) × MockNode) [
          | err e ↦ (err (packet_failure e), node)
          | ok bytes ↦
              elim (reply_to bytes) as (λ e. Result NodeFailure (List NodeReply) × MockNode) [
                | err e ↦ (err e, node)
                | ok reply ↦ elim later as (λ e. Result NodeFailure (List NodeReply) × MockNode) [
                  | err e ↦ (err e, sent)
                  | ok replies ↦ (ok (reply ∷ replies), sent)
                ]
              ]
        ]).1
sent-IsBounded node sent encoded reply_to later h hs = ground (arith, h, hs)

send_events-IsBounded :
    {m : ℕ} (node : MockNode) (events : List Packet)
    → IsBounded m node
    → IsBounded m (send_events node events).1
unfolding send_events
send_events-IsBounded node [] h = h
send_events-IsBounded node (event ∷ events) h =
    sent-IsBounded (allocated node) (send_events (allocated node) events).1 (encode event)
      (λ bytes. make_reply node.mtu bytes node.next_outbound_transfer_id)
      (send_events (allocated node) events).0 h (send_events-IsBounded (allocated node) events h)

pub poll-IsBounded :
    {m : ℕ} (node : MockNode) (maximum_payload : ℕ)
    → IsBounded m node
    → IsBounded m (poll_node_events node maximum_payload).1
unfolding poll_node_events
poll-IsBounded {m = m} node maximum_payload h = choose (poll_uart_events node.core maximum_payload)
  where
    choose :
        (polled : Option (List Packet × RemoteCore))
        → IsBounded m
            (elim polled as (λ o. Result NodeFailure (List NodeReply) × MockNode) [
              | none ↦ (err invalid_argument, node)
              | some polled ↦ send_events (record node { core = polled.1 }) polled.0
            ]).1
    choose none = h
    choose (some polled) = send_events-IsBounded (record node { core = polled.1 }) polled.0 h

find-drop_cached-none :
    (session_id k : ℕ) (cache : Map CachedRequest)
    → find k cache ≡ none
    → find k (drop_cached session_id cache) ≡ none
unfolding drop_cached find
find-drop_cached-none session_id k [] h = refl
find-drop_cached-none session_id k ((j, w) ∷ cache) h =
    ground (arith, find-drop_cached-none session_id k cache)

-- The cache and the order lose the same keys.
drop_cached-IsKept :
    (session_id : ℕ) (cache : Map CachedRequest)
    → Distinct cache
    → (keys (drop_cached session_id cache) ≡ drop_order session_id (keys cache))
      × Distinct (drop_cached session_id cache)
      × (length (drop_cached session_id cache) ≤ length cache)
unfolding drop_cached drop_order
drop_cached-IsKept session_id [] d = (refl, tt, omega arith)
drop_cached-IsKept session_id ((j, w) ∷ cache) d =
    choose (is_of_session session_id j) (drop_cached-IsKept session_id cache d.1)
  where
    rest : Map CachedRequest
    rest = drop_cached session_id cache

    choose :
        (b : Bool)
        → (keys rest ≡ drop_order session_id (keys cache))
          × Distinct rest
          × (length rest ≤ length cache)
        → (keys (if b then rest else (j, w) ∷ rest) ≡ (
            if b
            then drop_order session_id (keys cache)
            else j ∷ drop_order session_id (keys cache)))
          × Distinct (if b then rest else (j, w) ∷ rest)
          × (length (if b then rest else (j, w) ∷ rest) ≤ suc (length cache))
    choose true (listed, distinct, shorter) = (listed, distinct, omega (arith, shorter))
    choose false (listed, distinct, shorter) = (
      ap (◌∷◌ j) listed,
      (find-drop_cached-none session_id j cache d.0, distinct),
      omega (arith, shorter),
    )

pub clear_session-IsBounded :
    {m : ℕ} (node : MockNode) (session_id : ℕ)
    → IsBounded m node
    → IsBounded m (clear_session node session_id).1
unfolding clear_session
clear_session-IsBounded node session_id ((e, d, short, one), same) =
    let (listed, distinct, shorter) = drop_cached-IsKept session_id node.cache d in
    ((listed ∙ ap (drop_order session_id) e, distinct, omega (arith, shorter, short), one), same)

pub expire-IsBounded :
    {m : ℕ} (node : MockNode) (now : ℕ) → IsBounded m node → IsBounded m (expire node now).1
unfolding expire
expire-IsBounded node now h = h
