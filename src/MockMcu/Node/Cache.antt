-- ===== src/MockMcu/Node/Cache.antt =====
-- mock_mcu/src/mock_node.cpp: `process_request` on a request and on its repetition.
use remote_bsp.Prelude.{
  ℕ, ◌≡◌, refl, sym, ap, subst, ◌∙◌, ◌==◌, Bool, true, false, Option, none, some, List, [], ◌∷◌,
  length, if◌then◌else◌, Result, ok, err, arith, Option-cases, inl, inr,
}
use remote_bsp.Prelude.Map.{find, Distinct, find-emplace}
use remote_bsp.Prelude.Entries.{find-erase-none}
use remote_bsp.Bytes.{Bytes}
use remote_bsp.Bytes.Laws.{bytes_eq_iff}
use remote_bsp.Protocol.Packet.{Packet, PacketError, encode}
use remote_bsp.MockMcu.Node.{
  NodeReply, NodeFailure, MockNode, CachedRequest, request_key, same_request, make_reply,
  reply_with, some_reply, reply_outcome, erase_front, insert_cache, execute, answer_discovery,
  answer_assignment, answer_core, keep_response, cache_response, repeat_response, process_request,
  count_up,
}

abbrev pub key_of : Packet → ℕ
key_of request = request_key request.header.session_id request.header.request_id

same_request_refl : (request : Packet) → same_request request request ≡ true
unfolding same_request
same_request_refl request = ground (arith, (bytes_eq_iff request.payload request.payload).1 refl)

-- The execution of a request leaves the cache and its bound.
pub execute-cache :
    (node : MockNode) (request : Packet) (now : ℕ)
    → ((execute node request now).1.cache ≡ node.cache)
      × ((execute node request now).1.maximum_cached_requests ≡ node.maximum_cached_requests)
      × ((execute node request now).1.cache_order ≡ node.cache_order)
      × ((execute node request now).1.mtu ≡ node.mtu)
unfolding execute answer_discovery answer_assignment answer_core
execute-cache node request now = ground arith

-- A new entry is found.
find-insert_cache :
    (key : ℕ) (entry : CachedRequest) (node : MockNode)
    → Distinct node.cache
    → find key node.cache ≡ none
    → find key (insert_cache key entry node).cache ≡ some entry
unfolding insert_cache
find-insert_cache key entry node d h =
    find-emplace key key entry
      (if full then erase_front node.cache_order node.cache else node.cache)
      (absent full node.cache_order)
    ∙ ground arith
  where
    full : Bool
    full = length node.cache == node.maximum_cached_requests

    absent :
        (b : Bool) (order : List ℕ)
        → find key (if b then erase_front order node.cache else node.cache) ≡ none
    absent false order = h
    absent true [] = h
    absent true (k ∷ order) = find-erase-none k key node.cache d h

-- An answer from the cache, to a request that is the one which the entry keeps.
repeated :
    (node : MockNode) (request : Packet) (now : ℕ) (found : CachedRequest)
    → find (key_of request) node.cache ≡ some found
    → same_request found.request request ≡ true
    → process_request node request now
      ≡ some_reply (
          reply_with
            (record node { cached_response_count = count_up node.cached_response_count })
            found.encoded_response)
unfolding process_request repeat_response
repeated node request now found h same = rw (h, process_request, same, repeat_response) refl

-- What a repetition of a request finds: bytes, which a reply has sent.
pub record Kept (request : Packet) (reply : NodeReply) (node : MockNode) : Type 0 where
  pub entry : CachedRequest
  pub found : find (key_of request) node.cache ≡ some entry
  pub same : same_request entry.request request ≡ true
  pub sent : make_reply node.mtu entry.encoded_response reply.transfer_id ≡ ok reply

make_reply-id :
    (mtu : ℕ) (bytes : Bytes) (transfer_id : ℕ) (reply : NodeReply)
    → make_reply mtu bytes transfer_id ≡ ok reply
    → reply.transfer_id ≡ transfer_id
unfolding make_reply
make_reply-id mtu bytes transfer_id reply h = ground (arith, h)

make_reply_id :
    (mtu : ℕ) (bytes : Bytes) (transfer_id : ℕ) (reply : NodeReply)
    → make_reply mtu bytes transfer_id ≡ ok reply
    → make_reply mtu bytes reply.transfer_id ≡ ok reply
make_reply_id mtu bytes transfer_id reply h =
    ap (make_reply mtu bytes) (make_reply-id mtu bytes transfer_id reply h) ∙ h

repeat-node :
    (node : MockNode) (request : Packet) (found : CachedRequest)
    → ((repeat_response node request found).1.cache ≡ node.cache)
      × ((repeat_response node request found).1.mtu ≡ node.mtu)
unfolding repeat_response
repeat-node node request found = ground arith

repeat-sent :
    (node : MockNode) (request : Packet) (found : CachedRequest) (reply : NodeReply)
    → (repeat_response node request found).0 ≡ ok (some reply)
    → (same_request found.request request ≡ true)
      × (make_reply node.mtu found.encoded_response node.next_outbound_transfer_id ≡ ok reply)
unfolding repeat_response
repeat-sent node request found reply h = ground (arith, h)

repeat-Kept :
    (node : MockNode) (request : Packet) (found : CachedRequest) (reply : NodeReply)
    → find (key_of request) node.cache ≡ some found
    → (repeat_response node request found).0 ≡ ok (some reply)
    → Kept request reply (repeat_response node request found).1
repeat-Kept node request found reply h e =
    let (cache, mtu) = repeat-node node request found in
    let (same, sent) = repeat-sent node request found reply e in
    record {
      entry = found;
      found = ap (find (key_of request)) cache ∙ h;
      same = same;
      sent =
          ap (λ m. make_reply m found.encoded_response reply.transfer_id) mtu
          ∙ make_reply_id node.mtu found.encoded_response node.next_outbound_transfer_id reply sent;
    }

cache-node :
    (key : ℕ) (request : Packet) (node : MockNode) (bytes : Bytes)
    → ((cache_response key request node (ok bytes)).1.cache
        ≡ (insert_cache key (record { request = request; encoded_response = bytes }) node).cache)
      × ((cache_response key request node (ok bytes)).1.mtu ≡ node.mtu)
unfolding cache_response insert_cache
cache-node key request node bytes = ground arith

cache-sent :
    (key : ℕ) (request : Packet) (node : MockNode) (bytes : Bytes) (reply : NodeReply)
    → (cache_response key request node (ok bytes)).0 ≡ ok (some reply)
    → make_reply node.mtu bytes node.next_outbound_transfer_id ≡ ok reply
unfolding cache_response insert_cache
cache-sent key request node bytes reply h = ground (arith, h)

cache-failed :
    (key : ℕ) (request : Packet) (node : MockNode) (e : PacketError) (reply : NodeReply)
    → ¬ ((cache_response key request node (err e)).0 ≡ ok (some reply))
unfolding cache_response
cache-failed key request node e reply h = cc

cache-Kept :
    (request : Packet) (node : MockNode) (encoded : Result PacketError Bytes) (reply : NodeReply)
    → Distinct node.cache
    → find (key_of request) node.cache ≡ none
    → (cache_response (key_of request) request node encoded).0 ≡ ok (some reply)
    → Kept request reply (cache_response (key_of request) request node encoded).1
cache-Kept request node (err e) reply d h done =
    absurd (cache-failed (key_of request) request node e reply done)
cache-Kept request node (ok bytes) reply d h done =
    let (cache, mtu) = cache-node (key_of request) request node bytes in
    record {
      entry = record { request = request; encoded_response = bytes };
      found =
          ap (find (key_of request)) cache
          ∙ find-insert_cache (key_of request)
              (record { request = request; encoded_response = bytes }) node d h;
      same = same_request_refl request;
      sent =
          ap (λ m. make_reply m bytes reply.transfer_id) mtu
          ∙ make_reply_id node.mtu bytes node.next_outbound_transfer_id reply
              (cache-sent (key_of request) request node bytes reply done);
    }

keep-Kept :
    (request : Packet) (outcome : Result NodeFailure (Option Packet) × MockNode) (reply : NodeReply)
    → Distinct outcome.1.cache
    → find (key_of request) outcome.1.cache ≡ none
    → (keep_response (key_of request) request outcome).0 ≡ ok (some reply)
    → Kept request reply (keep_response (key_of request) request outcome).1
unfolding keep_response
keep-Kept request (err e, node) reply d h done = cc
keep-Kept request (ok none, node) reply d h done = cc
keep-Kept request (ok (some response), node) reply d h done =
    cache-Kept request node (encode response) reply d h done

process-Kept :
    (node : MockNode) (request : Packet) (now : ℕ) (reply : NodeReply)
    → Distinct node.cache
    → (process_request node request now).0 ≡ ok (some reply)
    → Kept request reply (process_request node request now).1
unfolding process_request keep_response
process-Kept node request now reply d done =
    elim (Option-cases (find (key_of request) node.cache)) [
      | inl h ↦
          let outcome : Result NodeFailure (Option Packet) × MockNode = execute node request now in
          let step : process_request node request now
              ≡ keep_response (key_of request) request outcome =
            rw (h, process_request) refl in
          let cache : outcome.1.cache ≡ node.cache = (execute-cache node request now).0 in
          subst (λ w. Kept request reply w.1) (sym step)
            (keep-Kept request outcome reply (subst Distinct (sym cache) d)
              (ap (find (key_of request)) cache ∙ h) (ap (λ w. w.0) (sym step) ∙ done))
      | inr (found, h) ↦
          let step : process_request node request now ≡ repeat_response node request found =
            rw (h, process_request) refl in
          subst (λ w. Kept request reply w.1) (sym step)
            (repeat-Kept node request found reply h (ap (λ w. w.0) (sym step) ∙ done))
    ]

-- Whenever `process_request` has replied to a request, in a node whose cache has no key twice, the
-- same request again is not executed: the core and the count of the executed requests stay as they
-- are, and the reply carries the bytes that the first one carried, under the next transfer id.
pub process_request-again :
    (node : MockNode) (request : Packet) (now later : ℕ) (reply : NodeReply)
    → Distinct node.cache
    → (process_request node request now).0 ≡ ok (some reply)
    → ((bytes : Bytes) × (make_reply
            (process_request node request now).1.mtu
            bytes
            reply.transfer_id
          ≡ ok reply)
        × ((process_request (process_request node request now).1 request later).0
            ≡ reply_outcome (
                make_reply
                  (process_request node request now).1.mtu
                  bytes
                  (process_request node request now).1.next_outbound_transfer_id)))
      × ((process_request (process_request node request now).1 request later).1.core
          ≡ (process_request node request now).1.core)
      × ((process_request
            (process_request node request now).1
            request
            later).1.executed_request_count
          ≡ (process_request node request now).1.executed_request_count)
process_request-again node request now later reply d done =
    let first : MockNode = (process_request node request now).1 in
    let kept : Kept request reply first = process-Kept node request now reply d done in
    let bytes : Bytes = kept.entry.encoded_response in
    let step = repeated first request later kept.entry kept.found kept.same in
    (
      (bytes, kept.sent, ap (λ w. w.0) step),
      ap (λ w. w.1.core) step,
      ap (λ w. w.1.executed_request_count) step,
    )
