-- ===== src/MockMcu/Node/Bounds.antt =====
-- mock_mcu/src/mock_node.cpp: the cache of the simulated node over `process_request`.
use remote_bsp.Prelude.{
  ℕ, ◌≤◌, ◌+◌, ◌≡◌, refl, sym, ap, subst, ◌∙◌, ◌==◌, not, Bool, true, false, Option, none, some,
  List, [], ◌∷◌, ◌++◌, length, if◌then◌else◌, Result, ok, err, arith, Option-cases, inl, inr,
}
use remote_bsp.Prelude.Map.{Map, find, assign, emplace, erase, Distinct, assign-Distinct}
use remote_bsp.Bytes.{Bytes}
use remote_bsp.Protocol.Packet.{Packet, PacketError, encode, decode}
use remote_bsp.MockMcu.Node.{
  NodeReply, NodeFailure, MockNode, CachedRequest, erase_front, drop_front, insert_cache, execute,
  keep_response, cache_response, repeat_response, process_request, count_up, same_request,
  some_reply, reply_with, node_failure, packet_failure, conflicting_duplicate_request,
}
use remote_bsp.MockMcu.Node.Cache.{execute-cache, key_of}
use remote_bsp.MockMcu.Node.Calls.{handle_packet}

abbrev pub keys : Map CachedRequest → List ℕ
keys [] = []
keys ((k, entry) ∷ cache) = k ∷ keys cache

-- A cache in the order of `cache_order_`, with room for `maximum` requests.
abbrev pub IsKept : Map CachedRequest → List ℕ → ℕ → Type 0
IsKept cache order maximum =
    (keys cache ≡ order) × Distinct cache × (length cache ≤ maximum) × (1 ≤ maximum)

abbrev pub IsBounded : ℕ → MockNode → Type 0
IsBounded maximum node =
    IsKept node.cache node.cache_order node.maximum_cached_requests
    × (node.maximum_cached_requests ≡ maximum)

-- The new entry stands last.
assign-keys :
    (k : ℕ) (entry : CachedRequest) (cache : Map CachedRequest)
    → find k cache ≡ none
    → (keys (assign k entry cache) ≡ keys cache ++ (k ∷ []))
      × (length (assign k entry cache) ≡ length cache + 1)
unfolding assign find
assign-keys k entry [] h = (refl, refl)
assign-keys k entry ((j, w) ∷ cache) h = ground (arith, assign-keys k entry cache)

emplace-IsKept :
    (k : ℕ) (entry : CachedRequest) (cache : Map CachedRequest) (order : List ℕ) (maximum : ℕ)
    → find k cache ≡ none
    → keys cache ≡ order
    → Distinct cache
    → length cache + 1 ≤ maximum
    → IsKept (emplace k entry cache) (order ++ (k ∷ [])) maximum
unfolding emplace
emplace-IsKept k entry cache order maximum h e d room =
    let (listed, counted) = assign-keys k entry cache h in
    rw (h, emplace)
      (
        listed ∙ ap (λ o. o ++ (k ∷ [])) e,
        assign-Distinct k entry cache d,
        omega (arith, counted, room),
        omega (arith, room),
      )

-- A full cache loses its first entry, which is the first of the order.
erase_front-IsKept :
    (key : ℕ) (cache : Map CachedRequest) (order : List ℕ)
    → find key cache ≡ none
    → keys cache ≡ order
    → Distinct cache
    → 1 ≤ length cache
    → (find key (erase_front order cache) ≡ none)
      × (keys (erase_front order cache) ≡ drop_front order)
      × Distinct (erase_front order cache)
      × (length (erase_front order cache) + 1 ≡ length cache)
unfolding erase find
erase_front-IsKept key [] [] h e d one = absurd (omega arith)
erase_front-IsKept key ((j, w) ∷ cache) [] h e d one = cc
erase_front-IsKept key [] (k ∷ order) h e d one = absurd (omega arith)
erase_front-IsKept key ((j, w) ∷ cache) (k ∷ order) h e d one = ground (arith, e, h)

insert-IsBounded :
    {m : ℕ} (key : ℕ) (entry : CachedRequest) (node : MockNode)
    → find key node.cache ≡ none
    → IsBounded m node
    → IsBounded m (insert_cache key entry node)
unfolding insert_cache
insert-IsBounded key entry node h ((e, d, short, one), same) =
    (choose (length node.cache == node.maximum_cached_requests) refl, same)
  where
    choose :
        (b : Bool)
        → (length node.cache == node.maximum_cached_requests) ≡ b
        → IsKept
            (emplace key entry (if b then erase_front node.cache_order node.cache else node.cache))
            ((if b then drop_front node.cache_order else node.cache_order) ++ (key ∷ []))
            node.maximum_cached_requests
    choose false full =
        emplace-IsKept key entry node.cache node.cache_order node.maximum_cached_requests h e d
          (ground arith)
    choose true full =
        let (absent, listed, distinct, counted) =
          erase_front-IsKept key node.cache node.cache_order h e d (ground arith) in
        emplace-IsKept key entry (erase_front node.cache_order node.cache)
          (drop_front node.cache_order) node.maximum_cached_requests absent listed distinct
          (ground arith)

pub move :
    {m : ℕ} (node later : MockNode)
    → later.cache ≡ node.cache
    → later.maximum_cached_requests ≡ node.maximum_cached_requests
    → later.cache_order ≡ node.cache_order
    → IsBounded m node
    → IsBounded m later
move node later c b o (h, same) = (
  subst (λ w. IsKept w later.cache_order later.maximum_cached_requests) (sym c)
      (subst (λ w. IsKept node.cache w later.maximum_cached_requests) (sym o)
        (subst (λ w. IsKept node.cache node.cache_order w) (sym b) h)),
  b ∙ same,
)

cache_response-IsBounded :
    {m : ℕ} (key : ℕ) (request : Packet) (node : MockNode) (encoded : Result PacketError Bytes)
    → find key node.cache ≡ none
    → IsBounded m node
    → IsBounded m (cache_response key request node encoded).1
unfolding cache_response
cache_response-IsBounded key request node (err e) absent h = h
cache_response-IsBounded key request node (ok bytes) absent h =
    insert-IsBounded key (record { request = request; encoded_response = bytes })
      (record node { executed_request_count = count_up node.executed_request_count }) absent h

keep_response-IsBounded :
    {m : ℕ} (key : ℕ) (request : Packet) (outcome : Result NodeFailure (Option Packet) × MockNode)
    → find key outcome.1.cache ≡ none
    → IsBounded m outcome.1
    → IsBounded m (keep_response key request outcome).1
unfolding keep_response
keep_response-IsBounded key request (err e, node) absent h = h
keep_response-IsBounded key request (ok none, node) absent h = h
keep_response-IsBounded key request (ok (some response), node) absent h =
    cache_response-IsBounded key request node (encode response) absent h

repeat_response-IsBounded :
    {m : ℕ} (node : MockNode) (request : Packet) (found : CachedRequest)
    → IsBounded m node
    → IsBounded m (repeat_response node request found).1
unfolding repeat_response
repeat_response-IsBounded {m = m} node request found h =
    choose (not (same_request found.request request))
  where
    choose :
        (b : Bool)
        → IsBounded m
            (if b
              then (err (node_failure conflicting_duplicate_request), node)
              else some_reply (
                  reply_with
                    (record node { cached_response_count = count_up node.cached_response_count })
                    found.encoded_response)).1
    choose true = h
    choose false = h

pub process-IsBounded :
    {m : ℕ} (node : MockNode) (request : Packet) (now : ℕ)
    → IsBounded m node
    → IsBounded m (process_request node request now).1
unfolding process_request
process-IsBounded node request now h = elim (Option-cases (find (key_of request) node.cache)) [
  | inl absent ↦
      let outcome : Result NodeFailure (Option Packet) × MockNode = execute node request now in
      let (cache, maximum, order, mtu) = execute-cache node request now in
      rw (absent, process_request)
        (keep_response-IsBounded (key_of request) request outcome
          (ap (find (key_of request)) cache ∙ absent) (move node outcome.1 cache maximum order h))
  | inr (found, present) ↦
      rw (present, process_request) (repeat_response-IsBounded node request found h)
]

pub handle_packet-IsBounded :
    {m : ℕ} (node : MockNode) (now : ℕ) (wanted : Bool) (packet : Option Bytes)
    → IsBounded m node
    → IsBounded m (handle_packet node now wanted packet).1
unfolding handle_packet
handle_packet-IsBounded node now wanted none h = h
handle_packet-IsBounded node now false (some bytes) h = h
handle_packet-IsBounded {m = m} node now true (some bytes) h = choose (decode bytes)
  where
    choose :
        (decoded : Result PacketError Packet)
        → IsBounded m
            (elim decoded as (λ d. Result NodeFailure (Option NodeReply) × MockNode) [
              | err e ↦ (err (packet_failure e), node)
              | ok request ↦ process_request node request now
            ]).1
    choose (err e) = h
    choose (ok request) = process-IsBounded node request now h
