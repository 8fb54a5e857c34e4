-- ===== src/MockMcu/Node/Life.antt =====
-- mock_mcu/src/mock_node.cpp: the cache of the simulated node over any calls that the program makes.
use remote_bsp.Prelude.{
  ℕ, suc, ◌≤◌, ◌≡◌, refl, sym, ap, subst, ◌∙◌, ◌==◌, Bool, true, false, none, some, List, [], ◌∷◌,
  length, any, ok, arith,
}
use remote_bsp.Prelude.Map.{Map, find, Distinct}
use remote_bsp.Bytes.{Bytes}
use remote_bsp.MockMcu.RemoteCore.{RemoteCore}
use remote_bsp.MockMcu.Node.{MockNode, CachedRequest}
use remote_bsp.MockMcu.Node.Calls.{
  new_node, handle_frame, make_heartbeat, poll_node_events, expire, clear_session,
}
use remote_bsp.MockMcu.Node.Bounds.{keys, IsKept, IsBounded}
use remote_bsp.MockMcu.Node.Steps.{
  handle_frame-IsBounded, make_heartbeat-IsBounded, poll-IsBounded, clear_session-IsBounded,
  expire-IsBounded,
}

-- A call on the node from outside.
pub data Call : Type 0 where
  receiving : ℕ → Bytes → ℕ → Call
  beating : Call
  polling : ℕ → Call
  expiring : ℕ → Call
  clearing : ℕ → Call

unfoldable pub after_call : MockNode → Call → MockNode
unfolding handle_frame make_heartbeat poll_node_events expire clear_session
after_call node (receiving stream_id frame now) = (handle_frame node stream_id frame now).1
after_call node beating = (make_heartbeat node).1
after_call node (polling maximum_payload) = (poll_node_events node maximum_payload).1
after_call node (expiring now) = (expire node now).1
after_call node (clearing session_id) = (clear_session node session_id).1

unfoldable pub after_calls : MockNode → List Call → MockNode
unfolding after_call
after_calls node [] = node
after_calls node (c ∷ calls) = after_calls (after_call node c) calls

after_call-IsBounded :
    {m : ℕ} (node : MockNode) (c : Call) → IsBounded m node → IsBounded m (after_call node c)
unfolding after_call
after_call-IsBounded node (receiving stream_id frame now) h =
    handle_frame-IsBounded node stream_id frame now h
after_call-IsBounded node beating h = make_heartbeat-IsBounded node h
after_call-IsBounded node (polling maximum_payload) h = poll-IsBounded node maximum_payload h
after_call-IsBounded node (expiring now) h = expire-IsBounded node now h
after_call-IsBounded node (clearing session_id) h = clear_session-IsBounded node session_id h

after_calls-IsBounded_from :
    {m : ℕ} (node : MockNode) (calls : List Call)
    → IsBounded m node
    → IsBounded m (after_calls node calls)
unfolding after_calls
after_calls-IsBounded_from node [] h = h
after_calls-IsBounded_from node (c ∷ calls) h =
    after_calls-IsBounded_from (after_call node c) calls (after_call-IsBounded node c h)

new_node_fields :
    (core : RemoteCore) (mtu node_id timeout maximum : ℕ) (node : MockNode)
    → new_node core mtu node_id timeout maximum ≡ ok node
    → ([] ≡ node.cache)
      × ([] ≡ node.cache_order)
      × (maximum ≡ node.maximum_cached_requests)
      × (1 ≤ maximum)
unfolding new_node
new_node_fields core mtu node_id timeout maximum node built = ground (arith, built)

new_node-IsBounded :
    (core : RemoteCore) (mtu node_id timeout maximum : ℕ) (node : MockNode)
    → new_node core mtu node_id timeout maximum ≡ ok node
    → IsBounded maximum node
new_node-IsBounded core mtu node_id timeout maximum node built =
    let (cache, order, bound, one) = new_node_fields core mtu node_id timeout maximum node built in
    (
      subst (λ w. IsKept w node.cache_order node.maximum_cached_requests) cache
          (subst (λ w. IsKept [] w node.maximum_cached_requests) order
            (refl, tt, omega arith, omega (arith, bound, one))),
      sym bound,
    )

-- Whether `find` gives an entry.
abbrev pub has_key : ℕ → Map CachedRequest → Bool
has_key k cache = elim (find k cache) [ none ↦ false | some entry ↦ true ]

keys-has_key :
    (k : ℕ) (cache : Map CachedRequest) → any (λ j. j == k) (keys cache) ≡ has_key k cache
unfolding find
keys-has_key k [] = refl
keys-has_key k ((j, w) ∷ cache) = ground (arith, keys-has_key k cache)

length-keys : (cache : Map CachedRequest) → length (keys cache) ≡ length cache
length-keys [] = refl
length-keys ((j, w) ∷ cache) = ap suc (length-keys cache)

-- After any calls on a constructed node, be they frames of any content, heartbeats, polls, expiries
-- or ends of sessions: the cache has at most as many entries as the node was constructed for, no key
-- stands in it twice, and `cache_order` has as many keys as the cache, and the same ones.
pub after_calls-bounded :
    (core : RemoteCore) (mtu node_id timeout maximum : ℕ) (node : MockNode) (calls : List Call)
    → new_node core mtu node_id timeout maximum ≡ ok node
    → (length (after_calls node calls).cache ≤ maximum)
      × Distinct (after_calls node calls).cache
      × (length (after_calls node calls).cache_order ≡ length (after_calls node calls).cache)
      × ((k : ℕ)
          → any (λ j. j == k) (after_calls node calls).cache_order
            ≡ has_key k (after_calls node calls).cache)
after_calls-bounded core mtu node_id timeout maximum node calls built =
    let ((e, d, short, one), same) =
      after_calls-IsBounded_from node calls
        (new_node-IsBounded core mtu node_id timeout maximum node built) in
    (
      omega (arith, short, same),
      d,
      ap length (sym e) ∙ length-keys (after_calls node calls).cache,
      λ k. ap (any (λ j. j == k)) (sym e) ∙ keys-has_key k (after_calls node calls).cache,
    )
