-- ===== src/Toolbusd/NodeRegistry/Expiry.antt =====
-- toolbusd/src/node_registry.cpp: `expire`, and who goes offline.
use remote_bsp.Prelude.{ℕ, ◌+◌, ◌≡◌, ltb, ◌&&◌, refl, Option, none, some, [], ◌∷◌, length, arith}
use remote_bsp.Protocol.Discovery.{NodeUuid}
use remote_bsp.Toolbusd.NodeRegistry.{
  NodeRecord, Nodes, NodeRegistry, find_node, expire_nodes, expire, online_nodes, online_count,
}

-- A node behind the pass.
abbrev pub expired : ℕ → ℕ → NodeRecord → NodeRecord
expired offline_timeout now n = record n {
  online = n.online && ltb now (n.last_seen + offline_timeout);
}

abbrev pub expired_option : ℕ → ℕ → Option NodeRecord → Option NodeRecord
expired_option offline_timeout now none = none
expired_option offline_timeout now (some n) = some (expired offline_timeout now n)

expire_nodes-find :
    (offline_timeout now : ℕ) (u : NodeUuid) (nodes : Nodes)
    → find_node u (expire_nodes offline_timeout now nodes).1
      ≡ expired_option offline_timeout now (find_node u nodes)
unfolding expire_nodes find_node
expire_nodes-find offline_timeout now u [] = refl
expire_nodes-find offline_timeout now u ((w, n) ∷ rest) =
    ground (arith, expire_nodes-find offline_timeout now u rest)

expire_nodes-count :
    (offline_timeout now : ℕ) (nodes : Nodes)
    → online_nodes (expire_nodes offline_timeout now nodes).1
        + length (expire_nodes offline_timeout now nodes).0
      ≡ online_nodes nodes
unfolding expire_nodes online_nodes
expire_nodes-count offline_timeout now [] = refl
expire_nodes-count offline_timeout now ((w, n) ∷ rest) =
    ground (arith, expire_nodes-count offline_timeout now rest)

-- `expire` at `now` leaves a node online exactly if it was online and its last sign of life is less
-- than the timeout ago, and changes nothing else of any node. The number of nodes it reports is the
-- number by which `online_count` falls.
pub expire-online :
    (r : NodeRegistry) (now : ℕ) (u : NodeUuid)
    → (find_node u (expire r now).1.nodes
        ≡ expired_option r.offline_timeout now (find_node u r.nodes))
      × (online_count (expire r now).1 + length (expire r now).0 ≡ online_count r)
unfolding expire
expire-online r now u = (
  expire_nodes-find r.offline_timeout now u r.nodes,
  expire_nodes-count r.offline_timeout now r.nodes,
)
