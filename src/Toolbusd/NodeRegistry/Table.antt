-- ===== src/Toolbusd/NodeRegistry/Table.antt =====
-- The table of nodes: look-up behind an update.
use remote_bsp.Prelude.{◌≡◌, refl, sym, ap, ◌∙◌, true, some, [], ◌∷◌, arith, if◌then◌else◌}
use remote_bsp.Bytes.{Bytes, bytes_eq}
use remote_bsp.Bytes.Laws.{bytes_eq_iff}
use remote_bsp.Protocol.Discovery.{NodeUuid}
use remote_bsp.Toolbusd.NodeRegistry.{NodeRecord, Nodes, find_node, put_node}

pub bytes_eq_self : (u : Bytes) → bytes_eq u u ≡ true
bytes_eq_self u = (bytes_eq_iff u u).1 refl

bytes_eq-left : (x u w : Bytes) → bytes_eq x u ≡ true → bytes_eq x w ≡ bytes_eq u w
bytes_eq-left x u w h = ap (λ v. bytes_eq v w) ((bytes_eq_iff x u).0 h)

bytes_eq-meet : (x u w : Bytes) → bytes_eq x w ≡ true → bytes_eq u w ≡ true → bytes_eq x u ≡ true
bytes_eq-meet x u w h g =
    (bytes_eq_iff x u).1 ((bytes_eq_iff x w).0 h ∙ sym ((bytes_eq_iff u w).0 g))

-- What `put_node` does to a look-up.
pub find_node-put_node :
    (u w : NodeUuid) (n : NodeRecord) (nodes : Nodes)
    → find_node w (put_node u n nodes) ≡ (if bytes_eq u w then some n else find_node w nodes)
unfolding find_node put_node
find_node-put_node u w n [] = ground arith
find_node-put_node u w n ((x, o) ∷ rest) =
    ground (arith, find_node-put_node u w n rest, bytes_eq-left x u w, bytes_eq-meet x u w)

pub find_node-put_node_self :
    (u : NodeUuid) (n : NodeRecord) (nodes : Nodes) → find_node u (put_node u n nodes) ≡ some n
find_node-put_node_self u n nodes =
    find_node-put_node u u n nodes
    ∙ ap (λ b. if b then some n else find_node u nodes) (bytes_eq_self u)
