-- ===== src/Replicate/Replicator/Broadcast.antt =====
-- The way of a committed configuration to the other nodes: internal/replicate/replicator.go.
use quptime.Prelude.{
  String, false, ◌||◌, some, List, [], ◌∷◌, ◌==◌, ◌≡◌, ◌≢◌, refl, ◌↔◌, ◌⊎◌, inl, inr, eq_iff, arith,
  In, if◌then◌else◌, Bool-cases, leb,
}
use quptime.Config.Types.{PeerInfo, ClusterConfig}
use quptime.Config.Cluster.{Disk, snapshot}
use quptime.Config.Cluster.Versions.{snapshot-replace}
use quptime.Replicate.Replicator.{
  Push, ok, broadcast, pushes_to, handle_apply_cluster_cfg, handle_get_cluster_cfg, pull_from,
}

-- The peers that can be pushed to: the others, with an id and an address.
abbrev pub Reachable : String → PeerInfo → Type 0
Reachable self_id p = (p.node_id ≢ self_id) × (p.node_id ≢ "") × (p.advertise ≢ "")

abbrev pub push_of : ClusterConfig → PeerInfo → Push
push_of snap p = record { peer_id = p.node_id; addr = p.advertise; config = snap }

pushes_to-In :
    (self_id : String) (snap : ClusterConfig) (p : PeerInfo) (peers : List PeerInfo)
    → In p peers
    → Reachable self_id p
    → In (push_of snap p) (pushes_to self_id snap peers)
unfolding pushes_to
pushes_to-In self_id snap p [] m r = absurd m
pushes_to-In self_id snap p (q ∷ peers) m r = ground (
  arith,
  eq_iff q.node_id self_id,
  eq_iff q.node_id "",
  eq_iff q.advertise "",
  pushes_to-In self_id snap p peers,
)

In-pushes_to :
    (self_id : String) (snap : ClusterConfig) (x : Push) (peers : List PeerInfo)
    → In x (pushes_to self_id snap peers)
    → (p : PeerInfo) × In p peers × Reachable self_id p × (x ≡ push_of snap p)
unfolding pushes_to
In-pushes_to self_id snap x [] m = absurd m
In-pushes_to self_id snap x (q ∷ peers) m =
    elim (Bool-cases (q.node_id == self_id || q.node_id == "" || q.advertise == "")) [
      | inl e ↦ later (In-pushes_to self_id snap x peers (rw e at m))
      | inr e ↦ split e (In-pushes_to self_id snap x peers) (rw e at m)
    ]
  where
    Found : List PeerInfo → Type 0
    Found ps = (p : PeerInfo) × In p ps × Reachable self_id p × (x ≡ push_of snap p)

    later : Found peers → Found (q ∷ peers)
    later (p, i, r, e) = (p, inr i, r, e)

    split :
        (q.node_id == self_id || q.node_id == "" || q.advertise == "") ≡ false
        → (In x (pushes_to self_id snap peers) → Found peers)
        → (x ≡ push_of snap q) ⊎ In x (pushes_to self_id snap peers)
        → Found (q ∷ peers)
    split e rest (inl h) = (
      q,
      inl refl,
      (
        λ k. ground (arith, eq_iff q.node_id self_id),
        λ k. ground (arith, eq_iff q.node_id ""),
        λ k. ground (arith, eq_iff q.advertise ""),
      ),
      h,
    )
    split e rest (inr h) = later (rest h)

-- `broadcast` sends its snapshot to exactly the other peers that have an id and an address.
pub In-broadcast_iff :
    (self_id : String) (c : ClusterConfig) (x : Push)
    → In x (broadcast self_id c)
      ↔ ((p : PeerInfo) × In p c.peers × Reachable self_id p × (x ≡ push_of (snapshot c) p))
unfolding broadcast
In-broadcast_iff self_id c x = (
  λ m. In-pushes_to self_id (snapshot c) x c.peers m,
  λ f. rw f.3 (pushes_to-In self_id (snapshot c) f.0 c.peers f.1 f.2),
)

-- A node with an older version that handles the push of a configuration, or pulls it from a peer
-- that serves it, ends with the content of that configuration, whatever its disk does; and a node
-- whose version is not older keeps its own content.
pub push-or-pull :
    (d : Disk) (leader follower : ClusterConfig) (peer_id addr : String)
    → peer_id ≢ ""
    → addr ≢ ""
    → let after =
        if leb leader.version follower.version then snapshot follower else snapshot leader in
      (snapshot (handle_apply_cluster_cfg d (some (snapshot leader)) follower).0.config ≡ after)
      × (snapshot
            (pull_from d
              (λ i a. ok (some (handle_get_cluster_cfg leader)))
              peer_id
              addr
              follower).0.config
          ≡ after)
unfolding handle_apply_cluster_cfg pull_from handle_get_cluster_cfg snapshot
push-or-pull d leader follower peer_id addr p a = (
  snapshot-replace d (snapshot leader) follower,
  ground (arith, eq_iff peer_id "", eq_iff addr "", snapshot-replace d (snapshot leader) follower),
)
