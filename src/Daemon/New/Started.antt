-- ===== src/Daemon/New/Started.antt =====
-- The daemon that `New` of internal/daemon/daemon.go returns.
use quptime.Prelude.{
  String, Option, none, some, List, [], ◌≡◌, ◌≢◌, refl, ◌⊎◌, inl, inr, ◌==◌, eq_iff, arith, ap,
  Bool-cases, In, Distinct,
}
use quptime.Config.Types.{PeerInfo, ClusterConfig}
use quptime.Config.Cluster.{load_cluster_config}
use quptime.Config.Node.{
  NodeConfig, NodeError, Loaded, loaded, not_loaded, load_node_config, save_node,
}
use quptime.Replicate.Mutation.Ids.{node_ids}
use quptime.Transport.Trust.{Entry, load}
use quptime.Transport.Trust.Laws.{IsValid, load-IsValid}
use quptime.Daemon.Enroll.{Surroundings}
use quptime.Daemon.Enroll.Sync.{Mirrored, Pinned, sync_trust-Pinned}
use quptime.Quorum.Manager.{set_self_advertise}
use quptime.Daemon.New.{
  Files, Daemon, started, around_node, assemble, with_cert, with_key, with_trust, with_cluster,
  blanked, with_node, new_daemon,
}

-- What the daemon was made of, once its node was known.
record Made (f : Files) (d : Surroundings) (n : NodeConfig) (x : Daemon) : Type 0 where
  config : ClusterConfig
  entries : List Entry
  cert : String
  cluster : load_cluster_config d.env.disk f.parse_cluster f.cluster_yaml ≡ some config
  whole : assemble f d n config entries cert ≡ x

-- The daemon that starts: its node is the one of node.yaml or was written back, and has an id and no
-- cluster secret; its configuration is the loaded one; the manager and the trust store are those of
-- this node, no check has a result yet, and each peer that can be trusted is pinned.
pub record Started (f : Files) (d : Surroundings) (x : Daemon) : Type 0 where
  pub node :
      (load_node_config f.node_file f.node_yaml ≡ loaded x.node)
      ⊎ (save_node f.node_file x.node ≡ none)
  pub named : x.node.node_id ≢ ""
  pub blank : x.node.cluster_secret ≡ ""
  pub cluster : load_cluster_config d.env.disk f.parse_cluster f.cluster_yaml ≡ some x.parts.config
  pub self : x.parts.manager.self_id ≡ x.node.node_id
  pub no_results : x.parts.aggregator ≡ []
  pub trust : IsValid x.trust
  pub pinned :
      (p : PeerInfo)
      → In p x.parts.config.peers
      → Mirrored (around_node d x.node.node_id) p
      → Pinned p.node_id p.fingerprint x.trust

module _ (f : Files) (d : Surroundings) (x : Daemon) where
  with_key-Made :
      (n : NodeConfig) (c : ClusterConfig) (entries : List Entry) (key cert : Option String)
      → load_cluster_config d.env.disk f.parse_cluster f.cluster_yaml ≡ some c
      → with_key (record f { cert = cert }) d n c entries key ≡ started x
      → Made f d n x
  unfolding with_key with_cert assemble
  with_key-Made n c entries none cert k h = cc
  with_key-Made n c entries (some key) none k h = cc
  with_key-Made n c entries (some key) (some cert) k h = record {
    config = c;
    entries = entries;
    cert = cert;
    cluster = k;
    whole = cc;
  }

  with_trust-Made :
      (n : NodeConfig) (c : ClusterConfig) (o : Option (List Entry))
      → load_cluster_config d.env.disk f.parse_cluster f.cluster_yaml ≡ some c
      → with_trust f d n c o ≡ started x
      → Made f d n x
  unfolding with_trust
  with_trust-Made n c none k h = cc
  with_trust-Made n c (some entries) k h = with_key-Made n c entries f.key f.cert k h

  with_cluster-Made :
      (n : NodeConfig) (o : Option ClusterConfig)
      → load_cluster_config d.env.disk f.parse_cluster f.cluster_yaml ≡ o
      → with_cluster f d n o ≡ started x
      → Made f d n x
  unfolding with_cluster
  with_cluster-Made n none k h = cc
  with_cluster-Made n (some c) k h = with_trust-Made n c f.trusted k h

  blanked-Made :
      (n : NodeConfig) (o : Option NodeError)
      → blanked f d n o ≡ started x
      → (o ≡ none) × Made f d n x
  unfolding blanked
  blanked-Made n (some e) h = cc
  blanked-Made n none h = (
    refl,
    with_cluster-Made n (load_cluster_config d.env.disk f.parse_cluster f.cluster_yaml) refl h,
  )

  assemble-Started :
      (n : NodeConfig) (c : ClusterConfig) (entries : List Entry) (cert : String)
      → (load_node_config f.node_file f.node_yaml ≡ loaded n) ⊎ (save_node f.node_file n ≡ none)
      → n.node_id ≢ ""
      → n.cluster_secret ≡ ""
      → load_cluster_config d.env.disk f.parse_cluster f.cluster_yaml ≡ some c
      → Distinct (node_ids c.peers)
      → Started f d (assemble f d n c entries cert)
  unfolding assemble set_self_advertise
  assemble-Started n c entries cert from named blank loaded_c u =
      let (valid, pinned, _) =
        sync_trust-Pinned (around_node d n.node_id) c.peers (load entries) u
          (load-IsValid entries) in
      record {
        node = from;
        named = named;
        blank = blank;
        cluster = loaded_c;
        self = refl;
        no_results = refl;
        trust = valid;
        pinned = pinned;
      }

  Made-Started :
      (n : NodeConfig)
      → Made f d n x
      → (load_node_config f.node_file f.node_yaml ≡ loaded n) ⊎ (save_node f.node_file n ≡ none)
      → n.node_id ≢ ""
      → n.cluster_secret ≡ ""
      → Distinct (node_ids x.parts.config.peers)
      → Started f d x
  unfolding assemble
  Made-Started n m from named blank u =
      let same : m.config ≡ x.parts.config = ap (λ (y : Daemon). y.parts.config) m.whole in
      rw m.whole at
        (assemble-Started n m.config m.entries m.cert from named blank m.cluster (rw same u))

  with_node-Started :
      (l : Loaded)
      → load_node_config f.node_file f.node_yaml ≡ l
      → with_node f d l ≡ started x
      → Distinct (node_ids x.parts.config.peers)
      → Started f d x
  unfolding with_node
  with_node-Started (not_loaded e) k h u = cc
  with_node-Started (loaded n) k h u = elim (Bool-cases (n.node_id == "")) [
    | inl e ↦ absurd (cc (simp e at h))
    | inr e ↦
        let named : n.node_id ≢ "" = ground (arith, eq_iff n.node_id "", e) in
        elim (Bool-cases (n.cluster_secret == "")) [
          | inl s ↦
              let blank = (eq_iff n.cluster_secret "").0 s in
              let (_, made) = blanked-Made n none (simp (e, s) at h) in
              Made-Started n made (inl k) named blank u
          | inr s ↦
              let bare = record n { cluster_secret = "" } in
              let (written, made) =
                blanked-Made bare (save_node f.node_file bare) (simp (e, s) at h) in
              Made-Started bare made (inr written) named refl u
        ]
  ]

-- A daemon that starts on a configuration with distinct peer ids has a node with an id and no
-- cluster secret, either as node.yaml says or written back to it, the loaded configuration, a
-- manager of the node's id, no result of a check, and a valid trust store, whatever trust.yaml
-- lists, in which every other peer with an id, a fingerprint and a certificate is pinned to its
-- fingerprint.
pub new_daemon-Started :
    (f : Files) (d : Surroundings) (x : Daemon)
    → new_daemon f d ≡ started x
    → Distinct (node_ids x.parts.config.peers)
    → Started f d x
unfolding new_daemon
new_daemon-Started f d x h u =
    with_node-Started f d x (load_node_config f.node_file f.node_yaml) refl h u
