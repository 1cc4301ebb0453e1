-- ===== src/Daemon/New.antt =====
-- `New` of internal/daemon/daemon.go: what the daemon starts with. The files, the keys and the
-- certificate are arguments; the scheduler and the servers that it creates have no state yet.
pub mod Started
use quptime.Prelude.{String, not, Option, none, some, List, [], ◌==◌, if◌then◌else◌}
use quptime.Config.Types.{ClusterConfig}
use quptime.Config.Cluster.{FileRead, load_cluster_config}
use quptime.Config.Node.{
  NodeConfig, NodeFile, NodeError, Loaded, loaded, not_loaded, load_node_config, save_node,
  advertise_addr,
}
use quptime.Quorum.Manager.{new_manager, set_self_advertise}
use quptime.Transport.Trust.{Entry, Entries, load}
use quptime.Daemon.Enroll.{Surroundings, sync_trust}
use quptime.Daemon.Status.{Parts}

-- What `New` reads: `trusted` are the entries of trust.yaml (none where it does not load), `key` and
-- `cert` the node's own (none where they do not load).
pub record Files : Type 0 where
  pub node_file : NodeFile
  pub node_yaml : FileRead
  pub cluster_yaml : FileRead
  pub parse_cluster : String → Option ClusterConfig
  pub trusted : Option (List Entry)
  pub key : Option String
  pub cert : Option String

-- The daemon: the parts with their state, and the trust store.
pub record Daemon : Type 0 where
  pub node : NodeConfig
  pub parts : Parts
  pub trust : Entries
  pub cert : String

pub data NewError : Type 0 where
  load_node rewrite_node : NodeError → NewError
  empty_node_id load_cluster load_trust load_key load_cert : NewError

pub data New : Type 0 where
  started : Daemon → New
  failed : NewError → New

-- the surroundings of the node with an id
abbrev pub around_node : Surroundings → String → Surroundings
around_node d id = record d { env = record d.env { self_id = id } }

-- the parts, and the first mirroring of the peers
unfoldable pub assemble :
    Files → Surroundings → NodeConfig → ClusterConfig → List Entry → String → Daemon
unfolding set_self_advertise advertise_addr sync_trust
assemble f d n c entries cert = record {
  node = n;
  parts = record {
    manager = set_self_advertise (advertise_addr f.node_file.itoa n) (new_manager n.node_id);
    config = c;
    aggregator = [];
  };
  trust = sync_trust (around_node d n.node_id) c.peers (load entries);
  cert = cert;
}

with_cert : Files → Surroundings → NodeConfig → ClusterConfig → List Entry → Option String → New
unfolding assemble
with_cert f d n c entries none = failed load_cert
with_cert f d n c entries (some cert) = started (assemble f d n c entries cert)

with_key : Files → Surroundings → NodeConfig → ClusterConfig → List Entry → Option String → New
unfolding with_cert
with_key f d n c entries none = failed load_key
with_key f d n c entries (some key) = with_cert f d n c entries f.cert

with_trust : Files → Surroundings → NodeConfig → ClusterConfig → Option (List Entry) → New
unfolding with_key
with_trust f d n c none = failed load_trust
with_trust f d n c (some entries) = with_key f d n c entries f.key

with_cluster : Files → Surroundings → NodeConfig → Option ClusterConfig → New
unfolding with_trust
with_cluster f d n none = failed load_cluster
with_cluster f d n (some c) = with_trust f d n c f.trusted

blanked : Files → Surroundings → NodeConfig → Option NodeError → New
unfolding with_cluster load_cluster_config
blanked f d n (some e) = failed (rewrite_node e)
blanked f d n none =
    with_cluster f d n (load_cluster_config d.env.disk f.parse_cluster f.cluster_yaml)

-- a node.yaml of before the enrollment tokens loses its secret, also on disk
with_node : Files → Surroundings → Loaded → New
unfolding blanked save_node
with_node f d (not_loaded e) = failed (load_node e)
with_node f d (loaded n) =
    let bare = record n { cluster_secret = "" } in
    if n.node_id == ""
    then failed empty_node_id
    else if not (n.cluster_secret == "")
    then blanked f d bare (save_node f.node_file bare)
    else blanked f d n none

-- `New`
unfoldable pub new_daemon : Files → Surroundings → New
unfolding with_node load_node_config
new_daemon f d = with_node f d (load_node_config f.node_file f.node_yaml)
