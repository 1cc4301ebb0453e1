-- ===== src/Quorum/Node.antt =====
-- internal/quorum/manager.go: the heartbeat handlers, over a manager and the configuration that it
-- shares with the replicator. The peers' answers and the version observer are arguments.
pub mod Runs
pub mod Outsider
use quptime.Prelude.{
  ℕ, String, not, ◌&&◌, ◌||◌, Option, none, some, List, [], ◌∷◌, ◌==◌, leb, if◌then◌else◌, lookup,
  insert,
}
use quptime.Config.Types.{PeerInfo, ClusterConfig}
use quptime.Config.Cluster.{quorum_size}
use quptime.Quorum.Manager.{Manager, mark_live, recompute_master}

pub record HeartbeatRequest : Type 0 where
  pub from_node_id : String
  pub advertise : String
  pub term : ℕ
  pub master_id : String
  pub version : ℕ

pub record HeartbeatResponse : Type 0 where
  pub node_id : String
  pub advertise : String
  pub term : ℕ
  pub master_id : String
  pub version : ℕ

pub record Node : Type 0 where
  pub manager : Manager
  pub cluster : ClusterConfig

-- `VersionObserver`: it runs in the handler, and may change the configuration.
abbrev pub Observer : Type 0
Observer = String → String → ℕ → ClusterConfig → ClusterConfig

set_addr : String → String → Manager → Manager
set_addr id addr m = if addr == "" then m else record m { addr_of = insert id addr m.addr_of }

notify_at : Observer → String → ℕ → Option String → ClusterConfig → ClusterConfig
notify_at observer id version none c = c
notify_at observer id version (some addr) c = if addr == "" then c else observer id addr version c

-- `maybeNotifyVersion`
unfoldable pub maybe_notify_version : Option Observer → String → ℕ → Node → Node
unfolding notify_at
maybe_notify_version none id version n = n
maybe_notify_version (some observer) id version n =
    if leb version n.cluster.version then n else record n {
      cluster = notify_at observer id version (lookup id n.manager.addr_of) n.cluster;
    }

unfoldable pub recompute : ℕ → Node → Node
recompute now n = record n { manager = recompute_master (quorum_size n.cluster) now n.manager }

-- The block that an exchange with a peer runs, on either side.
heard_from : Option Observer → ℕ → String → String → ℕ → Node → Node
unfolding set_addr maybe_notify_version
heard_from observer now id advertise version n =
    maybe_notify_version observer id version
      (record n { manager = set_addr id advertise (mark_live id now n.manager) })

-- `HandleHeartbeat`
unfoldable pub handle_heartbeat :
    Option Observer → ℕ → HeartbeatRequest → Node → Node × HeartbeatResponse
unfolding heard_from recompute
handle_heartbeat observer now req n =
    let heard =
      if not (req.from_node_id == "") && not (req.from_node_id == n.manager.self_id)
      then heard_from observer now req.from_node_id req.advertise req.version n
      else n in
    let n' = recompute now heard in
    (
      n',
      record {
        node_id = n'.manager.self_id;
        advertise = n'.manager.self_advertise;
        term = n'.manager.term;
        master_id = n'.manager.master_id;
        version = n'.cluster.version;
      },
    )

-- A heartbeat that `tick` sends, with the peer that it goes to.
pub record Outgoing : Type 0 where
  pub peer_id : String
  pub addr : String
  pub request : HeartbeatRequest

remember_addrs : List PeerInfo → Manager → Manager
remember_addrs [] m = m
remember_addrs (p ∷ rest) m = remember_addrs rest (
    if not (p.node_id == "") && not (p.advertise == "")
    then record m { addr_of = insert p.node_id p.advertise m.addr_of }
    else m)

heartbeats : Manager → ℕ → List PeerInfo → List Outgoing
heartbeats m version [] = []
heartbeats m version (p ∷ rest) =
    let more = heartbeats m version rest in
    if p.node_id == m.self_id || p.node_id == "" || p.advertise == ""
    then more
    else record {
      peer_id = p.node_id;
      addr = p.advertise;
      request = record {
        from_node_id = m.self_id;
        advertise = m.self_advertise;
        term = m.term;
        master_id = m.master_id;
        version = version;
      };
    }
      ∷ more

-- `tick`: the heartbeats go out, and their answers are steps of their own, `handle_answer`.
unfoldable pub tick : ℕ → Node → Node × List Outgoing
unfolding remember_addrs heartbeats recompute
tick now n =
    let m = remember_addrs n.cluster.peers n.manager in
    (
      recompute now (record n { manager = mark_live m.self_id now m }),
      heartbeats m n.cluster.version n.cluster.peers,
    )

-- what a heartbeat's goroutine does with the answer of the peer
unfoldable pub handle_answer : Option Observer → ℕ → String → HeartbeatResponse → Node → Node
unfolding heard_from
handle_answer observer now peer_id resp n =
    heard_from observer now peer_id resp.advertise resp.version n

-- the first round of `Start`
unfoldable pub start : ℕ → Node → Node
unfolding recompute
start now n = recompute now (record n { manager = mark_live n.manager.self_id now n.manager })
