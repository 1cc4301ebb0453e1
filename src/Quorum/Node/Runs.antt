-- ===== src/Quorum/Node/Runs.antt =====
-- Runs of the heartbeat handlers of internal/quorum/manager.go: steps that interleave in any order
-- while the clock moves on.
use quptime.Prelude.{
  ℕ, ◌≤◌, String, Option, none, some, List, [], ◌∷◌, ◌≡◌, refl, not, ◌&&◌, ◌==◌, arith, if_both,
}
use quptime.Config.Types.{PeerInfo, ClusterConfig}
use quptime.Config.Cluster.{quorum_size}
use quptime.Quorum.Manager.{Manager, new_manager, mark_live}
use quptime.Quorum.Manager.Invariant.{
  IsValid, IsValid-later, new_manager-IsValid, mark_live-IsValid, recompute_master-IsValid,
}
use quptime.Quorum.Node.{
  Node, Observer, HeartbeatRequest, HeartbeatResponse, set_addr, maybe_notify_version,
  remember_addrs, recompute, heard_from, handle_heartbeat, tick, handle_answer, start,
}

with_addrs-IsValid :
    (clock : ℕ) (addrs : List (String × String)) (m : Manager)
    → IsValid clock m
    → IsValid clock (record m { addr_of = addrs })
with_addrs-IsValid clock addrs m v = record {
  distinct = v.distinct;
  past = v.past;
  streak = v.streak;
  heard = v.heard;
  term_fits = v.term_fits;
}

set_addr-IsValid :
    (clock : ℕ) (id addr : String) (m : Manager)
    → IsValid clock m
    → IsValid clock (set_addr id addr m)
unfolding set_addr
set_addr-IsValid clock id addr m v =
    if_both (IsValid clock) (addr == "") v (with_addrs-IsValid clock _ m v)

maybe_notify_version-manager :
    (observer : Option Observer) (id : String) (version : ℕ) (n : Node)
    → (maybe_notify_version observer id version n).manager ≡ n.manager
unfolding maybe_notify_version
maybe_notify_version-manager none id version n = refl
maybe_notify_version-manager (some o) id version n = ground arith

heard_from-IsValid :
    (observer : Option Observer) (clock now : ℕ) (id advertise : String) (version : ℕ) (n : Node)
    → clock ≤ now
    → IsValid clock n.manager
    → IsValid now (heard_from observer now id advertise version n).manager
unfolding heard_from
heard_from-IsValid observer clock now id advertise version n later v =
    rw maybe_notify_version-manager (
      set_addr-IsValid now id advertise (mark_live id now n.manager)
        (mark_live-IsValid clock now n.manager later v id))

handle_heartbeat-IsValid :
    (observer : Option Observer) (clock now : ℕ) (req : HeartbeatRequest) (n : Node)
    → clock ≤ now
    → IsValid clock n.manager
    → IsValid now (handle_heartbeat observer now req n).0.manager
unfolding handle_heartbeat recompute
handle_heartbeat-IsValid observer clock now req n later v =
    let block = heard_from observer now req.from_node_id req.advertise req.version n in
    let heard =
      if_both (λ (x : Node). IsValid now x.manager)
        (not (req.from_node_id == "") && not (req.from_node_id == n.manager.self_id)) {x = block}
        {y = n}
        (heard_from-IsValid observer clock now req.from_node_id req.advertise req.version n later v)
        (IsValid-later later v) in
    recompute_master-IsValid _ now now _ heard

remember_addrs-IsValid :
    (clock : ℕ) (ps : List PeerInfo) (m : Manager)
    → IsValid clock m
    → IsValid clock (remember_addrs ps m)
unfolding remember_addrs
remember_addrs-IsValid clock [] m v = v
remember_addrs-IsValid clock (p ∷ ps) m v = remember_addrs-IsValid clock ps _ (
    if_both (IsValid clock) (not (p.node_id == "") && not (p.advertise == ""))
      (with_addrs-IsValid clock _ m v) v)

tick-IsValid :
    (clock now : ℕ) (n : Node)
    → clock ≤ now
    → IsValid clock n.manager
    → IsValid now (tick now n).0.manager
unfolding tick recompute
tick-IsValid clock now n later v =
    let m = remember_addrs n.cluster.peers n.manager in
    recompute_master-IsValid (quorum_size n.cluster) now now (mark_live m.self_id now m) (
      mark_live-IsValid clock now m later (remember_addrs-IsValid clock n.cluster.peers n.manager v)
        m.self_id)

-- One handler of the manager runs, or the replicator changes the configuration.
pub data Step : ℕ → Node → ℕ → Node → Type 0 where
  receives :
      {clock now : ℕ} {n : Node} (observer : Option Observer) (req : HeartbeatRequest)
      → clock ≤ now
      → Step clock n now (handle_heartbeat observer now req n).0
  answered :
      {clock now : ℕ} {n : Node} (observer : Option Observer) (peer : String)
      (resp : HeartbeatResponse)
      → clock ≤ now
      → Step clock n now (handle_answer observer now peer resp n)
  ticks : {clock now : ℕ} {n : Node} → clock ≤ now → Step clock n now (tick now n).0
  starts : {clock now : ℕ} {n : Node} → clock ≤ now → Step clock n now (start now n)
  reconfigured :
      {clock now : ℕ} {n : Node} (c : ClusterConfig)
      → clock ≤ now
      → Step clock n now (record n { cluster = c })

pub data Reach (self_id : String) (c : ClusterConfig) : ℕ → Node → Type 0 where
  begin : Reach self_id c 0 (record { manager = new_manager self_id; cluster = c })
  next :
      {clock now : ℕ} {m n : Node}
      → Reach self_id c clock m
      → Step clock m now n
      → Reach self_id c now n

Step-IsValid :
    {clock now : ℕ} {m n : Node}
    → Step clock m now n
    → IsValid clock m.manager
    → IsValid now n.manager
unfolding handle_answer start recompute
Step-IsValid (receives {clock} {now} {n} observer req later) v =
    handle_heartbeat-IsValid observer clock now req n later v
Step-IsValid (answered {clock} {now} {n} observer peer resp later) v =
    heard_from-IsValid observer clock now peer resp.advertise resp.version n later v
Step-IsValid (ticks {clock} {now} {n} later) v = tick-IsValid clock now n later v
Step-IsValid (starts {clock} {now} {n} later) v =
    recompute_master-IsValid _ now now _
      (mark_live-IsValid clock now n.manager later v n.manager.self_id)
Step-IsValid (reconfigured c later) v = IsValid-later later v

-- In every reachable state, whatever heartbeats, answers, ticks and reconfigurations came in
-- whatever order: each peer has one contact entry, in the past and inside a streak that began no
-- later; an elected master has been heard of; and the term is a uint64.
pub Reach-IsValid :
    {self_id : String} {c : ClusterConfig} {clock : ℕ} {n : Node}
    → Reach self_id c clock n
    → IsValid clock n.manager
Reach-IsValid {self_id} begin = new_manager-IsValid self_id
Reach-IsValid (next r s) = Step-IsValid s (Reach-IsValid r)
