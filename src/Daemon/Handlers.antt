-- ===== src/Daemon/Handlers.antt =====
-- `registerHandlers` of internal/daemon/handlers.go: what the node answers to other nodes, as the
-- handlers of the RPC server. The JSON codec of requests and answers, the clock and the peers' answers
-- are arguments. What a handler sends to others is left out here: the snapshots are those of the
-- replicator, the alerts those of the results.

pub mod Strangers
use quptime.Prelude.{
  ℕ, ◌+◌, String, Bool, false, not, ◌&&◌, Option, none, some, ◌==◌, leb, lookup, if◌then◌else◌,
}
use quptime.Prelude.Int.{ℤ}
use quptime.Config.Types.{ClusterConfig}
use quptime.Config.Cluster.{quorum_size}
use quptime.Config.Node.{NodeConfig, advertise_addr}
use quptime.Quorum.Manager.{is_master, has_quorum}
use quptime.Quorum.Node.{HeartbeatRequest, HeartbeatResponse, handle_heartbeat}
use quptime.Replicate.Replicator.{
  Result, ProposeMutationRequest, ProposeMutationResponse, ApplyClusterCfgResponse, Effect,
  handle_propose_mutation, handle_apply_cluster_cfg, handle_get_cluster_cfg, pull_from,
}
use quptime.Alerts.Dispatcher.{Channels}
use quptime.Transport.Trust.{Entries}
use quptime.Transport.Server.{Host, Request, Response, Answer, result, unmarshallable, refused}
use quptime.Daemon.Enroll.{
  Surroundings, NodeState, EnrollRequest, EnrollResponse, handle_enroll, sync_trust,
}
use quptime.Daemon.Status.{Parts, StatusResponse, build_status}
use quptime.Daemon.Results.{Report, handle_report}

-- what the handlers answer
pub data Reply : Type 0 where
  pong : String → ℕ → Reply
  whoami : String → String → String → String → Reply
  join_refused : String → Reply
  enrolled : EnrollResponse → Reply
  beaten : HeartbeatResponse → Reply
  cluster : ClusterConfig → Reply
  applied : ApplyClusterCfgResponse → Reply
  proposed : ProposeMutationResponse → Reply
  acknowledged : Reply
  status : StatusResponse → Reply

abbrev removed_join : String
removed_join =
    "cluster-secret join is no longer supported — issue a pre-deployment token with `qu enroll create` and run `qu enroll join <token>` on the new host"

-- What the handlers are made of. `around` has the disk, the codecs and the answers of peers; its
-- clock, id and quorum view are those of the running parts. `fetch` is a peer's answer to a pull.
pub record Wiring : Type 0 where
  pub around : Surroundings
  pub clock : ℕ → ℕ
  pub node : NodeConfig
  pub itoa : ℤ → String
  pub cert : String
  pub channels : Channels
  pub fetch : String → String → Result (Option ClusterConfig)
  pub decode_enroll : String → Option EnrollRequest
  pub decode_heartbeat : String → Option HeartbeatRequest
  pub decode_apply : String → Option (Option ClusterConfig)
  pub decode_proposal : String → Option ProposeMutationRequest
  pub decode_report : String → Option Report
  pub encode : Reply → Option String

-- The state that the handlers share; the clock has been read `reads` times.
pub record World : Type 0 where
  pub parts : Parts
  pub trust : Entries
  pub reads : ℕ

abbrev pub node_state : World → NodeState
node_state w = record { config = w.parts.config; trust = w.trust }

module _ (b : Wiring) where
  -- what surrounds the running node at a time
  unfoldable pub around_at : World → ℕ → Surroundings
  unfolding quorum_size has_quorum
  around_at w now = record b.around {
    env = record b.around.env {
      self_id = w.parts.manager.self_id;
      view = record {
        master = w.parts.manager.master_id;
        is_master = is_master w.parts.manager;
        has_quorum = has_quorum (quorum_size w.parts.config) w.parts.manager now;
      };
      now = now;
    };
  }

  abbrev here : World → Surroundings
  here w = around_at w (b.clock w.reads)

  abbrev with_state : World → NodeState → World
  with_state w s = record w { parts = record w.parts { config = s.config }; trust = s.trust }

  rendered : Option String → Answer
  rendered none = unmarshallable "marshal response"
  rendered (some s) = result s

  -- the answer, after the clock has been read
  answer : World → Reply → World × Answer
  unfolding rendered
  answer w r = (record w { reads = w.reads + 1 }, rendered (b.encode r))

  -- the callback of the configuration that `New` registers
  after_effect : World → Effect → World
  unfolding around_at sync_trust
  after_effect w e = with_state w (record {
    config = e.config;
    trust = if e.notified then sync_trust (here w) e.config.peers w.trust else w.trust;
  })

  whoami_answer : World → Option String → World × Answer
  unfolding answer advertise_addr
  whoami_answer w none = (w, refused "fingerprint")
  whoami_answer w (some fp) =
      answer w (whoami b.node.node_id (advertise_addr b.itoa b.node) fp b.cert)

  enroll_answer : World → Option EnrollRequest → World × Answer
  unfolding answer around_at handle_enroll
  enroll_answer w none = answer w (enrolled (EnrollResponse.refused "decode"))
  enroll_answer w (some req) =
      let (s, r) = handle_enroll (here w) req (node_state w) in answer (with_state w s) (enrolled r)

  -- the version observer that `New` sets
  unfoldable pub observe : String → String → ℕ → ClusterConfig → ClusterConfig
  unfolding pull_from
  observe id addr version c = (pull_from b.around.env.disk b.fetch id addr c).0.config

  -- whether the pull that a heartbeat leads to fires the callback
  pull_notifies : HeartbeatRequest → ClusterConfig → Option String → Bool
  unfolding pull_from
  pull_notifies req c none = false
  pull_notifies req c (some addr) =
      not (leb req.version c.version)
      && (pull_from b.around.env.disk b.fetch req.from_node_id addr c).0.notified

  heartbeat_answer : World → Option HeartbeatRequest → World × Answer
  unfolding answer around_at handle_heartbeat observe pull_notifies sync_trust
  heartbeat_answer w none = (w, refused "decode")
  heartbeat_answer w (some req) =
      let (n, r) =
        handle_heartbeat (some observe) (b.clock w.reads) req
          (record { manager = w.parts.manager; cluster = w.parts.config }) in
      let notified =
        not (req.from_node_id == w.parts.manager.self_id)
        && pull_notifies req w.parts.config (lookup req.from_node_id n.manager.addr_of) in
      answer
        (record w {
          parts = record w.parts { manager = n.manager; config = n.cluster };
          trust = if notified then sync_trust (here w) n.cluster.peers w.trust else w.trust;
        })
        (beaten r)

  apply_answer : World → Option (Option ClusterConfig) → World × Answer
  unfolding answer handle_apply_cluster_cfg after_effect
  apply_answer w none = (w, refused "decode")
  apply_answer w (some incoming) =
      let (e, r) = handle_apply_cluster_cfg b.around.env.disk incoming w.parts.config in
      answer (after_effect w e) (applied r)

  propose_answer : World → Option ProposeMutationRequest → World × Answer
  unfolding answer around_at handle_propose_mutation after_effect
  propose_answer w none = (w, refused "decode")
  propose_answer w (some req) =
      let (e, r) = handle_propose_mutation (here w).env req w.parts.config in
      answer (after_effect w e) (proposed r)

  report_answer : World → Option Report → World × Answer
  unfolding answer handle_report
  report_answer w none = (w, refused "decode")
  report_answer w (some req) =
      let e = handle_report b.channels (b.clock w.reads) w.parts req in
      answer (record w { parts = record w.parts { aggregator = e.aggregator } }) acknowledged

  -- `registerHandlers`: no handler looks at the caller's id
  unfoldable pub register_handlers : String → Option (World → String → String → World × Answer)
  unfolding answer whoami_answer enroll_answer heartbeat_answer apply_answer propose_answer
      report_answer handle_get_cluster_cfg build_status
  register_handlers method =
      if method == "Ping"
      then some (λ w id raw. answer w (pong b.node.node_id (b.clock w.reads)))
      else if method == "WhoAmI"
      then some (λ w id raw. whoami_answer w (b.around.fingerprint_from_cert b.cert))
      else if method == "Join"
      then some (λ w id raw. answer w (join_refused removed_join))
      else if method == "Enroll"
      then some (λ w id raw. enroll_answer w (b.decode_enroll raw))
      else if method == "Heartbeat"
      then some (λ w id raw. heartbeat_answer w (b.decode_heartbeat raw))
      else if method == "GetClusterCfg"
      then some (λ w id raw. answer w (cluster (handle_get_cluster_cfg w.parts.config)))
      else if method == "ApplyClusterCfg"
      then some (λ w id raw. apply_answer w (b.decode_apply raw))
      else if method == "ProposeMutation"
      then some (λ w id raw. propose_answer w (b.decode_proposal raw))
      else if method == "ReportResult"
      then some (λ w id raw. report_answer w (b.decode_report raw))
      else if method == "Status"
      then some (λ w id raw. answer w (status (build_status (b.clock w.reads) w.parts)))
      else none

  -- the RPC server of the daemon
  unfoldable pub server : (String → Option Request) → (Response → Bool) → Host World
  unfolding register_handlers
  server decode writable = record {
    store = λ w. w.trust;
    handler = register_handlers;
    decode = decode;
    writable = writable;
  }
