-- ===== src/Daemon/Status.antt =====
-- `buildStatus` and `buildStatusForCLI` of internal/daemon/handlers.go, over the states of the
-- quorum manager and the aggregator. The master's answer to the status call is an argument.
pub mod Views
use quptime.Prelude.{
  ℕ, String, Bool, Option, none, some, List, ◌==◌, if◌then◌else◌, map, lookup, text_append,
}
use quptime.Config.Types.{PeerInfo, Check, Alert, ClusterConfig}
use quptime.Config.Cluster.{contains, effective_alerts_for, quorum_size}
use quptime.Quorum.Manager.{Manager, is_master, live_set, has_quorum}
use quptime.Checks.Aggregator.{State, up, down, unknown, Snapshot, Aggregator, snapshot_for}
use quptime.Replicate.Replicator.{address_of}

pub record PeerLiveness : Type 0 where
  pub node_id : String
  pub advertise : String
  pub live : Bool
  pub last_seen : ℕ

pub record CheckSnapshot : Type 0 where
  pub check_id : String
  pub name : String
  pub state : String
  pub ok_count : ℕ
  pub total : ℕ
  pub detail : String
  pub disabled : Bool
  pub alerts : List String

pub record StatusResponse : Type 0 where
  pub node_id : String
  pub term : ℕ
  pub master_id : String
  pub version : ℕ
  pub has_quorum : Bool
  pub quorum_size : ℕ
  pub peers : List PeerLiveness
  pub checks : List CheckSnapshot

-- The parts of the daemon that the status reads.
pub record Parts : Type 0 where
  pub manager : Manager
  pub config : ClusterConfig
  pub aggregator : Aggregator

unfoldable pub state_name : State → String
state_name unknown = "unknown"
state_name up = "up"
state_name down = "down"

-- a read of a Go map of times, zero for a missing key
abbrev pub time_or_zero : Option ℕ → ℕ
time_or_zero none = 0
time_or_zero (some t) = t

unfoldable pub peer_row : Manager → ℕ → PeerInfo → PeerLiveness
unfolding live_set
peer_row m now p = record {
  node_id = p.node_id;
  advertise = p.advertise;
  live = contains (live_set m now) p.node_id;
  last_seen = time_or_zero (lookup p.node_id m.last_seen);
}

-- the label of an alert: a star marks a default one
abbrev pub alert_label : Alert → String
alert_label a = if a.default then text_append a.name "*" else a.name

-- the row of a check, before the aggregator is asked
abbrev pub unknown_row : ClusterConfig → Check → CheckSnapshot
unknown_row c check = record {
  check_id = check.id;
  name = check.name;
  state = "unknown";
  ok_count = 0;
  total = 0;
  detail = "";
  disabled = check.disabled;
  alerts = map alert_label (effective_alerts_for c (some check));
}

unfoldable pub check_row : ClusterConfig → Check → Option Snapshot → CheckSnapshot
unfolding state_name
check_row c check none = unknown_row c check
check_row c check (some agg) = record (unknown_row c check) {
  state = state_name agg.state;
  ok_count = agg.ok_count;
  total = agg.reports;
  detail = agg.detail;
}

-- `buildStatus`
unfoldable pub build_status : ℕ → Parts → StatusResponse
unfolding peer_row check_row snapshot_for quorum_size has_quorum
build_status now d = record {
  node_id = d.manager.self_id;
  term = d.manager.term;
  master_id = d.manager.master_id;
  version = d.config.version;
  has_quorum = has_quorum (quorum_size d.config) d.manager now;
  quorum_size = quorum_size d.config;
  peers = map (peer_row d.manager now) d.config.peers;
  checks =
      map (λ check. check_row d.config check (snapshot_for d.config now check.id d.aggregator))
        d.config.checks;
}

-- the checks of the master's answer, if it gives one
unfoldable pub with_checks_of : StatusResponse → Option StatusResponse → StatusResponse
with_checks_of status none = status
with_checks_of status (some remote) = record status { checks = remote.checks }

-- `buildStatusForCLI`; `call` asks the node with an id and an address
unfoldable pub build_status_for_cli :
    (String → String → Option StatusResponse) → ℕ → Parts → StatusResponse
unfolding build_status with_checks_of address_of
build_status_for_cli call now d =
    let status = build_status now d in
    let addr = address_of d.manager.master_id d.config.peers in
    if is_master d.manager
    then status
    else if d.manager.master_id == ""
    then status
    else if addr == ""
    then status
    else with_checks_of status (call d.manager.master_id addr)
