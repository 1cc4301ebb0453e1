-- ===== src/Daemon/Watcher.antt =====
-- `checkManualEdit` of internal/daemon/watcher.go. Reading cluster.yaml, yaml.Unmarshal and
-- reflect.DeepEqual are arguments; SHA-256 of the file is that of the disk in `Env`.
pub mod Edits
use quptime.Prelude.{ℕ, String, Bool, ◌&&◌, Option, none, some, List, ◌==◌, if◌then◌else◌}
use quptime.Config.Types.{PeerInfo, Check, Alert, ClusterConfig}
use quptime.Config.Cluster.{empty_config_state, last_saved_sum, set_last_saved_sum}
use quptime.Replicate.Mutation.{replace_config, a_config}
use quptime.Replicate.Replicator.{Result}
use quptime.Daemon.Enroll.{Surroundings, NodeState, mutate_and_sync}

-- reflect.DeepEqual at the three types, and yaml.Unmarshal
pub record Yaml : Type 0 where
  pub parse : String → Option ClusterConfig
  pub same_peers : List PeerInfo → List PeerInfo → Bool
  pub same_checks : List Check → List Check → Bool
  pub same_alerts : List Alert → List Alert → Bool

-- The state after a poll, and the replicator's answer where the edit is forwarded.
abbrev pub Polled : Type 0
Polled = NodeState × Option (Result ℕ)

abbrev pub with_sum : String → NodeState → NodeState
with_sum sum s = record s { config = set_last_saved_sum sum s.config }

-- an edit that leaves peers, checks and alerts as they are
abbrev pub cosmetic : Yaml → ClusterConfig → ClusterConfig → Bool
cosmetic y current edited =
    y.same_peers current.peers edited.peers
    && y.same_checks current.checks edited.checks
    && y.same_alerts current.alerts edited.alerts

-- the payload: the other fields keep Go's zero values
abbrev pub edit_payload : ClusterConfig → ClusterConfig
edit_payload edited = record empty_config_state {
  peers = edited.peers;
  checks = edited.checks;
  alerts = edited.alerts;
}

forwarded : NodeState × Result ℕ → Polled
forwarded (s, r) = (s, some r)

parsed_edit : Surroundings → Yaml → NodeState → String → Option ClusterConfig → Polled
unfolding forwarded mutate_and_sync
parsed_edit d y s sum none = (with_sum sum s, none)
parsed_edit d y s sum (some edited) =
    if cosmetic y s.config edited
    then (with_sum sum s, none)
    else forwarded
        (mutate_and_sync d replace_config (a_config (edit_payload edited)) (with_sum sum s))

-- `checkManualEdit`, for what reading the file gives
unfoldable pub check_manual_edit : Surroundings → Yaml → Option String → NodeState → Polled
unfolding parsed_edit
check_manual_edit d y none s = (s, none)
check_manual_edit d y (some raw) s =
    let sum = d.env.disk.sum256 raw in
    if sum == last_saved_sum s.config then (s, none) else parsed_edit d y s sum (y.parse raw)
