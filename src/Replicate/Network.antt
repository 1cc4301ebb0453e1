-- ===== src/Replicate/Network.antt =====
-- Several nodes that run internal/replicate/replicator.go: what each does, in any order. Of a node the
-- configuration is kept, under its id; of the network, every push that was ever sent, which may
-- arrive late, several times or never. Each step has its own surroundings, so two nodes may take
-- themselves for the master at once, and disks and calls may fail.
pub mod Stamps
use quptime.Prelude.{◌+◌, ◌^◌, ◌<◌, String, some, List, ◌++◌, ◌==◌, if◌then◌else◌, In}
use quptime.Config.Types.{ClusterConfig}
use quptime.Config.Cluster.{Disk}
use quptime.Replicate.Mutation.{MutationKind, Payload}
use quptime.Replicate.Replicator.{
  Env, Effect, Push, ProposeMutationRequest, ok, local_mutate, handle_propose_mutation,
  handle_apply_cluster_cfg, handle_get_cluster_cfg, pull_from,
}

pub record Network : Type 0 where
  pub config : String → ClusterConfig
  pub sent : List Push

-- the network after a call on a node
unfoldable pub after : Network → String → Effect → Network
after s id e = record {
  config = λ j. if j == id then e.config else s.config j;
  sent = s.sent ++ e.pushes;
}

-- The version of the node can still grow: it is a uint64.
abbrev pub Room : Network → String → Type 0
Room s id = (s.config id).version + 1 < 2 ^ 64

-- One call on one node: `LocalMutate`, `HandleProposeMutation`, the arrival of a push at
-- `HandleApplyClusterCfg`, and `PullFrom` with the answer of `HandleGetClusterCfg` of a node.
pub data Step (s : Network) : Network → Type 0 where
  mutates :
      (env : Env) (kind : MutationKind) (payload : Payload)
      → Room s env.self_id
      → Step s (after s env.self_id (local_mutate env kind payload (s.config env.self_id)).0)
  is_asked :
      (env : Env) (req : ProposeMutationRequest)
      → Room s env.self_id
      → Step s (after s env.self_id (handle_propose_mutation env req (s.config env.self_id)).0)
  receives :
      (d : Disk) (x : Push)
      → In x s.sent
      → Step s
          (after s x.peer_id (handle_apply_cluster_cfg d (some x.config) (s.config x.peer_id)).0)
  pulls :
      (d : Disk) (id from addr : String)
      → Step s (
          after s id
            (pull_from d
              (λ i a. ok (some (handle_get_cluster_cfg (s.config from))))
              from
              addr
              (s.config id)).0)

pub data Reach (s : Network) : Network → Type 0 where
  start : Reach s s
  later : {t u : Network} → Reach s t → Step t u → Reach s u
