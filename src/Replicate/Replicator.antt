-- ===== src/Replicate/Replicator.antt =====
-- internal/replicate/replicator.go: routing, the handlers, and the broadcast. The quorum manager
-- (`MasterView`), the peers behind `Call`, the disk and the JSON codec are arguments.
pub mod Routing
pub mod Broadcast
pub mod Growth
pub mod Accepted
use quptime.Prelude.{
  ℕ, String, Bool, false, not, ◌||◌, Option, none, some, List, [], ◌∷◌, ◌==◌, if◌then◌else◌,
}
use quptime.Config.Types.{PeerInfo, ClusterConfig}
use quptime.Config.Cluster.{
  Error, io_error, no_quorum, not_master, master_unknown, empty_peer, empty_config,
  master_has_no_address, Disk, Outcome, snapshot, mutate, replace,
}
use quptime.Replicate.Mutation.{Json, MutationKind, Payload, apply_mutation}

-- `MasterView`: what the quorum manager answers during one call.
pub record MasterView : Type 0 where
  pub master : String
  pub is_master : Bool
  pub has_quorum : Bool

pub record ProposeMutationRequest : Type 0 where
  pub from_node_id : String
  pub kind : MutationKind
  pub payload : String

-- The empty error text is `none`.
pub record ProposeMutationResponse : Type 0 where
  pub new_version : ℕ
  pub error : Option Error

pub data Result (A : Type 0) : Type 0 where
  ok : A → Result A
  err : Error → Result A

-- What surrounds the replicator in one call: this node's id, the manager's answers, the clock,
-- the disk, the codec, and the master's answer to a proposal (`err` where the call fails).
pub record Env : Type 0 where
  pub self_id : String
  pub view : MasterView
  pub now : ℕ
  pub disk : Disk
  pub json : Json
  pub propose : String → String → ProposeMutationRequest → Result ProposeMutationResponse

-- A snapshot that `broadcast` sends, with the peer that it goes to.
pub record Push : Type 0 where
  pub peer_id : String
  pub addr : String
  pub config : ClusterConfig

-- The state after a call: the configuration, whether its callbacks fired, and what was broadcast.
pub record Effect : Type 0 where
  pub config : ClusterConfig
  pub notified : Bool
  pub pushes : List Push

abbrev pub unchanged : ClusterConfig → Effect
unchanged c = record { config = c; notified = false; pushes = [] }

pushes_to : String → ClusterConfig → List PeerInfo → List Push
pushes_to self_id snap [] = []
pushes_to self_id snap (p ∷ rest) =
    let more = pushes_to self_id snap rest in
    if p.node_id == self_id || p.node_id == "" || p.advertise == ""
    then more
    else record { peer_id = p.node_id; addr = p.advertise; config = snap } ∷ more

-- `broadcast`
unfoldable pub broadcast : String → ClusterConfig → List Push
unfolding pushes_to
broadcast self_id c = pushes_to self_id (snapshot c) c.peers

-- `addressOf`
unfoldable pub address_of : String → List PeerInfo → String
address_of id [] = ""
address_of id (p ∷ rest) = if p.node_id == id then p.advertise else address_of id rest

-- `applyLocally`
unfoldable pub apply_locally : Env → MutationKind → String → ClusterConfig → Outcome
apply_locally env kind payload =
    mutate env.disk env.now env.self_id (apply_mutation env.json kind payload)

abbrev after_apply : Env → Outcome → Effect × Result ℕ
after_apply env o = elim o.error [
  | some e ↦ (record { config = o.config; notified = o.notified; pushes = [] }, err e)
  | none ↦ (
    record { config = o.config; notified = o.notified; pushes = broadcast env.self_id o.config },
    ok o.config.version,
  )
]

abbrev read_response : Result ProposeMutationResponse → Result ℕ
read_response (err e) = err e
read_response (ok resp) = elim resp.error [ some e ↦ err e | none ↦ ok resp.new_version ]

-- the follower's half of `LocalMutate`
ship : Env → MutationKind → String → ClusterConfig → Effect × Result ℕ
ship env kind raw c =
    let master = env.view.master in
    let addr = address_of master c.peers in
    if master == ""
    then (unchanged c, err master_unknown)
    else if addr == ""
    then (unchanged c, err (master_has_no_address master))
    else (
      unchanged c,
      read_response (
          env.propose master addr
            (record { from_node_id = env.self_id; kind = kind; payload = raw })),
    )

mutate_raw : Env → MutationKind → Option String → ClusterConfig → Effect × Result ℕ
unfolding ship
mutate_raw env kind none c = (unchanged c, err (io_error "marshal payload"))
mutate_raw env kind (some raw) c =
    if env.view.is_master
    then after_apply env (apply_locally env kind raw c)
    else ship env kind raw c

-- `LocalMutate`
unfoldable pub local_mutate : Env → MutationKind → Payload → ClusterConfig → Effect × Result ℕ
unfolding mutate_raw
local_mutate env kind payload c =
    if not env.view.has_quorum
    then (unchanged c, err no_quorum)
    else mutate_raw env kind (env.json.marshal payload) c

abbrev respond : Effect × Result ℕ → Effect × ProposeMutationResponse
respond (s, ok v) = (s, record { new_version = v; error = none })
respond (s, err e) = (s, record { new_version = 0; error = some e })

-- `HandleProposeMutation`
unfoldable pub handle_propose_mutation :
    Env → ProposeMutationRequest → ClusterConfig → Effect × ProposeMutationResponse
handle_propose_mutation env req c =
    if not env.view.is_master
    then (unchanged c, record { new_version = 0; error = some not_master })
    else if not env.view.has_quorum
    then (unchanged c, record { new_version = 0; error = some no_quorum })
    else respond (after_apply env (apply_locally env req.kind req.payload c))

pub record ApplyClusterCfgResponse : Type 0 where
  pub applied : Bool
  pub version : ℕ

abbrev effect_of : Outcome → Effect
effect_of o = record { config = o.config; notified = o.notified; pushes = [] }

-- `HandleApplyClusterCfg`: `applied` already stands for `err == nil && ok`.
unfoldable pub handle_apply_cluster_cfg :
    Disk → Option ClusterConfig → ClusterConfig → Effect × ApplyClusterCfgResponse
handle_apply_cluster_cfg d none c = (unchanged c, record { applied = false; version = c.version })
handle_apply_cluster_cfg d (some incoming) c =
    let r = replace d incoming c in
    (effect_of r.outcome, record { applied = r.applied; version = r.config.version })

-- `HandleGetClusterCfg`
unfoldable pub handle_get_cluster_cfg : ClusterConfig → ClusterConfig
handle_get_cluster_cfg c = snapshot c

pull_answer : Disk → Result (Option ClusterConfig) → ClusterConfig → Effect × Option Error
pull_answer d (err e) c = (unchanged c, some e)
pull_answer d (ok none) c = (unchanged c, some empty_config)
pull_answer d (ok (some incoming)) c =
    let r = replace d incoming c in (effect_of r.outcome, r.error)

-- `PullFrom`, for the peer's answer to GetClusterCfg
unfoldable pub pull_from :
    Disk
    → (String → String → Result (Option ClusterConfig))
    → String
    → String
    → ClusterConfig
    → Effect × Option Error
unfolding pull_answer
pull_from d call peer_id addr c =
    if peer_id == "" || addr == ""
    then (unchanged c, some empty_peer)
    else pull_answer d (call peer_id addr) c
