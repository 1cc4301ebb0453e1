-- ===== src/Replicate/Replicator/Growth.antt =====
-- What a call on a node can do to its configuration: internal/replicate/replicator.go.
use quptime.Prelude.{
  ℕ, ◌+◌, ◌^◌, ◌<◌, String, true, Option, none, some, [], ◌≡◌, refl, ap, sym, ◌∙◌, ◌⊎◌, inl, inr,
  arith, In, leb, Bool-cases, ◌||◌, ◌==◌,
}
use quptime.Config.Types.{ClusterConfig}
use quptime.Config.Cluster.{Disk, Outcome, snapshot, mutate, replace}
use quptime.Config.Cluster.Versions.{mutate-Mutated, Mutated, snapshot-replace}
use quptime.Replicate.Mutation.{
  Json, MutationKind, Payload, apply_mutation, apply_add_check, apply_remove_check, apply_add_alert,
  apply_remove_alert, apply_add_peer, apply_replace_config, apply_remove_peer, apply_add_enrollment,
  apply_remove_enrollment, apply_record_enroll_pending, apply_set_resolvers,
  apply_approve_enrollment, add_check, approve_enrollment,
}
use quptime.Replicate.Atomic.{apply_mutation_atomic}
use quptime.Replicate.Replicator.{
  Env, Effect, Push, ProposeMutationRequest, Result, ok, err, unchanged, broadcast, local_mutate,
  mutate_raw, after_apply, apply_locally, respond, handle_propose_mutation,
  handle_apply_cluster_cfg, handle_get_cluster_cfg, pull_from,
}
use quptime.Replicate.Replicator.Routing.{local_mutate-unchanged}
use quptime.Replicate.Replicator.Broadcast.{In-broadcast_iff}

-- A mutation leaves the version alone: it is `Mutate`'s.
pub apply_mutation-version :
    (j : Json) (kind : MutationKind) (raw : String) (c : ClusterConfig)
    → (apply_mutation j kind raw c).0.version ≡ c.version
unfolding apply_mutation apply_add_check apply_remove_check apply_add_alert apply_remove_alert
    apply_add_peer apply_replace_config apply_remove_peer apply_add_enrollment
    apply_remove_enrollment apply_record_enroll_pending apply_set_resolvers apply_approve_enrollment
apply_mutation-version j add_check raw c = ground arith
apply_mutation-version j approve_enrollment raw c = ground arith
apply_mutation-version j _ raw c = ground arith

-- The next version, of this author, and no push of anything else.
pub record Grown (id : String) (c : ClusterConfig) (e : Effect) : Type 0 where
  pub version : e.config.version ≡ c.version + 1
  pub author : e.config.updated_by ≡ id
  pub pushed : (x : Push) → In x e.pushes → x.config ≡ snapshot e.config

-- The content is as it was, and nothing is pushed; or it grew.
abbrev pub Grows : String → ClusterConfig → Effect → Type 0
Grows id c e = ((snapshot e.config ≡ snapshot c) × (e.pushes ≡ [])) ⊎ Grown id c e

unchanged-Grows : (id : String) (c : ClusterConfig) (e : Effect) → e ≡ unchanged c → Grows id c e
unchanged-Grows id c e h = rw h (inl (refl, refl))

module _ (env : Env) (kind : MutationKind) (raw : String) (c : ClusterConfig) where
  after_apply-config : (o : Outcome) → (after_apply env o).0.config ≡ o.config
  after_apply-config o = ground arith

  after_apply-pushes :
      (o : Outcome) (x : Push)
      → In x (after_apply env o).0.pushes
      → In x (broadcast env.self_id o.config)
  after_apply-pushes o x m = ground arith

  after_apply-Grows :
      (o : Outcome)
      → Mutated env.disk env.now env.self_id (apply_mutation env.json kind raw c) o
      → c.version + 1 < 2 ^ 64
      → Grows env.self_id c (after_apply env o).0
  unfolding snapshot
  after_apply-Grows o (inl (e, f, g)) room =
      rw g (inl (ap snapshot (apply_mutation_atomic c e env.json kind raw f), refl))
  after_apply-Grows o (inr (a, p)) room = inr (record {
    version =
        ap (λ (c : ClusterConfig). c.version) (after_apply-config o)
        ∙ p.version
        ∙ omega (arith, apply_mutation-version env.json kind raw c);
    author =
        ap (λ (c : ClusterConfig). c.updated_by) (after_apply-config o)
        ∙ ap (λ (c : ClusterConfig). c.updated_by) p.content;
    pushed = λ x m.
        let (q, _, _, e) = (In-broadcast_iff env.self_id o.config x).0 (after_apply-pushes o x m) in
        ap (λ (y : Push). y.config) e ∙ ap snapshot (sym (after_apply-config o));
  })

  applied-Grows :
      c.version + 1 < 2 ^ 64
      → Grows env.self_id c (after_apply env (apply_locally env kind raw c)).0
  unfolding apply_locally
  applied-Grows =
      after_apply-Grows (mutate env.disk env.now env.self_id (apply_mutation env.json kind raw) c)
        (mutate-Mutated env.disk env.now env.self_id (apply_mutation env.json kind raw) c)

mutate_raw-Grows :
    (env : Env) (kind : MutationKind) (o : Option String) (c : ClusterConfig)
    → env.view.is_master ≡ true
    → c.version + 1 < 2 ^ 64
    → Grows env.self_id c (mutate_raw env kind o c).0
unfolding mutate_raw
mutate_raw-Grows env kind none c m room = inl (refl, refl)
mutate_raw-Grows env kind (some raw) c m room = simp m (applied-Grows env kind raw c room)

-- `LocalMutate` leaves the content, or makes the next version of it under the node's own name.
pub local_mutate-Grows :
    (env : Env) (kind : MutationKind) (payload : Payload) (c : ClusterConfig)
    → c.version + 1 < 2 ^ 64
    → Grows env.self_id c (local_mutate env kind payload c).0
unfolding local_mutate
local_mutate-Grows env kind payload c room = elim (Bool-cases env.view.is_master) [
  | inr m ↦ unchanged-Grows env.self_id c _ (local_mutate-unchanged env kind payload c (inl m))
  | inl m ↦ elim (Bool-cases env.view.has_quorum) [
    | inr q ↦ unchanged-Grows env.self_id c _ (local_mutate-unchanged env kind payload c (inr q))
    | inl q ↦ simp q (mutate_raw-Grows env kind (env.json.marshal payload) c m room)
  ]
]

respond-effect : (p : Effect × Result ℕ) → (respond p).0 ≡ p.0
respond-effect (s, ok v) = refl
respond-effect (s, err e) = refl

-- and so does `HandleProposeMutation`
pub handle_propose_mutation-Grows :
    (env : Env) (req : ProposeMutationRequest) (c : ClusterConfig)
    → c.version + 1 < 2 ^ 64
    → Grows env.self_id c (handle_propose_mutation env req c).0
unfolding handle_propose_mutation
handle_propose_mutation-Grows env req c room = elim (Bool-cases env.view.is_master) [
  | inr m ↦ simp m (inl (refl, refl))
  | inl m ↦ elim (Bool-cases env.view.has_quorum) [
    | inr q ↦ simp (m, q) (inl (refl, refl))
    | inl q ↦
        simp (m, q, respond-effect (after_apply env (apply_locally env req.kind req.payload c)))
          (applied-Grows env req.kind req.payload c room)
  ]
]

-- The content is as it was, or that of a newer snapshot; nothing is pushed.
pub record Takes (x c : ClusterConfig) (e : Effect) : Type 0 where
  pub quiet : e.pushes ≡ []
  pub content :
      (snapshot e.config ≡ snapshot c)
      ⊎ ((snapshot e.config ≡ snapshot x) × (c.version < x.version))

replace_content :
    (d : Disk) (x c : ClusterConfig)
    → (snapshot (replace d x c).config ≡ snapshot c)
      ⊎ ((snapshot (replace d x c).config ≡ snapshot x) × (c.version < x.version))
replace_content d x c = elim (Bool-cases (leb x.version c.version)) [
  | inl e ↦ inl (snapshot-replace d x c ∙ rw e refl)
  | inr e ↦ inr (snapshot-replace d x c ∙ rw e refl, ground arith)
]

-- `HandleApplyClusterCfg` of a snapshot
pub handle_apply_cluster_cfg-Takes :
    (d : Disk) (x c : ClusterConfig) → Takes x c (handle_apply_cluster_cfg d (some x) c).0
unfolding handle_apply_cluster_cfg
handle_apply_cluster_cfg-Takes d x c = record { quiet = refl; content = replace_content d x c }

-- and `PullFrom`, of the configuration that another node serves
pub pull_from-Takes :
    (d : Disk) (x c : ClusterConfig) (peer_id addr : String)
    → Takes
        (snapshot x)
        c
        (pull_from d (λ i a. ok (some (handle_get_cluster_cfg x))) peer_id addr c).0
unfolding pull_from handle_get_cluster_cfg snapshot
pull_from-Takes d x c peer_id addr = elim (Bool-cases (peer_id == "" || addr == "")) [
  | inl e ↦ rw e (record { quiet = refl; content = inl refl })
  | inr e ↦ rw e (record { quiet = refl; content = replace_content d (snapshot x) c })
]
