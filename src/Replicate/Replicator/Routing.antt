-- ===== src/Replicate/Replicator/Routing.antt =====
-- Who changes the configuration: the routing of internal/replicate/replicator.go.
use quptime.Prelude.{
  ℕ, ◌+◌, ◌%◌, ◌^◌, String, true, false, Option, none, some, ◌≡◌, ◌≢◌, refl, ap, ◌⊎◌, inl, inr,
  eq_iff, arith, Bool-cases, Option-cases,
}
use quptime.Config.Types.{ClusterConfig}
use quptime.Config.Cluster.{Outcome, snapshot, mutate}
use quptime.Config.Cluster.Versions.{mutate-Mutated, mutate-written, mutate-sum, Mutated, bumped}
use quptime.Replicate.Mutation.{MutationKind, Payload, apply_mutation}
use quptime.Replicate.Replicator.{
  Env, Effect, Result, ok, err, ProposeMutationRequest, ProposeMutationResponse, unchanged,
  broadcast, apply_locally, local_mutate, handle_propose_mutation, ship, mutate_raw, after_apply,
  respond,
}

ship-unchanged :
    (env : Env) (kind : MutationKind) (raw : String) (c : ClusterConfig)
    → (ship env kind raw c).0 ≡ unchanged c
unfolding ship
ship-unchanged env kind raw c = ground (arith, eq_iff env.view.master "")

follower-unchanged :
    (env : Env) (kind : MutationKind) (o : Option String) (c : ClusterConfig)
    → env.view.is_master ≡ false
    → (mutate_raw env kind o c).0 ≡ unchanged c
unfolding mutate_raw
follower-unchanged env kind none c h = refl
follower-unchanged env kind (some raw) c h = rw h (ship-unchanged env kind raw c)

pub local_mutate-unchanged :
    (env : Env) (kind : MutationKind) (payload : Payload) (c : ClusterConfig)
    → (env.view.is_master ≡ false) ⊎ (env.view.has_quorum ≡ false)
    → (local_mutate env kind payload c).0 ≡ unchanged c
unfolding local_mutate
local_mutate-unchanged env kind payload c (inl h) = elim (Bool-cases env.view.has_quorum) [
  | inl q ↦ simp q (follower-unchanged env kind (env.json.marshal payload) c h)
  | inr q ↦ rw q
]
local_mutate-unchanged env kind payload c (inr h) = rw h

-- A node that is not the master, or sees no quorum, changes nothing, fires no callback and pushes
-- nothing, whatever the mutation, when its own control plane or another node asks for one; the
-- other node gets an error.
pub not_master-unchanged :
    (env : Env) (kind : MutationKind) (payload : Payload) (req : ProposeMutationRequest)
    (c : ClusterConfig)
    → (env.view.is_master ≡ false) ⊎ (env.view.has_quorum ≡ false)
    → ((local_mutate env kind payload c).0 ≡ unchanged c)
      × ((handle_propose_mutation env req c).0 ≡ unchanged c)
      × ((handle_propose_mutation env req c).1.error ≢ none)
unfolding handle_propose_mutation
not_master-unchanged env kind payload req c (inl h) =
    (local_mutate-unchanged env kind payload c (inl h), rw h, λ e. cc (rw h at e))
not_master-unchanged env kind payload req c (inr h) = elim (Bool-cases env.view.is_master) [
  | inl q ↦ (local_mutate-unchanged env kind payload c (inr h), rw (q, h), λ e. cc (rw (q, h) at e))
  | inr q ↦ (local_mutate-unchanged env kind payload c (inr h), rw q, λ e. cc (rw q at e))
]

-- What a mutation that the master accepts has done.
pub record Committed (env : Env) (kind : MutationKind) (raw : String) (c : ClusterConfig)
    (s : Effect) (v : ℕ) : Type 0 where
  pub accepted : (apply_mutation env.json kind raw c).1 ≡ none
  pub content :
      snapshot s.config
      ≡ snapshot (bumped env.now env.self_id (apply_mutation env.json kind raw c).0)
  pub version : v ≡ s.config.version
  pub notified : s.notified ≡ true
  pub pushed : s.pushes ≡ broadcast env.self_id s.config

respond-ok :
    (p : Effect × Result ℕ)
    → (respond p).1.error ≡ none
    → (p.1 ≡ ok (respond p).1.new_version) × ((respond p).0 ≡ p.0)
respond-ok (s, ok v) h = (refl, refl)
respond-ok (s, err e) h = absurd (ground arith)

module _ (env : Env) (kind : MutationKind) (raw : String) (c : ClusterConfig) where
  pub after_apply-ok :
      (o : Outcome)
      → o.error ≡ none
      → after_apply env o ≡ (
        record {
          config = o.config;
          notified = o.notified;
          pushes = broadcast env.self_id o.config;
        },
        ok o.config.version,
      )
  after_apply-ok o e = ground arith

  after_apply-Committed :
      (v : ℕ) (o : Outcome)
      → Mutated env.disk env.now env.self_id (apply_mutation env.json kind raw c) o
      → (after_apply env o).1 ≡ ok v
      → Committed env kind raw c (after_apply env o).0 v
  after_apply-Committed v o (inl (e, f, g)) h = absurd (ground arith)
  after_apply-Committed v o (inr (a, p)) h = elim (Option-cases o.error) [
    | inl e ↦
        let ran = after_apply-ok o e in
        let version : ok o.config.version ≡ ok v = rw ran at h in
        rw ran (record {
          accepted = a;
          content = p.content;
          version = cc;
          notified = p.notifies.1 e;
          pushed = refl;
        })
    | inr (x, e) ↦ absurd (ground arith)
  ]

  committed :
      (v : ℕ)
      → (after_apply env (apply_locally env kind raw c)).1 ≡ ok v
      → Committed env kind raw c (after_apply env (apply_locally env kind raw c)).0 v
  unfolding apply_locally
  committed v h =
      after_apply-Committed v
        (mutate env.disk env.now env.self_id (apply_mutation env.json kind raw) c)
        (mutate-Mutated env.disk env.now env.self_id (apply_mutation env.json kind raw) c) h

  abbrev proposed : String → Effect × ProposeMutationResponse
  proposed from =
      handle_propose_mutation env (record { from_node_id = from; kind = kind; payload = raw }) c

  -- If the master's control plane asks for a mutation and gets a version back, then the mutation
  -- was accepted, the configuration is the mutated one with the next version, the callbacks have
  -- fired, and exactly this configuration was broadcast.
  pub local_mutate-Committed :
      (payload : Payload) (v : ℕ)
      → env.json.marshal payload ≡ some raw
      → env.view.is_master ≡ true
      → (local_mutate env kind payload c).1 ≡ ok v
      → Committed env kind raw c (local_mutate env kind payload c).0 v
  unfolding local_mutate
  local_mutate-Committed payload v m i h = elim (Bool-cases env.view.has_quorum) [
    | inl q ↦
        let ran : local_mutate env kind payload c ≡ after_apply env (apply_locally env kind raw c) =
          ground arith in
        rw ran (committed v (rw ran at h))
    | inr q ↦ absurd (ground arith)
  ]

  -- The master, with a quorum, accepts each mutation that does not fail once it can marshal and
  -- write the mutated configuration, and returns the next version as a uint64.
  pub local_mutate-ok :
      (payload : Payload) (out : String)
      → env.json.marshal payload ≡ some raw
      → env.view.is_master ≡ true
      → env.view.has_quorum ≡ true
      → (apply_mutation env.json kind raw c).1 ≡ none
      → env.disk.marshal (bumped env.now env.self_id (apply_mutation env.json kind raw c).0)
        ≡ some out
      → env.disk.write out ≡ none
      → (local_mutate env kind payload c).1
        ≡ ok (((apply_mutation env.json kind raw c).0.version + 1) % 2 ^ 64)
  unfolding local_mutate apply_locally
  local_mutate-ok payload out m i q accepted marshalled written =
      let (fine, version) =
        mutate-written env.disk env.now env.self_id out (apply_mutation env.json kind raw) c
          accepted marshalled written in
      let o = apply_locally env kind raw c in
      let ran : local_mutate env kind payload c ≡ after_apply env o = ground arith in
      rw ran (rw (after_apply-ok o fine) (ap ok version))

  -- and the checksum is that of the bytes on disk
  pub local_mutate-sum :
      (payload : Payload) (out : String)
      → env.json.marshal payload ≡ some raw
      → env.view.is_master ≡ true
      → env.view.has_quorum ≡ true
      → (apply_mutation env.json kind raw c).1 ≡ none
      → env.disk.marshal (bumped env.now env.self_id (apply_mutation env.json kind raw c).0)
        ≡ some out
      → env.disk.write out ≡ none
      → (local_mutate env kind payload c).0.config.last_sum ≡ env.disk.sum256 out
  unfolding local_mutate apply_locally
  local_mutate-sum payload out m i q accepted marshalled written =
      let (fine, version) =
        mutate-written env.disk env.now env.self_id out (apply_mutation env.json kind raw) c
          accepted marshalled written in
      let o = apply_locally env kind raw c in
      let ran : local_mutate env kind payload c ≡ after_apply env o = ground arith in
      rw ran (
        rw (after_apply-ok o fine) (
          mutate-sum env.disk env.now env.self_id out (apply_mutation env.json kind raw) c accepted
            marshalled written))

  -- If a proposal of another node is answered without an error, then the mutation was accepted, the
  -- configuration is the mutated one with the next version, which the answer names, the callbacks
  -- have fired, and exactly this configuration was broadcast.
  pub handle_propose_mutation-Committed :
      (from : String)
      → (proposed from).1.error ≡ none
      → Committed env kind raw c (proposed from).0 (proposed from).1.new_version
  unfolding handle_propose_mutation
  handle_propose_mutation-Committed from h = elim (Bool-cases env.view.is_master) [
    | inl i ↦ elim (Bool-cases env.view.has_quorum) [
      | inl q ↦
          let x = after_apply env (apply_locally env kind raw c) in
          let req : ProposeMutationRequest = record {
            from_node_id = from;
            kind = kind;
            payload = raw;
          } in
          let ran : handle_propose_mutation env req c ≡ respond x = ground arith in
          let (good, same) = respond-ok x (rw ran at h) in
          rw (ran, same) (committed (respond x).1.new_version good)
      | inr q ↦ absurd (ground arith)
    ]
    | inr i ↦ absurd (ground arith)
  ]
