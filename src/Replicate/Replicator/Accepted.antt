-- ===== src/Replicate/Replicator/Accepted.antt =====
-- When the master accepts a mutation: `LocalMutate` of internal/replicate/replicator.go.
use quptime.Prelude.{
  ℕ, ◌+◌, ◌%◌, ◌^◌, String, true, none, some, ◌≡◌, sym, ap, ◌∙◌, ◌↔◌, inl, inr, arith, Bool-cases,
  Option-cases,
}
use quptime.Config.Types.{ClusterConfig}
use quptime.Config.Cluster.{Outcome}
use quptime.Config.Cluster.Versions.{bumped, Mutated, mutate-Mutated}
use quptime.Replicate.Mutation.{MutationKind, Payload, apply_mutation}
use quptime.Replicate.Replicator.{Env, ok, local_mutate, mutate_raw, after_apply, apply_locally}
use quptime.Replicate.Replicator.Growth.{apply_mutation-version}
use quptime.Replicate.Replicator.Routing.{after_apply-ok, local_mutate-ok}

-- What a mutation needs to be committed here: the payload marshals, the node is the master and has
-- a quorum, the mutation accepts the configuration, and the result is written.
pub record Commits (env : Env) (kind : MutationKind) (payload : Payload) (c : ClusterConfig)
    : Type 0 where
  pub raw : String
  pub marshalled : env.json.marshal payload ≡ some raw
  pub master : env.view.is_master ≡ true
  pub quorum : env.view.has_quorum ≡ true
  pub accepted : (apply_mutation env.json kind raw c).1 ≡ none
  pub out : String
  pub encoded :
      env.disk.marshal (bumped env.now env.self_id (apply_mutation env.json kind raw c).0)
      ≡ some out
  pub stored : env.disk.write out ≡ none

module _ (env : Env) (kind : MutationKind) (payload : Payload) (c : ClusterConfig)
    (master : env.view.is_master ≡ true) where
  applied :
      (raw : String) (v : ℕ) (o : Outcome)
      → Mutated env.disk env.now env.self_id (apply_mutation env.json kind raw c) o
      → env.json.marshal payload ≡ some raw
      → env.view.has_quorum ≡ true
      → (after_apply env o).1 ≡ ok v
      → Commits env kind payload c × (v ≡ (c.version + 1) % 2 ^ 64)
  applied raw v o (inl (e, f, g)) m q h = absurd (ground arith)
  applied raw v o (inr (a, p)) m q h = elim (Option-cases o.error) [
    | inr (x, e) ↦ absurd (ground arith)
    | inl e ↦
        let (out, encoded, stored, sum) = p.on_disk e in
        let answer : ok o.config.version ≡ ok v =
          sym (ap (λ x. x.1) (after_apply-ok env kind raw c o e)) ∙ h in
        let same : o.config.version ≡ v = cc in
        (
          record {
            raw = raw;
            marshalled = m;
            master = master;
            quorum = q;
            accepted = a;
            out = out;
            encoded = encoded;
            stored = stored;
          },
          sym same
              ∙ p.version
              ∙ ap (λ (n : ℕ). (n + 1) % 2 ^ 64) (apply_mutation-version env.json kind raw c),
        )
  ]

  answered :
      (v : ℕ)
      → (local_mutate env kind payload c).1 ≡ ok v
      → Commits env kind payload c × (v ≡ (c.version + 1) % 2 ^ 64)
  unfolding local_mutate mutate_raw apply_locally
  answered v h = elim (Bool-cases env.view.has_quorum) [
    | inr q ↦ absurd (ground arith)
    | inl q ↦ elim (Option-cases (env.json.marshal payload)) [
      | inl m ↦ absurd (ground arith)
      | inr (raw, m) ↦
          applied raw v (apply_locally env kind raw c)
            (mutate-Mutated env.disk env.now env.self_id (apply_mutation env.json kind raw) c) m q
            (simp (q, m, master) at h)
    ]
  ]

  -- The master returns a version for a mutation exactly if it sees a quorum, the payload marshals,
  -- the mutation accepts the configuration, and the mutated configuration is marshalled and written;
  -- and whatever the mutation, this version is the one after the node's own, as a uint64.
  pub local_mutate_iff :
      (v : ℕ)
      → ((local_mutate env kind payload c).1 ≡ ok v)
        ↔ (Commits env kind payload c × (v ≡ (c.version + 1) % 2 ^ 64))
  local_mutate_iff v = (
    answered v,
    λ (k, e).
        local_mutate-ok env kind k.raw c payload k.out k.marshalled k.master k.quorum k.accepted
          k.encoded k.stored
        ∙ ap ok (
            ap (λ (n : ℕ). (n + 1) % 2 ^ 64) (apply_mutation-version env.json kind k.raw c)
            ∙ sym e),
  )
