-- ===== src/Replicate/Atomic.antt =====
-- The failing branches of `applyLocally`, internal/replicate/replicator.go.
use quptime.Prelude.{String, some, ◌≡◌, arith}
use quptime.Config.Types.{ClusterConfig}
use quptime.Config.Cluster.{Error}
use quptime.Replicate.Mutation.{
  Json, MutationKind, Edit, apply_mutation, apply_add_check, apply_remove_check, apply_add_alert,
  apply_remove_alert, apply_add_peer, apply_replace_config, apply_remove_peer, apply_add_enrollment,
  apply_remove_enrollment, apply_record_enroll_pending, apply_set_resolvers,
  apply_approve_enrollment, add_check, approve_enrollment,
}

module _ (c : ClusterConfig) (e : Error) where
  abbrev Kept : Edit → Type 0
  Kept p = p.1 ≡ some e → p.0 ≡ c

  -- Whatever the kind and the payload, a mutation that fails leaves the configuration as it was.
  pub apply_mutation_atomic :
      (j : Json) (kind : MutationKind) (raw : String)
      → (apply_mutation j kind raw c).1 ≡ some e
      → (apply_mutation j kind raw c).0 ≡ c
  unfolding apply_mutation apply_add_check apply_remove_check apply_add_alert apply_remove_alert
      apply_add_peer apply_replace_config apply_remove_peer apply_add_enrollment
      apply_remove_enrollment apply_record_enroll_pending apply_set_resolvers
      apply_approve_enrollment
  apply_mutation_atomic j add_check raw h = ground arith
  apply_mutation_atomic j approve_enrollment raw h = ground arith
  apply_mutation_atomic j _ raw h = ground arith
