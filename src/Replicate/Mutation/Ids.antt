-- ===== src/Replicate/Mutation/Ids.antt =====
-- Node ids of peers and ids of enrollments under the mutations of internal/replicate/replicator.go.
use quptime.Prelude.{
  String, Option, none, some, List, ◌≡◌, refl, inl, inr, arith, Distinct, map, Option-cases,
}
use quptime.Config.Types.{PeerInfo, PendingEnrollment, PendingJoin, ClusterConfig}
use quptime.Config.Cluster.{find_enrollment, enrollment_matches}
use quptime.Replicate.Keys.{Distinct-key-upsert, Distinct-key-delete_first, key-update_first}
use quptime.Replicate.Mutation.{
  Json, MutationKind, RecordPending, apply_mutation, apply_add_check, apply_remove_check,
  apply_add_alert, apply_remove_alert, apply_add_peer, apply_replace_config, apply_remove_peer,
  apply_add_enrollment, apply_remove_enrollment, apply_record_enroll_pending, apply_set_resolvers,
  apply_approve_enrollment, peer_of_join, has_node_id, approve_entry, approve_join, record_join,
  has_enrollment_id, add_check, add_peer, remove_peer, replace_config, add_enrollment,
  remove_enrollment, record_enroll_pending, approve_enrollment,
}

abbrev pub node_ids : List PeerInfo → List String
node_ids = map (λ p. p.node_id)

abbrev pub enrollment_ids : List PendingEnrollment → List String
enrollment_ids = map (λ e. e.id)

pub record IdsDistinct (c : ClusterConfig) : Type 0 where
  pub peers : Distinct (node_ids c.peers)
  pub enrollments : Distinct (enrollment_ids c.pending_enrollments)

module _ (c : ClusterConfig) (v : IdsDistinct c) where
  add_peer-IdsDistinct : (o : Option PeerInfo) → IdsDistinct (apply_add_peer o c).0
  unfolding apply_add_peer
  add_peer-IdsDistinct none = v
  add_peer-IdsDistinct (some p) =
      ground (arith, v, Distinct-key-upsert (λ (q : PeerInfo). q.node_id) p c.peers v.peers)

  remove_peer-IdsDistinct : (o : Option String) → IdsDistinct (apply_remove_peer o c).0
  unfolding apply_remove_peer
  remove_peer-IdsDistinct none = v
  remove_peer-IdsDistinct (some t) = ground (
    arith,
    Distinct-key-delete_first (λ (q : PeerInfo). q.node_id) (has_node_id t) c.peers v.peers,
  )

  add_enrollment-IdsDistinct :
      (o : Option PendingEnrollment) → IdsDistinct (apply_add_enrollment o c).0
  unfolding apply_add_enrollment
  add_enrollment-IdsDistinct none = v
  add_enrollment-IdsDistinct (some e) = ground (
    arith,
    Distinct-key-upsert (λ (q : PendingEnrollment). q.id) e c.pending_enrollments v.enrollments,
  )

  remove_enrollment-IdsDistinct : (o : Option String) → IdsDistinct (apply_remove_enrollment o c).0
  unfolding apply_remove_enrollment
  remove_enrollment-IdsDistinct none = v
  remove_enrollment-IdsDistinct (some t) = ground (
    arith,
    Distinct-key-delete_first (λ (q : PendingEnrollment). q.id) (enrollment_matches t)
        c.pending_enrollments v.enrollments,
  )

  record_join-IdsDistinct :
      (id : String) (o : Option PendingJoin) → IdsDistinct (record_join id o c).0
  unfolding record_join
  record_join-IdsDistinct id none = v
  record_join-IdsDistinct id (some pj) = ground (
    arith,
    key-update_first (λ (q : PendingEnrollment). q.id) (has_enrollment_id id)
        (λ e. record e { pending_join = some pj }) c.pending_enrollments (λ x. refl),
  )

  record_enroll_pending-IdsDistinct :
      (o : Option RecordPending) → IdsDistinct (apply_record_enroll_pending o c).0
  unfolding apply_record_enroll_pending
  record_enroll_pending-IdsDistinct none = v
  record_enroll_pending-IdsDistinct (some b) = record_join-IdsDistinct b.id b.pending_join

  approve_join-IdsDistinct :
      (t : String) (o : Option PendingJoin) → IdsDistinct (approve_join t o c).0
  unfolding approve_join
  approve_join-IdsDistinct t none = v
  approve_join-IdsDistinct t (some pj) = record {
    peers = Distinct-key-upsert (λ (q : PeerInfo). q.node_id) (peer_of_join pj) c.peers v.peers;
    enrollments =
        Distinct-key-delete_first (λ (q : PendingEnrollment). q.id) (enrollment_matches t)
          c.pending_enrollments v.enrollments;
  }

  approve_entry-IdsDistinct :
      (t : String) (o : Option PendingEnrollment) → IdsDistinct (approve_entry t o c).0
  unfolding approve_entry
  approve_entry-IdsDistinct t none = v
  approve_entry-IdsDistinct t (some e) = approve_join-IdsDistinct t e.pending_join

  approve_enrollment-IdsDistinct :
      (o : Option String) → IdsDistinct (apply_approve_enrollment o c).0
  unfolding apply_approve_enrollment
  approve_enrollment-IdsDistinct none = v
  approve_enrollment-IdsDistinct (some t) =
      approve_entry-IdsDistinct t (find_enrollment t c.pending_enrollments)

  -- Every mutation keeps the node ids of the peers distinct, and the ids of the enrollments; a
  -- replaced configuration must come with distinct node ids.
  pub apply_mutation-IdsDistinct :
      (j : Json) (kind : MutationKind) (raw : String)
      → ((incoming : ClusterConfig)
          → j.decode_config raw ≡ some incoming
          → Distinct (node_ids incoming.peers))
      → IdsDistinct (apply_mutation j kind raw c).0
  unfolding apply_mutation apply_add_check apply_remove_check apply_add_alert apply_remove_alert
      apply_replace_config apply_set_resolvers
  apply_mutation-IdsDistinct j add_peer raw h = add_peer-IdsDistinct (j.decode_peer raw)
  apply_mutation-IdsDistinct j remove_peer raw h = remove_peer-IdsDistinct (j.decode_target raw)
  apply_mutation-IdsDistinct j add_enrollment raw h =
      add_enrollment-IdsDistinct (j.decode_enrollment raw)
  apply_mutation-IdsDistinct j remove_enrollment raw h =
      remove_enrollment-IdsDistinct (j.decode_target raw)
  apply_mutation-IdsDistinct j record_enroll_pending raw h =
      record_enroll_pending-IdsDistinct (j.decode_record raw)
  apply_mutation-IdsDistinct j approve_enrollment raw h =
      approve_enrollment-IdsDistinct (j.decode_target raw)
  apply_mutation-IdsDistinct j replace_config raw h = elim (Option-cases (j.decode_config raw)) [
    | inl e ↦ rw e v
    | inr (i, e) ↦ rw e (record { peers = h i e; enrollments = v.enrollments })
  ]
  apply_mutation-IdsDistinct j add_check raw h = ground arith
  apply_mutation-IdsDistinct j _ raw h = ground arith
