-- ===== src/Replicate/Mutation/Single.antt =====
-- Single mutations of internal/replicate/replicator.go: an approval, and a check that is added.
use quptime.Prelude.{
  String, true, ◌==◌, inl, inr, Bool-cases, none, some, List, ◌∷◌, ◌≡◌, ◌≢◌, refl, eq_iff, arith,
  In, In-map, Distinct, map,
}
use quptime.Config.Types.{Check, PendingEnrollment, PendingJoin, ClusterConfig}
use quptime.Config.Cluster.{find_enrollment, enrollment_matches}
use quptime.Replicate.Keys.{upsert-In}
use quptime.Replicate.Mutation.{
  done, upsert, delete_first, apply_add_check, apply_approve_enrollment, peer_of_join, has_node_id,
  approve_entry, approve_join, same_check_key, RecordPending, apply_record_enroll_pending,
  record_join, update_first, has_enrollment_id, any_match,
}

-- If the first enrollment with that id or (non-blank) name has a pending join, its approval
-- succeeds, the joiner is a peer with the certificate that it submitted, that enrollment is left
-- out, and of the configuration only the peers and the enrollments change.
pub approve_enrollment-peer :
    (c : ClusterConfig) (target : String) (e : PendingEnrollment) (pj : PendingJoin)
    → find_enrollment target c.pending_enrollments ≡ some e
    → e.pending_join ≡ some pj
    → let c' = (apply_approve_enrollment (some target) c).0 in
      ((apply_approve_enrollment (some target) c).1 ≡ none)
      × In (peer_of_join pj) c'.peers
      × (c' ≡ record c {
        peers = c'.peers;
        pending_enrollments = delete_first (enrollment_matches target) c.pending_enrollments;
      })
unfolding apply_approve_enrollment
approve_enrollment-peer c target e pj found joined =
    let run : approve_entry target (find_enrollment target c.pending_enrollments) c
        ≡ approve_join target (some pj) c =
      ground (arith) in
    rw run (refl, upsert-In (has_node_id pj.node_id) (peer_of_join pj) c.peers, refl)

-- a join that is recorded stands under the enrollment with the id
pub recorded_join :
    (id : String) (pj : PendingJoin) (c : ClusterConfig)
    → let body : RecordPending = record { id = id; pending_join = some pj } in
      (apply_record_enroll_pending (some body) c).1 ≡ none
      → (apply_record_enroll_pending (some body) c).0 ≡ record c {
        pending_enrollments =
            update_first
              (has_enrollment_id id)
              (λ e. record e { pending_join = some pj })
              c.pending_enrollments;
      }
unfolding apply_record_enroll_pending record_join
recorded_join id pj c h = elim (Bool-cases (id == "")) [
  | inl t ↦ absurd (cc (simp t at h))
  | inr t ↦ elim (Bool-cases (any_match (has_enrollment_id id) c.pending_enrollments)) [
    | inl u ↦ simp (t, u) refl
    | inr u ↦ absurd (cc (simp (t, u) at h))
  ]
]

-- Adding a check whose name is that of the first check and whose id is that of a later one leaves
-- two checks with one id.
pub add_check_duplicates :
    (c : ClusterConfig) (ch x y : Check) (rest : List Check)
    → c.checks ≡ x ∷ rest
    → ch.id ≢ ""
    → ch.name ≢ ""
    → x.name ≡ ch.name
    → In y rest
    → y.id ≡ ch.id
    → ((apply_add_check (some ch) c).1 ≡ none)
      × (¬ Distinct (map (λ (z : Check). z.id) (apply_add_check (some ch) c).0.checks))
unfolding apply_add_check upsert
add_check_duplicates c ch x y rest e id name same later clash =
    let hit : same_check_key ch x ≡ true =
      ground (arith, eq_iff x.id ch.id, eq_iff x.name ch.name) in
    let run : upsert (same_check_key ch) ch c.checks ≡ ch ∷ rest = rw (e, hit) in
    let ran : apply_add_check (some ch) c ≡ done (record c { checks = ch ∷ rest }) =
      ground (arith, eq_iff ch.id "", eq_iff ch.name "") in
    let second : In ch.id (map (λ (z : Check). z.id) rest) =
      rw clash at (In-map (λ (z : Check). z.id) y rest later) in
    rw ran (refl, λ d. d.0 second)
