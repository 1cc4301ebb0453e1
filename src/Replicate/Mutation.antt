-- ===== src/Replicate/Mutation.antt =====
-- The mutations of `applyLocally`, internal/replicate/replicator.go, on the shared configuration.
-- Each returns the configuration as it leaves it beside its error.
pub mod Ids
pub mod Single
use quptime.Prelude.{
  String, Bool, false, not, ◌||◌, Option, none, some, List, [], ◌∷◌, ◌==◌, if◌then◌else◌, keep, map,
}
use quptime.Config.Types.{PeerInfo, Check, Alert, PendingJoin, PendingEnrollment, ClusterConfig}
use quptime.Config.Cluster.{
  Error, decode_error, missing_field, not_found, nothing_to_approve, unknown_kind,
  enrollment_matches, find_enrollment,
}

-- `MutationKind` of internal/transport/messages.go; `other_kind` is any other string.
pub data MutationKind : Type 0 where
  add_check remove_check add_alert remove_alert add_peer remove_peer : MutationKind
  replace_config : MutationKind
  add_enrollment remove_enrollment record_enroll_pending approve_enrollment : MutationKind
  set_resolvers : MutationKind
  other_kind : String → MutationKind

-- The body of a record-pending mutation.
pub record RecordPending : Type 0 where
  pub id : String
  pub pending_join : Option PendingJoin

-- What the callers hand to `LocalMutate` as a payload.
pub data Payload : Type 0 where
  a_check : Check → Payload
  an_alert : Alert → Payload
  a_peer : PeerInfo → Payload
  a_config : ClusterConfig → Payload
  an_enrollment : PendingEnrollment → Payload
  a_record : RecordPending → Payload
  a_target : String → Payload
  a_list : List String → Payload
  a_raw : String → Payload

-- json.Marshal, json.Unmarshal and strings.TrimSpace. The raw message is a string.
pub record Json : Type 0 where
  pub marshal : Payload → Option String
  pub decode_check : String → Option Check
  pub decode_alert : String → Option Alert
  pub decode_peer : String → Option PeerInfo
  pub decode_config : String → Option ClusterConfig
  pub decode_enrollment : String → Option PendingEnrollment
  pub decode_record : String → Option RecordPending
  pub decode_target : String → Option String
  pub decode_list : String → Option (List String)
  pub trim_space : String → String

abbrev pub Edit : Type 0
Edit = ClusterConfig × Option Error

abbrev pub done : ClusterConfig → Edit
done c = (c, none)

abbrev pub fail : Error → ClusterConfig → Edit
fail e c = (c, some e)

module _ {A : Type 0} where
  -- The loops over a slice: replace the first element that matches, or append at the end.
  unfoldable pub upsert : (A → Bool) → A → List A → List A
  upsert p a [] = a ∷ []
  upsert p a (x ∷ xs) = if p x then a ∷ xs else x ∷ upsert p a xs

  -- leave out the first element that matches
  unfoldable pub delete_first : (A → Bool) → List A → List A
  delete_first p [] = []
  delete_first p (x ∷ xs) = if p x then xs else x ∷ delete_first p xs

  unfoldable pub any_match : (A → Bool) → List A → Bool
  any_match p [] = false
  any_match p (x ∷ xs) = p x || any_match p xs

  -- change the first element that matches
  unfoldable pub update_first : (A → Bool) → (A → A) → List A → List A
  update_first p f [] = []
  update_first p f (x ∷ xs) = if p x then f x ∷ xs else x ∷ update_first p f xs

abbrev pub same_check_key : Check → Check → Bool
same_check_key ch existing = existing.id == ch.id || existing.name == ch.name

abbrev pub check_matches : String → Check → Bool
check_matches target existing = existing.id == target || existing.name == target

abbrev pub same_alert_key : Alert → Alert → Bool
same_alert_key a existing = existing.id == a.id || existing.name == a.name

abbrev pub alert_matches : String → Alert → Bool
alert_matches target existing = existing.id == target || existing.name == target

abbrev pub has_node_id : String → PeerInfo → Bool
has_node_id id existing = existing.node_id == id

abbrev pub has_enrollment_id : String → PendingEnrollment → Bool
has_enrollment_id id existing = existing.id == id

-- MutationAddCheck
unfoldable pub apply_add_check : Option Check → ClusterConfig → Edit
apply_add_check none c = fail (decode_error "check") c
apply_add_check (some ch) c =
    if ch.id == "" || ch.name == ""
    then fail (missing_field "check needs id and name") c
    else done (record c { checks = upsert (same_check_key ch) ch c.checks })

-- MutationRemoveCheck
unfoldable pub apply_remove_check : Option String → ClusterConfig → Edit
apply_remove_check none c = fail (decode_error "target") c
apply_remove_check (some target) c =
    if any_match (check_matches target) c.checks
    then done (record c { checks = delete_first (check_matches target) c.checks })
    else fail (not_found "check" target) c

-- MutationAddAlert
unfoldable pub apply_add_alert : Option Alert → ClusterConfig → Edit
apply_add_alert none c = fail (decode_error "alert") c
apply_add_alert (some a) c =
    if a.id == "" || a.name == ""
    then fail (missing_field "alert needs id and name") c
    else done (record c { alerts = upsert (same_alert_key a) a c.alerts })

-- MutationRemoveAlert
unfoldable pub apply_remove_alert : Option String → ClusterConfig → Edit
apply_remove_alert none c = fail (decode_error "target") c
apply_remove_alert (some target) c =
    if any_match (alert_matches target) c.alerts
    then done (record c { alerts = delete_first (alert_matches target) c.alerts })
    else fail (not_found "alert" target) c

-- MutationAddPeer
unfoldable pub apply_add_peer : Option PeerInfo → ClusterConfig → Edit
apply_add_peer none c = fail (decode_error "peer") c
apply_add_peer (some p) c =
    if p.node_id == ""
    then fail (missing_field "peer needs node_id") c
    else done (record c { peers = upsert (has_node_id p.node_id) p c.peers })

-- MutationReplaceConfig
unfoldable pub apply_replace_config : Option ClusterConfig → ClusterConfig → Edit
apply_replace_config none c = fail (decode_error "replace_config") c
apply_replace_config (some incoming) c = done (record c {
  peers = incoming.peers;
  checks = incoming.checks;
  alerts = incoming.alerts;
  resolvers = incoming.resolvers;
})

-- MutationRemovePeer
unfoldable pub apply_remove_peer : Option String → ClusterConfig → Edit
apply_remove_peer none c = fail (decode_error "target") c
apply_remove_peer (some target) c =
    if any_match (has_node_id target) c.peers
    then done (record c { peers = delete_first (has_node_id target) c.peers })
    else fail (not_found "peer" target) c

-- MutationAddEnrollment
unfoldable pub apply_add_enrollment : Option PendingEnrollment → ClusterConfig → Edit
apply_add_enrollment none c = fail (decode_error "enrollment") c
apply_add_enrollment (some e) c =
    if e.id == "" || e.secret_hash == ""
    then fail (missing_field "enrollment needs id and secret_hash") c
    else done
        (record c { pending_enrollments = upsert (has_enrollment_id e.id) e c.pending_enrollments })

-- MutationRemoveEnrollment
unfoldable pub apply_remove_enrollment : Option String → ClusterConfig → Edit
apply_remove_enrollment none c = fail (decode_error "target") c
apply_remove_enrollment (some target) c =
    if any_match (enrollment_matches target) c.pending_enrollments
    then done (record c {
      pending_enrollments = delete_first (enrollment_matches target) c.pending_enrollments;
    })
    else fail (not_found "enrollment" target) c

record_join : String → Option PendingJoin → ClusterConfig → Edit
record_join id none c = fail (missing_field "record-pending needs id and pending_join") c
record_join id (some pj) c =
    if id == ""
    then fail (missing_field "record-pending needs id and pending_join") c
    else if any_match (has_enrollment_id id) c.pending_enrollments
    then done (record c {
      pending_enrollments =
          update_first (has_enrollment_id id) (λ e. record e { pending_join = some pj })
            c.pending_enrollments;
    })
    else fail (not_found "enrollment" id) c

-- MutationRecordEnrollPending
unfoldable pub apply_record_enroll_pending : Option RecordPending → ClusterConfig → Edit
unfolding record_join
apply_record_enroll_pending none c = fail (decode_error "record-pending") c
apply_record_enroll_pending (some body) c = record_join body.id body.pending_join c

-- MutationSetResolvers: trim, and drop the blanks
unfoldable pub apply_set_resolvers : (String → String) → Option (List String) → ClusterConfig → Edit
apply_set_resolvers trim none c = fail (decode_error "resolvers") c
apply_set_resolvers trim (some list) c =
    done (record c { resolvers = keep (λ s. not (s == "")) (map trim list) })

abbrev pub peer_of_join : PendingJoin → PeerInfo
peer_of_join pj = record {
  node_id = pj.node_id;
  advertise = pj.advertise;
  fingerprint = pj.fingerprint;
  cert_pem = pj.cert_pem;
}

approve_join : String → Option PendingJoin → ClusterConfig → Edit
approve_join target none c = fail (nothing_to_approve target) c
approve_join target (some pj) c = done (record c {
  peers = upsert (has_node_id pj.node_id) (peer_of_join pj) c.peers;
  pending_enrollments = delete_first (enrollment_matches target) c.pending_enrollments;
})

approve_entry : String → Option PendingEnrollment → ClusterConfig → Edit
unfolding approve_join
approve_entry target none c = fail (not_found "enrollment" target) c
approve_entry target (some e) c = approve_join target e.pending_join c

-- MutationApproveEnrollment
unfoldable pub apply_approve_enrollment : Option String → ClusterConfig → Edit
unfolding approve_entry find_enrollment
apply_approve_enrollment none c = fail (decode_error "target") c
apply_approve_enrollment (some target) c =
    approve_entry target (find_enrollment target c.pending_enrollments) c

-- the switch of `applyLocally`
unfoldable pub apply_mutation : Json → MutationKind → String → ClusterConfig → Edit
apply_mutation j add_check raw = apply_add_check (j.decode_check raw)
apply_mutation j remove_check raw = apply_remove_check (j.decode_target raw)
apply_mutation j add_alert raw = apply_add_alert (j.decode_alert raw)
apply_mutation j remove_alert raw = apply_remove_alert (j.decode_target raw)
apply_mutation j add_peer raw = apply_add_peer (j.decode_peer raw)
apply_mutation j remove_peer raw = apply_remove_peer (j.decode_target raw)
apply_mutation j replace_config raw = apply_replace_config (j.decode_config raw)
apply_mutation j add_enrollment raw = apply_add_enrollment (j.decode_enrollment raw)
apply_mutation j remove_enrollment raw = apply_remove_enrollment (j.decode_target raw)
apply_mutation j record_enroll_pending raw = apply_record_enroll_pending (j.decode_record raw)
apply_mutation j approve_enrollment raw = apply_approve_enrollment (j.decode_target raw)
apply_mutation j set_resolvers raw = apply_set_resolvers j.trim_space (j.decode_list raw)
apply_mutation j (other_kind k) raw = fail (unknown_kind k)
