-- ===== src/Daemon/Enroll/Joined.antt =====
-- What an authorised request achieves: `handleEnroll` of internal/daemon/handlers.go.
use quptime.Prelude.{
  ℕ, String, true, false, not, ◌&&◌, ◌||◌, some, List, [], ◌∷◌, ◌≡◌, ◌≢◌, refl, inl, inr, ◌==◌,
  eq_iff, arith, ap, ◌∙◌, sym, All, In, if◌then◌else◌, Bool-cases, lookup-insert_self,
}
use quptime.Config.Types.{PendingJoin, PendingEnrollment, ClusterConfig}
use quptime.Config.Cluster.{find_enrollment_by_id, find_enrollment, snapshot}
use quptime.Replicate.Mutation.{
  record_enroll_pending, approve_enrollment, a_record, a_target, RecordPending, update_first,
  has_enrollment_id, peer_of_join, apply_mutation, apply_record_enroll_pending,
  apply_approve_enrollment,
}
use quptime.Replicate.Mutation.Single.{recorded_join, approve_enrollment-peer}
use quptime.Replicate.Replicator.{Result, ok, err}
use quptime.Transport.Trust.{Entry, add}
use quptime.Daemon.Enroll.{
  Surroundings, NodeState, EnrollRequest, accepted, pending, join_of, mutate_and_sync,
  enroll_peers_for_joiner, handle_enroll, with_entry, with_fingerprint, recorded, approved,
}
use quptime.Daemon.Enroll.Authorised.{Authorised, Complete}
use quptime.Daemon.Enroll.Sync.{Pinned}
use quptime.Daemon.Enroll.Synced.{Commits, mutate_and_sync-Landed}

find_by_id-has :
    (id : String) (list : List PendingEnrollment) (e : PendingEnrollment)
    → find_enrollment_by_id id list ≡ some e
    → e.id ≡ id
unfolding find_enrollment_by_id
find_by_id-has id [] e h = cc
find_by_id-has id (x ∷ xs) e h = ground (arith, eq_iff x.id id, find_by_id-has id xs e)

-- where no name is the id, the entry found by its id is found by id or name, with its new join
find-update_first :
    (id : String) (pj : PendingJoin) (list : List PendingEnrollment) (e : PendingEnrollment)
    → All (λ (x : PendingEnrollment). x.name ≢ id) list
    → find_enrollment_by_id id list ≡ some e
    → find_enrollment id
        (update_first (has_enrollment_id id) (λ x. record x { pending_join = some pj }) list)
      ≡ some (record e { pending_join = some pj })
unfolding find_enrollment_by_id find_enrollment update_first
find-update_first id pj [] e n h = cc
find-update_first id pj (x ∷ xs) e (n, ns) h = elim (Bool-cases (x.id == id)) [
  | inl t ↦ let same : x ≡ e = cc (simp t at h) in rw (sym same) (simp t refl)
  | inr t ↦
      let off : (not (x.name == "") && x.name == id) ≡ false =
        ground (arith, eq_iff x.name id, n) in
      simp (t, off) (find-update_first id pj xs e ns (simp t at h))
]

module _ (d : Surroundings) (req : EnrollRequest) (s : NodeState) (a : Authorised d req s) where
  abbrev claim : RecordPending
  claim = record { id = a.entry.id; pending_join = some (join_of d req) }

  abbrev claimed : NodeState × Result ℕ
  claimed = mutate_and_sync d record_enroll_pending (a_record claim) s

  -- the request gets as far as the first mutation
  reaches : Complete req → handle_enroll d req s ≡ recorded d a.entry (join_of d req) claimed
  unfolding handle_enroll with_fingerprint with_entry
  reaches f =
      let filled : (req.token_id == "" || req.token_secret == "") ≡ false =
        ground (arith, eq_iff req.token_id "", eq_iff req.token_secret "", f.token, f.secret) in
      let named : (req.node_id == "" || req.cert_pem == "" || req.fingerprint == "") ≡ false =
        ground (
          arith,
          eq_iff req.node_id "",
          eq_iff req.cert_pem "",
          eq_iff req.fingerprint "",
          a.named,
          f.cert,
          f.fingerprint,
        ) in
      let same : (req.fingerprint == req.fingerprint) ≡ true =
        ground (arith, eq_iff req.fingerprint req.fingerprint) in
      simp (filled, named, a.own_cert, same, a.known, a.fresh, a.secret) refl

  recorded-ok :
      (p : NodeState × Result ℕ) (v : ℕ)
      → p.1 ≡ ok v
      → recorded d a.entry (join_of d req) p ≡ (
          if not a.entry.auto_approve
          then (p.0, pending)
          else approved d
              (join_of d req)
              (mutate_and_sync d approve_enrollment (a_target a.entry.id) p.0))
  unfolding recorded
  recorded-ok (t, ok w) v q = refl
  recorded-ok (t, err x) v q = absurd (ground arith)

  approved-ok :
      (p : NodeState × Result ℕ) (v : ℕ)
      → p.1 ≡ ok v
      → Complete req
      → let (after, answer) = approved d (join_of d req) p in
        (answer ≡ accepted (enroll_peers_for_joiner req.node_id after.config.peers))
        × (after.config ≡ p.0.config)
        × Pinned req.node_id req.fingerprint after.trust
  unfolding approved add
  approved-ok (t, ok w) v q f =
      let complete : (req.node_id == "" || req.fingerprint == "") ≡ false =
        ground (arith, eq_iff req.node_id "", eq_iff req.fingerprint "", a.named, f.fingerprint) in
      let entry : Entry = record {
        node_id = req.node_id;
        address = req.advertise;
        fingerprint = req.fingerprint;
        public_key_pem = "";
        cert_pem = req.cert_pem;
        added_at = d.env.now;
      } in
      simp complete (refl, refl, (entry, lookup-insert_self req.node_id entry t.trust, refl))
  approved-ok (t, err x) v q f = absurd (ground arith)

  -- the configuration after the first mutation
  record Claimed : Type 0 where
    pub answered : (v : ℕ) × (claimed.1 ≡ ok v)
    pub waiting :
        find_enrollment a.entry.id claimed.0.config.pending_enrollments
        ≡ some (record a.entry { pending_join = some (join_of d req) })
    pub peers : claimed.0.config.peers ≡ s.config.peers

  claims :
      (k : Commits d.env record_enroll_pending (a_record claim) s.config)
      → d.env.json.decode_record k.raw ≡ some claim
      → All (λ (x : PendingEnrollment). x.name ≢ a.entry.id) s.config.pending_enrollments
      → Claimed
  unfolding apply_mutation snapshot
  claims k read names =
      let landed = mutate_and_sync-Landed d record_enroll_pending (a_record claim) s k in
      let wrote = recorded_join a.entry.id (join_of d req) s.config (rw read at k.accepted) in
      let mutated : (apply_record_enroll_pending (d.env.json.decode_record k.raw) s.config).0 ≡ _ =
        ap (λ o. (apply_record_enroll_pending o s.config).0) read ∙ wrote in
      let list =
        ap (λ (c : ClusterConfig). c.pending_enrollments) landed.content
        ∙ ap (λ (c : ClusterConfig). c.pending_enrollments) mutated in
      let peers =
        ap (λ (c : ClusterConfig). c.peers) landed.content
        ∙ ap (λ (c : ClusterConfig). c.peers) mutated in
      let same = find_by_id-has req.token_id s.config.pending_enrollments a.entry a.known in
      record {
        answered = (_, landed.answer);
        waiting = rw list (
            find-update_first a.entry.id (join_of d req) s.config.pending_enrollments a.entry names
              (rw (sym same) at a.known));
        peers = peers;
      }

  -- An authorised and complete request with a token that needs approval, where the master can
  -- record the join and no enrollment has the token's id as its name, is answered with pending: the
  -- token's enrollment waits with the joiner's data, and the peers stay as they were.
  pub handle_enroll-Pending :
      (k : Commits d.env record_enroll_pending (a_record claim) s.config)
      → d.env.json.decode_record k.raw ≡ some claim
      → All (λ (x : PendingEnrollment). x.name ≢ a.entry.id) s.config.pending_enrollments
      → Complete req
      → a.entry.auto_approve ≡ false
      → let (after, answer) = handle_enroll d req s in
        (answer ≡ pending)
        × (find_enrollment a.entry.id after.config.pending_enrollments
            ≡ some (record a.entry { pending_join = some (join_of d req) }))
        × (after.config.peers ≡ s.config.peers)
  handle_enroll-Pending k read names f manual =
      let claimed_now = claims k read names in
      let (v, fine) = claimed_now.answered in
      let ran : handle_enroll d req s ≡ (claimed.0, pending) =
        reaches f ∙ recorded-ok claimed v fine ∙ (simp manual refl) in
      rw ran (refl, claimed_now.waiting, claimed_now.peers)

  -- An authorised and complete request with an auto-approved token, where the master can record the
  -- join and then approve it, and no enrollment has the token's id as its name, is accepted: the
  -- joiner is a peer with the certificate that it sent, it is trusted under its fingerprint at once,
  -- and the answer lists the peers that it is to trust.
  pub handle_enroll-Joined :
      (k : Commits d.env record_enroll_pending (a_record claim) s.config)
      → d.env.json.decode_record k.raw ≡ some claim
      → (l : Commits d.env approve_enrollment (a_target a.entry.id) claimed.0.config)
      → d.env.json.decode_target l.raw ≡ some a.entry.id
      → All (λ (x : PendingEnrollment). x.name ≢ a.entry.id) s.config.pending_enrollments
      → Complete req
      → a.entry.auto_approve ≡ true
      → let (after, answer) = handle_enroll d req s in
        (answer ≡ accepted (enroll_peers_for_joiner req.node_id after.config.peers))
        × In (peer_of_join (join_of d req)) after.config.peers
        × Pinned req.node_id req.fingerprint after.trust
  unfolding apply_mutation snapshot
  handle_enroll-Joined k read l read_target names f auto =
      let claimed_now = claims k read names in
      let (v, fine) = claimed_now.answered in
      let second = mutate_and_sync d approve_enrollment (a_target a.entry.id) claimed.0 in
      let ran : handle_enroll d req s ≡ approved d (join_of d req) second =
        reaches f ∙ recorded-ok claimed v fine ∙ (simp auto refl) in
      let landed = mutate_and_sync-Landed d approve_enrollment (a_target a.entry.id) claimed.0 l in
      let (answer, kept, pinned) = approved-ok second _ landed.answer f in
      let (_, member, _) =
        approve_enrollment-peer claimed.0.config a.entry.id _ (join_of d req) claimed_now.waiting
          refl in
      let peers =
        ap (λ (c : ClusterConfig). c.peers) landed.content
        ∙ ap (λ o. (apply_approve_enrollment o claimed.0.config).0.peers) read_target in
      rw ran (answer, rw (ap (λ (c : ClusterConfig). c.peers) kept ∙ peers) member, pinned)
