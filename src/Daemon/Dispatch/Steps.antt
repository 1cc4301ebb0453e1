-- ===== src/Daemon/Dispatch/Steps.antt =====
-- What a request on the control socket may change: `dispatch` of internal/daemon/control.go.
pub mod NodeRemove
use quptime.Prelude.{
  ℕ, String, Bool, Option, none, some, ◌≡◌, refl, ◌⊎◌, inl, inr, ◌==◌, eq_iff, ap, ◌∙◌, if_known,
}
use quptime.Replicate.Mutation.{
  MutationKind, Payload, a_target, a_raw, remove_peer, approve_enrollment, remove_enrollment,
}
use quptime.Replicate.Replicator.{Result, ok, err}
use quptime.Transport.Trust.{Entries, TrustError, remove_entry}
use quptime.Daemon.Enroll.{NodeState, mutate_and_sync}
use quptime.Daemon.Enroll.Synced.{Follower, mutate_and_sync-unchanged}
use quptime.Daemon.Control.{Host, EnrollCreateBody, Created, created, not_created, enroll_create}
use quptime.Daemon.Control.Redeem.{enroll_create-unchanged}
use quptime.Daemon.Dispatch.{
  Bodies, CtrlRequest, CheckTestBody, MutateBody, Served, Value, version, removed, dispatch,
  mutated, serve_mutate, after_remove, node_removed, serve_node_remove, serve_trust_remove,
  alert_tested, serve_alert_test, check_tested, serve_check_test, token_created, serve_create,
  serve_target,
}

module _ (h : Host) (s : NodeState) where
  -- The request left everything as it was, or it took a node out of the trust store and left the rest.
  abbrev pub Evicts : CtrlRequest → Served → Type 0
  Evicts req r =
      ((req.method ≡ "node.remove") ⊎ (req.method ≡ "trust.remove"))
      × ((id : String) × (r.state
            ≡ record s { trust = (remove_entry h.around.trust_disk id s.trust).0 }))

  abbrev pub Confined : CtrlRequest → Served → Type 0
  Confined req r = (r.state ≡ s) ⊎ Evicts req r

  abbrev Still : Served → Type 0
  Still r = r.state ≡ s

  mutated_state : (p : NodeState × Result ℕ) → (mutated p).state ≡ p.0
  unfolding mutated
  mutated_state (t, ok v) = refl
  mutated_state (t, err e) = refl

  token_created_state : (p : NodeState × Created) → (token_created p).state ≡ p.0
  unfolding token_created
  token_created_state (t, created r) = refl
  token_created_state (t, not_created e) = refl

  after_remove_state :
      (t : NodeState) (v : Value) (r : Entries × Bool × Option TrustError)
      → (after_remove t v r).state ≡ record t { trust = r.0 }
  unfolding after_remove
  after_remove_state t v (trust, found, none) = refl
  after_remove_state t v (trust, found, some e) = refl

  node_removed_state :
      (req : CtrlRequest) (id : String) (p : NodeState × Result ℕ)
      → req.method ≡ "node.remove"
      → p.0 ≡ s
      → Confined req (node_removed h id p)
  unfolding node_removed
  node_removed_state req id (t, ok v) m e = inr (
    inl m,
    (
      id,
      after_remove_state t (version v) (remove_entry h.around.trust_disk id t.trust)
          ∙ ap
              (λ (x : NodeState). record x {
                trust = (remove_entry h.around.trust_disk id x.trust).0;
              })
              e,
    ),
  )
  node_removed_state req id (t, err x) m e = inl e

  module _ (f : Follower h.around.env) where
    still :
        (kind : MutationKind) (payload : Payload) → (mutate_and_sync h.around kind payload s).0 ≡ s
    still kind payload = mutate_and_sync-unchanged h.around kind payload s f

    serve_mutate-Still : (o : Option MutateBody) → Still (serve_mutate h s o)
    unfolding serve_mutate
    serve_mutate-Still none = refl
    serve_mutate-Still (some b) =
        mutated_state (mutate_and_sync h.around b.kind (a_raw b.payload) s)
        ∙ still b.kind (a_raw b.payload)

    serve_node_remove-Confined :
        (req : CtrlRequest) (o : Option String)
        → req.method ≡ "node.remove"
        → Confined req (serve_node_remove h s o)
    unfolding serve_node_remove
    serve_node_remove-Confined req none m = inl refl
    serve_node_remove-Confined req (some id) m =
        node_removed_state req id (mutate_and_sync h.around remove_peer (a_target id) s) m
          (still remove_peer (a_target id))

    serve_trust_remove-Confined :
        (req : CtrlRequest) (o : Option String)
        → req.method ≡ "trust.remove"
        → Confined req (serve_trust_remove h s o)
    unfolding serve_trust_remove
    serve_trust_remove-Confined req none m = inl refl
    serve_trust_remove-Confined req (some id) m =
        let r = remove_entry h.around.trust_disk id s.trust in
        inr (inr m, (id, after_remove_state s (removed r.1) r))

    serve_alert_test-Still : (o : Option String) → Still (serve_alert_test h s o)
    unfolding serve_alert_test alert_tested
    serve_alert_test-Still none = refl
    serve_alert_test-Still (some id) = refl

    serve_check_test-Still : (o : Option CheckTestBody) → Still (serve_check_test h s o)
    unfolding serve_check_test check_tested
    serve_check_test-Still none = refl
    serve_check_test-Still (some b) = refl

    serve_create-Still : (o : Option EnrollCreateBody) → Still (serve_create h s o)
    unfolding serve_create
    serve_create-Still none = refl
    serve_create-Still (some b) =
        token_created_state (enroll_create h b s) ∙ enroll_create-unchanged h b s f

    serve_target-Still : (kind : MutationKind) (o : Option String) → Still (serve_target h kind s o)
    unfolding serve_target
    serve_target-Still kind none = refl
    serve_target-Still kind (some id) =
        mutated_state (mutate_and_sync h.around kind (a_target id) s) ∙ still kind (a_target id)

    -- On a node that is not the master, or sees no quorum, a request on the control socket, whatever
    -- its method and body, leaves the configuration and the trust store as they are; only
    -- node.remove and trust.remove may take one node out of the trust store.
    pub dispatch-Confined : (b : Bodies) (req : CtrlRequest) → Confined req (dispatch b h req s)
    unfolding dispatch
    dispatch-Confined b req =
        let P = Confined req in
        if_known P (req.method == "status") (λ _. inl refl)
          (λ _.
            if_known P (req.method == "mutate")
              (λ _. inl (serve_mutate-Still (b.mutation req.body)))
              (λ _.
                if_known P (req.method == "node.remove")
                  (λ e.
                    serve_node_remove-Confined req (b.node_id req.body)
                      ((eq_iff req.method "node.remove").0 e))
                  (λ _.
                    if_known P (req.method == "trust.list") (λ _. inl refl)
                      (λ _.
                        if_known P (req.method == "trust.remove")
                          (λ e.
                            serve_trust_remove-Confined req (b.node_id req.body)
                              ((eq_iff req.method "trust.remove").0 e))
                          (λ _.
                            if_known P (req.method == "alert.test")
                              (λ _. inl (serve_alert_test-Still (b.alert_id req.body)))
                              (λ _.
                                if_known P (req.method == "check.test")
                                  (λ _. inl (serve_check_test-Still (b.check_test req.body)))
                                  (λ _.
                                    if_known P (req.method == "enroll.create")
                                      (λ _. inl (serve_create-Still (b.create req.body)))
                                      (λ _.
                                        if_known P (req.method == "enroll.list") (λ _. inl refl)
                                          (λ _.
                                            if_known P (req.method == "enroll.approve")
                                              (λ _. inl (
                                                serve_target-Still approve_enrollment
                                                  (b.target req.body)))
                                              (λ _.
                                                if_known P (req.method == "enroll.revoke")
                                                  (λ _. inl (
                                                    serve_target-Still remove_enrollment
                                                      (b.target req.body)))
                                                  (λ _. inl refl)))))))))))
