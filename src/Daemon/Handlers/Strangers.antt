-- ===== src/Daemon/Handlers/Strangers.antt =====
-- What a caller without trust and without a token can do to a node: the server of
-- internal/transport/rpc.go with the handlers of internal/daemon/handlers.go.
use quptime.Prelude.{
  ℕ, String, Bool, true, false, Option, none, some, List, ◌≡◌, refl, inl, inr, ◌==◌, eq_iff,
  Bool-cases,
}
use quptime.Transport.Server.{Request, Response, Answer, bootstrap, peer_trusted, handle_conn}
use quptime.Transport.Server.Gate.{Outside, Confined, Asking, handle_conn-Confined}
use quptime.Daemon.Enroll.{EnrollRequest}
use quptime.Daemon.Enroll.Authorised.{Authorised, handle_enroll-Authorised}
use quptime.Daemon.Handlers.{
  Wiring, World, node_state, around_at, answer, enroll_answer, register_handlers, server, here,
  join_refused, removed_join,
}

module _ (b : Wiring) (w : World) where
  -- the node is in the state it was in
  pub record Same (v : World) : Type 0 where
    pub parts : v.parts ≡ w.parts
    pub trust : v.trust ≡ w.trust

  -- no enrollment request in these parameters is authorised, whenever it comes
  abbrev pub Unauthorised : String → Type 0
  Unauthorised params =
      (req : EnrollRequest) (now : ℕ)
      → b.decode_enroll params ≡ some req
      → ¬ Authorised (around_at b w now) req (node_state w)

  Authorised-Same :
      (v : World) (req : EnrollRequest) (now : ℕ)
      → Same v
      → Authorised (around_at b v now) req (node_state v)
      → Authorised (around_at b w now) req (node_state w)
  unfolding around_at
  Authorised-Same v req now s a = rw (s.parts, s.trust) at a

  enroll_answer-Same :
      (v : World) (o : Option EnrollRequest)
      → ((req : EnrollRequest) (now : ℕ)
          → o ≡ some req
          → ¬ Authorised (around_at b w now) req (node_state w))
      → Same v
      → Same (enroll_answer b v o).0
  unfolding enroll_answer answer
  enroll_answer-Same v none n s = record { parts = s.parts; trust = s.trust }
  enroll_answer-Same v (some req) n s =
      elim (handle_enroll-Authorised (here b v) req (node_state v)) [
        | inl (why, e) ↦ rw e (record { parts = s.parts; trust = s.trust })
        | inr (_, a) ↦ absurd (n req (b.clock v.reads) refl (Authorised-Same v req _ s a))
      ]

  -- the handlers of Join and Enroll, in the order of the table
  bootstrap-Same :
      (method params id : String) (fn : World → String → String → World × Answer) (v : World)
      → bootstrap method ≡ true
      → register_handlers b method ≡ some fn
      → Unauthorised params
      → Same v
      → Same (fn v id params).0
  unfolding register_handlers bootstrap answer
  bootstrap-Same method params id fn v t h n s = elim (Bool-cases (method == "Join")) [
    | inl e ↦
        let join : method ≡ "Join" = (eq_iff method "Join").0 e in
        let same : register_handlers b "Join" ≡ some fn = rw join at h in
        let found : fn ≡ (λ v id raw. answer b v (join_refused removed_join)) = cc in
        rw found (record { parts = s.parts; trust = s.trust })
    | inr e ↦
        let enroll : method ≡ "Enroll" = (eq_iff method "Enroll").0 (simp e at t) in
        let same : register_handlers b "Enroll" ≡ some fn = rw enroll at h in
        let found : fn ≡ (λ v id raw. enroll_answer b v (b.decode_enroll raw)) = cc in
        rw found (enroll_answer-Same v (b.decode_enroll params) n s)
  ]

  server-Outside :
      (decode : String → Option Request) (writable : Response → Bool) (id fp : String)
      → peer_trusted (server b decode writable) id fp w ≡ false
      → Outside (server b decode writable) id fp Same Unauthorised
  unfolding server peer_trusted
  server-Outside decode writable id fp t = record {
    untrusted = λ v s. rw s.trust t;
    kept = λ method params fn v boot found n s. bootstrap-Same method params id fn v boot found n s;
  }

  -- A connection of a caller whose fingerprint is not trusted, in which no enrollment request is
  -- authorised whenever it comes, leaves the manager, the configuration, the aggregator and the
  -- trust store of the node as they are, and calls no handler but those of Join and Enroll.
  pub handle_conn-Same :
      (decode : String → Option Request) (writable : Response → Bool) (id fp : String)
      (frames : List String)
      → peer_trusted (server b decode writable) id fp w ≡ false
      → Asking (server b decode writable) id fp Same Unauthorised frames
      → Confined
          (server b decode writable)
          id
          fp
          Same
          Unauthorised
          (handle_conn (server b decode writable) id fp w frames)
  handle_conn-Same decode writable id fp frames t each =
      handle_conn-Confined (server b decode writable) id fp Same Unauthorised
        (server-Outside decode writable id fp t) w frames each
        (record { parts = refl; trust = refl })
