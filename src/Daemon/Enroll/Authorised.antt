-- ===== src/Daemon/Enroll/Authorised.antt =====
-- Who may enroll: `handleEnroll` of internal/daemon/handlers.go.
use quptime.Prelude.{
  String, true, false, ◌||◌, Option, none, some, ◌≡◌, ◌≢◌, refl, ◌⊎◌, inl, inr, arith, ◌==◌, eq_iff,
  Bool-cases,
}
use quptime.Config.Types.{PendingEnrollment}
use quptime.Config.Cluster.{find_enrollment_by_id}
use quptime.Daemon.Enroll.{
  Surroundings, NodeState, EnrollRequest, EnrollResponse, refused, expired, verify_enroll_secret,
  handle_enroll, with_entry, with_fingerprint,
}

-- The fields that a request must fill besides the node id.
pub record Complete (req : EnrollRequest) : Type 0 where
  pub token : req.token_id ≢ ""
  pub secret : req.token_secret ≢ ""
  pub cert : req.cert_pem ≢ ""
  pub fingerprint : req.fingerprint ≢ ""

-- The request names its node, its fingerprint is that of its certificate, and its token is an
-- enrollment of the configuration that has not expired and whose secret it knows.
pub record Authorised (d : Surroundings) (req : EnrollRequest) (s : NodeState) : Type 0 where
  pub entry : PendingEnrollment
  pub known : find_enrollment_by_id req.token_id s.config.pending_enrollments ≡ some entry
  pub fresh : expired d.env.now entry ≡ false
  pub secret : verify_enroll_secret d req.token_secret entry.secret_hash ≡ true
  pub own_cert : d.fingerprint_from_cert req.cert_pem ≡ some req.fingerprint
  pub named : req.node_id ≢ ""

-- the request was turned down without a change
abbrev Untouched : NodeState → NodeState × EnrollResponse → Type 0
Untouched s r = (why : String) × (r ≡ (s, refused why))

with_entry-Authorised :
    (d : Surroundings) (req : EnrollRequest) (s : NodeState) (o : Option PendingEnrollment)
    → find_enrollment_by_id req.token_id s.config.pending_enrollments ≡ o
    → d.fingerprint_from_cert req.cert_pem ≡ some req.fingerprint
    → req.node_id ≢ ""
    → Untouched s (with_entry d req s o) ⊎ Authorised d req s
unfolding with_entry
with_entry-Authorised d req s none k f n = inl ("unknown enrollment token", refl)
with_entry-Authorised d req s (some entry) k f n = elim (Bool-cases (expired d.env.now entry)) [
  | inl t ↦ inl ("enrollment token expired", simp t refl)
  | inr t ↦ elim (Bool-cases (verify_enroll_secret d req.token_secret entry.secret_hash)) [
    | inl v ↦
        inr (record { entry = entry; known = k; fresh = t; secret = v; own_cert = f; named = n })
    | inr v ↦ inl ("invalid enrollment token", simp (t, v) refl)
  ]
]

with_fingerprint-Authorised :
    (d : Surroundings) (req : EnrollRequest) (s : NodeState) (o : Option String)
    → d.fingerprint_from_cert req.cert_pem ≡ o
    → req.node_id ≢ ""
    → Untouched s (with_fingerprint d req s o) ⊎ Authorised d req s
unfolding with_fingerprint
with_fingerprint-Authorised d req s none f n = inl ("parse cert", refl)
with_fingerprint-Authorised d req s (some derived) f n =
    elim (Bool-cases (derived == req.fingerprint)) [
      | inl t ↦
          let own : d.fingerprint_from_cert req.cert_pem ≡ some req.fingerprint =
            rw ((eq_iff derived req.fingerprint).0 t) at f in
          simp t (
            with_entry-Authorised d req s
              (find_enrollment_by_id req.token_id s.config.pending_enrollments) refl own n)
      | inr t ↦ inl ("claimed fingerprint does not match supplied cert", simp t refl)
    ]

complete :
    (req : EnrollRequest)
    → (req.token_id == "" || req.token_secret == "") ≡ false
    → (req.node_id == "" || req.cert_pem == "" || req.fingerprint == "") ≡ false
    → Complete req
complete req t u = record {
  token = ground (arith, eq_iff req.token_id "");
  secret = ground (arith, eq_iff req.token_secret "");
  cert = ground (arith, eq_iff req.cert_pem "");
  fingerprint = ground (arith, eq_iff req.fingerprint "");
}

-- An enrollment request either is refused and changes neither the configuration nor the trust
-- store, or it is complete, its fingerprint is that of its certificate, and its token is an
-- enrollment that has not expired and whose secret it knows.
pub handle_enroll-Authorised :
    (d : Surroundings) (req : EnrollRequest) (s : NodeState)
    → ((why : String) × (handle_enroll d req s ≡ (s, refused why)))
      ⊎ (Complete req × Authorised d req s)
unfolding handle_enroll
handle_enroll-Authorised d req s =
    elim (Bool-cases (req.token_id == "" || req.token_secret == "")) [
      | inl t ↦ inl ("token_id and token_secret are required", simp t refl)
      | inr t ↦
          elim (Bool-cases (req.node_id == "" || req.cert_pem == "" || req.fingerprint == "")) [
            | inl u ↦ inl ("node_id, cert_pem and fingerprint are required", simp (t, u) refl)
            | inr u ↦
                let named : req.node_id ≢ "" = ground (arith, eq_iff req.node_id "", u) in
                elim (with_fingerprint-Authorised d req s (d.fingerprint_from_cert req.cert_pem)
                  refl named) [
                    | inl (why, e) ↦ inl (why, simp (t, u) e)
                    | inr a ↦ inr (complete req t u, a)
                  ]
          ]
    ]
