-- ===== src/Cli/Join/Pinned.antt =====
-- To whom `runEnrollJoin` of internal/cli/enroll.go shows the token's secret.
use quptime.Prelude.{
  ◌≤◌, String, true, false, not, ◌&&◌, Option, none, some, List, [], ◌∷◌, ◌≡◌, ◌≢◌, refl, ◌⊎◌, inl,
  inr, ◌==◌, eq_iff, arith, ap, ◌∙◌, sym, In, nat_eq, ltb, Bool-cases, if_both,
}
use quptime.Prelude.Int.{ℤ}
use quptime.Config.Types.{PeerInfo, ClusterConfig}
use quptime.Config.Node.{NodeConfig}
use quptime.Transport.Trust.{Entries, TrustError}
use quptime.Daemon.Tokens.{
  EnrollEndpoint, EnrollmentTokenPayload, Decoded, token, bad_token, decode_enrollment_token,
}
use quptime.Cli.Bootstrap.{Boot, booted, boot_failed, bootstrap_node}
use quptime.Cli.Join.{
  Site, Call, Joining, Answer, PeerCertSample, Bound, check_endpoint, verified_endpoint,
  bootstrap_peer, answered, submit, with_endpoint, with_identity, with_boot, with_token, from_flags,
  run_enroll_join, call_of,
}

-- The endpoint is the token's, and the node there presents the certificate that the token names.
pub record Verified (x : Site) (p : EnrollmentTokenPayload) (made : Call) : Type 0 where
  pub endpoint : EnrollEndpoint
  pub sample : PeerCertSample
  pub listed : In endpoint p.endpoints
  pub presented : x.fetch endpoint.advertise ≡ some sample
  pub matches : sample.fingerprint ≡ endpoint.fingerprint
  pub address : made.addr ≡ endpoint.advertise
  pub node : made.node_id ≡ sample.common_name
  pub named : made.node_id ≢ ""

-- What holds when the command has made a call.
pub record PinnedCall (x : Site) (tok : String) (made : Call) : Type 0 where
  pub payload : EnrollmentTokenPayload
  pub decoded : decode_enrollment_token x.codec tok ≡ token payload
  pub fresh : (payload.expires_at ≡ 0) ⊎ (x.machine.now ≤ payload.expires_at)
  pub blank : x.node_exists ≡ false
  pub confirmed : x.confirmed ≡ true
  pub verified : Verified x payload made
  pub id : made.request.token_id ≡ payload.id
  pub secret : made.request.token_secret ≡ payload.secret
  pub own : x.machine.fingerprint_from_cert x.own_cert ≡ some made.request.fingerprint

-- the endpoint stands in the list, and the certificate there has its fingerprint
abbrev Matched :
    (String → Option PeerCertSample)
    → List EnrollEndpoint
    → EnrollEndpoint
    → PeerCertSample
    → Type 0
Matched fetch eps ep sample =
    In ep eps × (fetch ep.advertise ≡ some sample) × (sample.fingerprint ≡ ep.fingerprint)

check_endpoint-Matched :
    (fetch : String → Option PeerCertSample) (e : EnrollEndpoint) (rest : List EnrollEndpoint)
    (later : Bound) (o : Option PeerCertSample) (ep : EnrollEndpoint) (sample : PeerCertSample)
    → fetch e.advertise ≡ o
    → check_endpoint e later o ≡ some (ep, sample)
    → (later ≡ some (ep, sample)) ⊎ Matched fetch (e ∷ rest) ep sample
unfolding check_endpoint
check_endpoint-Matched fetch e rest later none ep sample q h = inl h
check_endpoint-Matched fetch e rest later (some found) ep sample q h =
    elim (Bool-cases (found.fingerprint == e.fingerprint)) [
      | inl t ↦
          let here : some (e, found) ≡ some (ep, sample) = simp t at h in
          let same : e ≡ ep = cc in
          let cert : found ≡ sample = cc in
          let fp = (eq_iff found.fingerprint e.fingerprint).0 t in
          inr (inl (sym same), rw (same, cert) at q, rw (same, cert) at fp)
      | inr t ↦ inl (simp t at h)
    ]

verified_endpoint-Matched :
    (fetch : String → Option PeerCertSample) (eps : List EnrollEndpoint) (ep : EnrollEndpoint)
    (sample : PeerCertSample)
    → verified_endpoint fetch eps ≡ some (ep, sample)
    → Matched fetch eps ep sample
unfolding verified_endpoint
verified_endpoint-Matched fetch [] ep sample h = absurd (ground arith)
verified_endpoint-Matched fetch (e ∷ rest) ep sample h =
    elim (check_endpoint-Matched fetch e rest (verified_endpoint fetch rest) (fetch e.advertise) ep
      sample refl h) [
        | inl k ↦ let (m, f, s) = verified_endpoint-Matched fetch rest ep sample k in (inr m, f, s)
        | inr m ↦ m
      ]

answered-called :
    (x : Site) (n : NodeConfig) (c : ClusterConfig) (boot : PeerInfo) (made : Call)
    (trust : Entries) (o : Option Answer)
    → (answered x n c boot made trust o).called ≡ some made
unfolding answered
answered-called x n c boot made trust none = refl
answered-called x n c boot made trust (some a) =
    let P = λ (j : Joining). j.called ≡ some made in
    if_both P (not (a.error == "")) refl
      (if_both P a.pending refl (if_both P (not a.accepted) refl refl))

some-same : {A : Type 0} {a b : A} → some a ≡ some b → a ≡ b
some-same h = cc

module _ (x : Site) (p : EnrollmentTokenPayload) (made : Call) where
  -- What the stages after the token add to a call.
  record Submitted : Type 0 where
    pub confirmed : x.confirmed ≡ true
    pub verified : Verified x p made
    pub id : made.request.token_id ≡ p.id
    pub secret : made.request.token_secret ≡ p.secret
    pub own : x.machine.fingerprint_from_cert x.own_cert ≡ some made.request.fingerprint

  submit-called :
      (n : NodeConfig) (c : ClusterConfig) (fp : String) (boot : PeerInfo)
      (r : Entries × Option TrustError)
      → (submit x p n c fp boot r).called ≡ some made
      → (made.node_id ≡ boot.node_id)
        × (made.addr ≡ boot.advertise)
        × (made.request.token_id ≡ p.id)
        × (made.request.token_secret ≡ p.secret)
        × (made.request.fingerprint ≡ fp)
  unfolding submit call_of
  submit-called n c fp boot (trust, some e) h = absurd (ground arith)
  submit-called n c fp boot (trust, none) h =
      let mine = call_of x p n fp boot in
      let q : mine ≡ made = some-same (
        sym (answered-called x n c boot mine trust (x.call mine.node_id mine.addr mine.request))
        ∙ h) in
      rw (sym q) (refl, refl, refl, refl, refl)

  with_endpoint-Submitted :
      (n : NodeConfig) (c : ClusterConfig) (fp : String) (o : Bound)
      → verified_endpoint x.fetch p.endpoints ≡ o
      → x.machine.fingerprint_from_cert x.own_cert ≡ some fp
      → (with_endpoint x p n c fp o).called ≡ some made
      → Submitted
  unfolding with_endpoint
  with_endpoint-Submitted n c fp none v f h = absurd (ground arith)
  with_endpoint-Submitted n c fp (some (ep, sample)) v f h =
      elim (Bool-cases (sample.common_name == "")) [
        | inl t ↦ absurd (cc (simp t at h))
        | inr t ↦ elim (Bool-cases x.confirmed) [
          | inl k ↦
              let (id, addr, token_id, secret, own) =
                submit-called n c fp (bootstrap_peer ep sample) _ (simp (t, k) at h) in
              let (listed, presented, matches) =
                verified_endpoint-Matched x.fetch p.endpoints ep sample v in
              let named : sample.common_name ≢ "" =
                ground (arith, eq_iff sample.common_name "", t) in
              record {
                confirmed = k;
                verified = record {
                  endpoint = ep;
                  sample = sample;
                  listed = listed;
                  presented = presented;
                  matches = matches;
                  address = addr;
                  node = id;
                  named = λ e. named (sym id ∙ e);
                };
                id = token_id;
                secret = secret;
                own = f ∙ ap some (sym own);
              }
          | inr k ↦ absurd (cc (simp (t, k) at h))
        ]
      ]

  with_identity-Submitted :
      (n : NodeConfig) (c : ClusterConfig) (o : Option String)
      → x.machine.fingerprint_from_cert x.own_cert ≡ o
      → (with_identity x p n c o).called ≡ some made
      → Submitted
  unfolding with_identity
  with_identity-Submitted n c none f h = absurd (ground arith)
  with_identity-Submitted n c (some fp) f h = elim (Bool-cases x.trust_loads) [
    | inr t ↦ absurd (cc (simp t at h))
    | inl t ↦
        with_endpoint-Submitted n c fp (verified_endpoint x.fetch p.endpoints) refl f (simp t at h)
  ]

  with_boot-Submitted : (o : Boot) → (with_boot x p o).called ≡ some made → Submitted
  unfolding with_boot
  with_boot-Submitted (boot_failed e) h = absurd (ground arith)
  with_boot-Submitted (booted n c) h = elim (Bool-cases x.key_loads) [
    | inr k ↦ absurd (cc (simp k at h))
    | inl k ↦ elim (Bool-cases x.cert_loads) [
      | inr l ↦ absurd (cc (simp (k, l) at h))
      | inl l ↦
          with_identity-Submitted n c (x.machine.fingerprint_from_cert x.own_cert) refl
            (simp (k, l) at h)
    ]
  ]

with_token-Submitted :
    (x : Site) (made : Call) (n : NodeConfig) (o : Decoded)
    → (with_token x n o).called ≡ some made
    → (p : EnrollmentTokenPayload) × (o ≡ token p)
      × ((p.expires_at ≡ 0) ⊎ (x.machine.now ≤ p.expires_at))
      × Submitted x p made
unfolding with_token
with_token-Submitted x made n (bad_token e) h = absurd (ground arith)
with_token-Submitted x made n (token p) h =
    elim (Bool-cases (not (nat_eq p.expires_at 0) && ltb p.expires_at x.machine.now)) [
      | inl t ↦ absurd (cc (simp t at h))
      | inr t ↦ (
        p,
        refl,
        ground (arith, t),
        with_boot-Submitted x p made (bootstrap_node x.machine n) (simp t at h),
      )
    ]

-- The command sends a request only on a machine without a node.yaml, with a token that decodes and
-- has not expired, after the operator's consent, to the address of one of the token's endpoints where
-- the certificate with the fingerprint in the token was presented, and to the node that this
-- certificate names; the request carries the token's id and secret and the fingerprint of the
-- node's own certificate.
pub run_enroll_join-PinnedCall :
    (x : Site) (tok advertise bind_addr : String) (bind_port : ℤ) (made : Call)
    → (run_enroll_join x tok advertise bind_addr bind_port).called ≡ some made
    → PinnedCall x tok made
unfolding run_enroll_join
run_enroll_join-PinnedCall x tok advertise bind_addr bind_port made h =
    elim (Bool-cases x.node_exists) [
      | inl e ↦ absurd (cc (simp e at h))
      | inr e ↦
          let (p, decoded, fresh, s) =
            with_token-Submitted x made (from_flags advertise bind_addr bind_port)
              (decode_enrollment_token x.codec tok) (simp e at h) in
          record {
            payload = p;
            decoded = decoded;
            fresh = fresh;
            blank = e;
            confirmed = s.confirmed;
            verified = s.verified;
            id = s.id;
            secret = s.secret;
            own = s.own;
          }
    ]
