-- ===== src/Checks/Probe/Http.antt =====
-- When an HTTP round and an echo pass: internal/checks/http.go and icmp.go.
use quptime.Prelude.{
  ℕ, ◌≤◌, String, true, Option, none, some, ◌≡◌, refl, ◌↔◌, ◌⊎◌, inl, inr, ◌==◌, eq_iff, arith,
  Bool-cases, nat_eq, ap, ◌∙◌,
}
use quptime.Prelude.Int.{ℤ, pos, negsuc, int_eq}
use quptime.Config.Types.{Check}
use quptime.Checks.Probe.{
  Fetched, unbuilt, unsent, response, Echo, unresolved, timed_out, replies, Network,
  expected_status, body_probe, http_probe, icmp_probe,
}

int_eq_iff : (a b : ℤ) → (int_eq a b ≡ true) ↔ (a ≡ b)
int_eq_iff (pos a) (pos b) = ground arith
int_eq_iff (negsuc a) (negsuc b) = ground arith
int_eq_iff (pos a) (negsuc b) = (λ h. cc, λ h. cc)
int_eq_iff (negsuc a) (pos b) = (λ h. cc, λ h. cc)

module _ (net : Network) (c : Check) where
  -- the status is the expected one, and the body, where one is asked for, has the text
  pub record HttpPasses (f : Fetched) : Type 0 where
    pub text : String
    pub body : Option String
    pub answered : f ≡ response (expected_status net c) text body
    pub matches :
        (c.body_match ≡ "")
        ⊎ ((s : String) × (body ≡ some s) × (net.contains s c.body_match ≡ true))

  body_probe_iff :
      (o : Option String)
      → ((body_probe net c o).ok ≡ true)
        ↔ ((s : String) × (o ≡ some s) × (net.contains s c.body_match ≡ true))
  unfolding body_probe
  body_probe_iff none = (λ h. cc, λ (s, e, _). cc)
  body_probe_iff (some body) = elim (Bool-cases (net.contains body c.body_match)) [
    | inl t ↦ simp t (λ h. (body, refl, t), λ h. refl)
    | inr t ↦ simp t (λ h. cc, λ (s, e, u). let same : body ≡ s = cc in cc)
  ]

  pub http_probe_iff : (f : Fetched) → ((http_probe net c f).ok ≡ true) ↔ HttpPasses f
  unfolding http_probe
  http_probe_iff (unbuilt e) = (λ h. cc, λ p. let q = p.answered in cc)
  http_probe_iff (unsent e) = (λ h. cc, λ p. let q = p.answered in cc)
  http_probe_iff (response status text body) =
      let same = int_eq_iff status (expected_status net c) in
      let (reads, read) = body_probe_iff body in
      elim (Bool-cases (int_eq status (expected_status net c))) [
        | inr t ↦ simp t (
          λ h. cc,
          λ p.
              let q = p.answered in
              let e : status ≡ expected_status net c = cc in let u = same.1 e in cc,
        )
        | inl t ↦ elim (Bool-cases (c.body_match == "")) [
          | inl m ↦
              simp (t, m)
                (
                  λ h. record {
                    text = text;
                    body = body;
                    answered = ap (λ x. response x text body) (same.0 t);
                    matches = inl ((eq_iff c.body_match "").0 m);
                  },
                  λ p. refl,
                )
          | inr m ↦
              simp (t, m)
                (
                  λ h. record {
                    text = text;
                    body = body;
                    answered = ap (λ x. response x text body) (same.0 t);
                    matches = inr (reads h);
                  },
                  λ p. elim p.matches [
                    | inl e ↦ let u = (eq_iff c.body_match "").1 e in absurd cc
                    | inr (s, e, u) ↦
                        let q = p.answered in read (s, (let k : body ≡ p.body = cc in k ∙ e), u)
                  ],
                )
        ]
      ]

  pub icmp_probe_iff :
      (e : Echo)
      → ((icmp_probe net c e).ok ≡ true) ↔ ((n : ℕ) × (rtt : ℤ) × (e ≡ replies n rtt) × (1 ≤ n))
  unfolding icmp_probe
  icmp_probe_iff (unresolved e) = (λ h. cc, λ (n, r, e, _). cc)
  icmp_probe_iff timed_out = (λ h. cc, λ (n, r, e, _). cc)
  icmp_probe_iff (replies k rtt) = elim (Bool-cases (nat_eq k 0)) [
    | inl t ↦ simp t (λ h. cc, λ (n, r, e, l). let same : k ≡ n = cc in absurd (ground arith))
    | inr t ↦ simp t (λ h. (k, rtt, refl, ground arith), λ h. refl)
  ]
