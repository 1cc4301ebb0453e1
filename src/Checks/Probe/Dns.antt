-- ===== src/Checks/Probe/Dns.antt =====
-- When a DNS round passes: internal/checks/dns.go.
use quptime.Prelude.{
  String, true, List, [], ◌∷◌, ◌≡◌, ◌≢◌, refl, ◌↔◌, ◌⊎◌, inl, inr, ◌==◌, eq_iff, arith, Bool-cases,
  In,
}
use quptime.Config.Types.{Check}
use quptime.Checks.Probe.{
  Answers, lookup_failed, found, Network, record_type, any_contains, supported, dns_answered,
  dns_probe,
}

module _ (net : Network) (c : Check) where
  any_contains_iff :
      (needle : String) (texts : List String)
      → (any_contains net c needle texts ≡ true)
        ↔ ((a : String) × In a texts × (net.contains (net.to_lower a) needle ≡ true))
  unfolding any_contains
  any_contains_iff needle [] = (λ h. cc, λ (a, m, _). absurd m)
  any_contains_iff needle (a ∷ rest) =
      let (found_in, there) = any_contains_iff needle rest in
      elim (Bool-cases (net.contains (net.to_lower a) needle)) [
        | inl t ↦ simp t (λ h. (a, inl refl, t), λ h. refl)
        | inr t ↦ simp t (
          λ h. let (x, m, k) = found_in h in (x, inr m, k),
          λ (x, m, k). elim m [
            | inl e ↦ let k' : net.contains (net.to_lower a) needle ≡ true = rw e at k in absurd cc
            | inr n ↦ there (x, n, k)
          ],
        )
      ]

  -- the lookup finds answers, and one of them has the text, where one is asked for
  pub record DnsPasses (o : Answers) : Type 0 where
    pub first : String
    pub rest : List String
    pub answered : o ≡ found (first ∷ rest)
    pub matches :
        (net.trim_space c.dns_expect ≡ "")
        ⊎ ((a : String) × In a (first ∷ rest)
            × (net.contains (net.to_lower a) (net.to_lower (net.trim_space c.dns_expect)) ≡ true))

  dns_answered_iff : (o : Answers) → ((dns_answered net c o).ok ≡ true) ↔ DnsPasses o
  unfolding dns_answered
  dns_answered_iff (lookup_failed e) = (λ h. cc, λ p. let q = p.answered in cc)
  dns_answered_iff (found []) = (λ h. cc, λ p. let q = p.answered in cc)
  dns_answered_iff (found (a ∷ rest)) =
      let want = net.trim_space c.dns_expect in
      let (out, back) = any_contains_iff (net.to_lower want) (a ∷ rest) in
      elim (Bool-cases (want == "")) [
        | inl w ↦ simp w (
          λ h. record {
            first = a;
            rest = rest;
            answered = refl;
            matches = inl ((eq_iff want "").0 w);
          },
          λ p. refl,
        )
        | inr w ↦ elim (Bool-cases (any_contains net c (net.to_lower want) (a ∷ rest))) [
          | inl t ↦
              simp (w, t)
                (
                  λ h. record { first = a; rest = rest; answered = refl; matches = inr (out t) },
                  λ p. refl,
                )
          | inr t ↦
              simp (w, t)
                (
                  λ h. cc,
                  λ p.
                      let q = p.answered in
                      let f : p.first ≡ a = cc in
                      let r : p.rest ≡ rest = cc in
                      elim p.matches [
                        | inl e ↦ let u = (eq_iff want "").1 e in absurd cc
                        | inr (x, m, k) ↦ let u = back (x, rw (f, r) at m, k) in absurd cc
                      ],
                )
        ]
      ]

  pub dns_probe_iff : ((dns_probe net c).ok ≡ true) ↔ (
      (net.trim_space c.target ≢ "")
      × (supported net c (record_type net c) ≡ true)
      × DnsPasses (net.resolve c (record_type net c) (net.trim_space c.target)))
  unfolding dns_probe
  dns_probe_iff =
      let answered =
        dns_answered_iff (net.resolve c (record_type net c) (net.trim_space c.target)) in
      elim (Bool-cases (net.trim_space c.target == "")) [
        | inl e ↦
            simp e (λ h. cc, λ (n, _, _). absurd (n ((eq_iff (net.trim_space c.target) "").0 e)))
        | inr e ↦
            let named : net.trim_space c.target ≢ "" =
              ground (arith, eq_iff (net.trim_space c.target) "", e) in
            elim (Bool-cases (supported net c (record_type net c))) [
              | inl t ↦ simp (e, t) (λ h. (named, refl, answered.0 h), λ (_, _, p). answered.1 p)
              | inr t ↦ simp (e, t) (λ h. cc, λ (_, u, _). cc)
            ]
      ]
