-- ===== src/Checks/Probe/Tls.antt =====
-- When a TLS round passes: internal/checks/tls.go.
use quptime.Prelude.{
  ℕ, ◌*◌, ◌≤◌, ◌%◌, ◌^◌, String, true, Option, none, some, ◌≡◌, refl, ◌↔◌, inl, inr, arith,
  Bool-cases, ltb, nat_eq, if◌then◌else◌,
}
use quptime.Prelude.Int.{pos, negsuc, pos_part, to_int64}
use quptime.Config.Types.{Check}
use quptime.Checks.Probe.{
  Handshake, broken, no_certificate, leaf, Network, default_tls_warn_days, warn_window, tls_expiry,
  tls_dialed, tls_probe,
}

module _ (net : Network) (c : Check) where
  -- the days of warning that the check asks for, or the default
  abbrev pub warn_days : ℕ
  warn_days =
      if nat_eq (pos_part c.tls_warn_days) 0
      then default_tls_warn_days net c
      else pos_part c.tls_warn_days

  small_product :
      (n : ℕ) → n ≤ 106751 → pos_part (to_int64 (n * 86_400_000_000_000)) ≡ n * 86_400_000_000_000
  small_product n l =
      let whole : (n * 86_400_000_000_000) % 2 ^ 64 ≡ n * 86_400_000_000_000 = ground arith in
      let below : ltb (n * 86_400_000_000_000) (2 ^ 63) ≡ true = ground arith in
      simp (whole, below) refl

  warn_window-days :
      pos_part c.tls_warn_days ≤ 106751
      → pos_part (warn_window net c) ≡ warn_days * 86_400_000_000_000
  warn_window-days l = small_product warn_days (ground arith)

  tls_expiry_iff :
      (h : Handshake)
      → pos_part c.tls_warn_days ≤ 106751
      → ((tls_expiry net c h).ok ≡ true)
        ↔ ((n : ℕ) × (h ≡ leaf (pos n)) × (1 ≤ n) × (warn_days * 86_400_000_000_000 ≤ n))
  unfolding tls_expiry
  tls_expiry_iff (broken e) l = (λ h. cc, λ (n, e, _, _). cc)
  tls_expiry_iff no_certificate l = (λ h. cc, λ (n, e, _, _). cc)
  tls_expiry_iff (leaf (negsuc m)) l = (λ h. cc, λ (n, e, _, _). cc)
  tls_expiry_iff (leaf (pos m)) l =
      let window = warn_window-days l in
      elim (Bool-cases (nat_eq m 0)) [
        | inl z ↦ simp z (λ h. cc, λ (n, e, k, _). let same : m ≡ n = cc in absurd (ground arith))
        | inr z ↦ elim (Bool-cases (ltb m (pos_part (warn_window net c)))) [
          | inl s ↦
              simp (z, s) (λ h. cc, λ (n, e, k, w). let same : m ≡ n = cc in absurd (ground arith))
          | inr s ↦ simp (z, s) (λ h. (m, refl, ground arith, ground arith), λ h. refl)
        ]
      ]

  -- the target has an address that can be dialed, and its certificate lasts
  pub record TlsPasses (o : Option (String × String)) : Type 0 where
    pub addr : String
    pub sni : String
    pub target : o ≡ some (addr, sni)
    pub dialed : net.dial c addr ≡ none
    pub remaining : ℕ
    pub presented : net.handshake addr sni ≡ leaf (pos remaining)
    pub valid : 1 ≤ remaining
    pub lasting : warn_days * 86_400_000_000_000 ≤ remaining

  tls_dialed_iff :
      (addr sni : String) (o : Option String)
      → ((tls_dialed net c addr sni o).ok ≡ true)
        ↔ ((o ≡ none) × ((tls_expiry net c (net.handshake addr sni)).ok ≡ true))
  unfolding tls_dialed
  tls_dialed_iff addr sni none = (λ h. (refl, h), λ (_, h). h)
  tls_dialed_iff addr sni (some e) = (λ h. cc, λ (e, _). cc)

  pub tls_probe_iff :
      (o : Option (String × String))
      → pos_part c.tls_warn_days ≤ 106751
      → ((tls_probe net c o).ok ≡ true) ↔ TlsPasses o
  unfolding tls_probe
  tls_probe_iff none l = (λ h. cc, λ p. let q = p.target in cc)
  tls_probe_iff (some (addr, sni)) l =
      let dialed = tls_dialed_iff addr sni (net.dial c addr) in
      let lasts = tls_expiry_iff (net.handshake addr sni) l in
      (
        λ h.
            let (d, e) = dialed.0 h in
            let (n, s, v, w) = lasts.0 e in
            record {
              addr = addr;
              sni = sni;
              target = refl;
              dialed = d;
              remaining = n;
              presented = s;
              valid = v;
              lasting = w;
            },
        λ p.
            let t = p.target in
            let a : p.addr ≡ addr = cc in
            let s : p.sni ≡ sni = cc in
            dialed.1 (
              rw a at p.dialed,
              lasts.1 (p.remaining, rw (a, s) at p.presented, p.valid, p.lasting),
            ),
      )
