-- ===== src/Checks/Scheduler/Wanted.antt =====
-- `sameCheck`, and the map that `reconcile` of internal/checks/scheduler.go fills from the
-- configuration.
use quptime.Prelude.{
  String, true, false, ◌||◌, none, some, List, [], ◌∷◌, ◌≡◌, ◌≢◌, ◌⊎◌, refl, sym, ap, ◌∙◌, inl, inr,
  arith, ◌==◌, eq_iff, eq_refl, lookup, insert, lookup-insert, In, Distinct, keys, In-map,
  Distinct-keys-insert, Bool-cases, if_both,
}
use quptime.Prelude.Int.{ℤ, pos, negsuc, int_eq}
use quptime.Config.Types.{
  Check, CheckType, check_http, check_tcp, check_icmp, check_tls, check_dns, other_check,
}
use quptime.Checks.Scheduler.{Net, baked, want_all, type_eq, same_strings, same_check}

int_eq_refl : (x : ℤ) → int_eq x x ≡ true
int_eq_refl (pos n) = ground arith
int_eq_refl (negsuc n) = ground arith

type_eq_refl : (t : CheckType) → type_eq t t ≡ true
type_eq_refl check_http = refl
type_eq_refl check_tcp = refl
type_eq_refl check_icmp = refl
type_eq_refl check_tls = refl
type_eq_refl check_dns = refl
type_eq_refl (other_check s) = eq_refl s

same_strings_refl : (xs : List String) → same_strings xs xs ≡ true
unfolding same_strings
same_strings_refl [] = refl
same_strings_refl (s ∷ xs) = simp (eq_refl s, same_strings_refl xs)

-- The settings of a TLS or DNS probe that `sameCheck` does not look at.
abbrev pub retuned : ℤ → String → String → String → Check → Check
retuned warn_days server_name dns_record dns_expect w = record w {
  tls_warn_days = warn_days;
  tls_server_name = server_name;
  dns_record = dns_record;
  dns_expect = dns_expect;
}

pub same_check-retuned :
    (d : ℤ) (n r x : String) (w : Check) → same_check (retuned d n r x w) w ≡ true
unfolding same_check
same_check-retuned d n r x w = simp (
  eq_refl w.id,
  type_eq_refl w.type,
  eq_refl w.target,
  int_eq_refl w.interval,
  int_eq_refl w.timeout,
  int_eq_refl w.expect_status,
  eq_refl w.body_match,
  same_strings_refl w.resolvers,
)

pub same_check_refl : (w : Check) → same_check w w ≡ true
same_check_refl w = same_check-retuned w.tls_warn_days w.tls_server_name w.dns_record w.dns_expect w

-- Some enabled check with that id, which is not blank, is configured; `d` is what it is run with.
abbrev pub Wanted : Net → List String → List Check → String → Check → Type 0
Wanted net defaults checks id d =
    (c : Check) × In c checks
    × (c.id ≡ id)
    × (id ≢ "")
    × (c.disabled ≡ false)
    × (d ≡ baked net defaults c)

module _ (net : Net) (defaults : List String) where
  pub want_all-Wanted :
      (checks : List Check) (want : List (String × Check)) (id : String) (d : Check)
      → lookup id (want_all net defaults checks want) ≡ some d
      → (lookup id want ≡ some d) ⊎ Wanted net defaults checks id d
  unfolding want_all
  want_all-Wanted [] want id d h = inl h
  want_all-Wanted (c ∷ rest) want id d h = elim (want_all-Wanted rest _ id d h) [
    | inr (k, m, i, b, f, g) ↦ inr (k, inr m, i, b, f, g)
    | inl e ↦ elim (Bool-cases (c.id == "" || c.disabled)) [
      | inl t ↦ inl (simp t at e)
      | inr t ↦
          let put : lookup id (insert c.id (baked net defaults c) want) ≡ some d = simp t at e in
          elim (Bool-cases (c.id == id)) [
            | inl q ↦
                let same : c.id ≡ id = (eq_iff c.id id).0 q in
                let got : lookup id (insert c.id (baked net defaults c) want)
                    ≡ some (baked net defaults c) =
                  simp (lookup-insert c.id id (baked net defaults c) want, q) in
                inr (
                  c,
                  inl refl,
                  same,
                  ground (arith, eq_iff c.id "", same, t),
                  ground (arith, t),
                  cc,
                )
            | inr q ↦ inl (simp (lookup-insert c.id id (baked net defaults c) want, q) at put)
          ]
    ]
  ]

  want_all-kept :
      (checks : List Check) (want : List (String × Check)) (id : String)
      → lookup id want ≢ none
      → lookup id (want_all net defaults checks want) ≢ none
  unfolding want_all
  want_all-kept [] want id h = h
  want_all-kept (c ∷ rest) want id h =
      want_all-kept rest _ id
        (ground (arith, eq_iff c.id id, lookup-insert c.id id (baked net defaults c) want, h))

  pub want_all_complete :
      (checks : List Check) (want : List (String × Check)) (c : Check)
      → In c checks
      → c.id ≢ ""
      → c.disabled ≡ false
      → lookup c.id (want_all net defaults checks want) ≢ none
  unfolding want_all
  want_all_complete [] want c m n e = absurd m
  want_all_complete (x ∷ rest) want c (inl q) n e =
      let same : c.id ≡ x.id = ap (λ (k : Check). k.id) q in
      let enabled : x.disabled ≡ false = sym (ap (λ (k : Check). k.disabled) q) ∙ e in
      want_all-kept rest _ c.id (
        ground (
          arith,
          eq_iff x.id "",
          eq_iff x.id c.id,
          lookup-insert x.id c.id (baked net defaults x) want,
          n,
          same,
          enabled,
        ))
  want_all_complete (x ∷ rest) want c (inr m) n e = want_all_complete rest _ c m n e

  pub want_all-Distinct :
      (checks : List Check) (want : List (String × Check))
      → Distinct (keys want)
      → Distinct (keys (want_all net defaults checks want))
  unfolding want_all
  want_all-Distinct [] want h = h
  want_all-Distinct (c ∷ rest) want h = want_all-Distinct rest _ (
      if_both (λ (m : List (String × Check)). Distinct (keys m)) (c.id == "" || c.disabled) h
        (Distinct-keys-insert c.id (baked net defaults c) want h))

pub In-lookup :
    (m : List (String × Check)) (id : String) (d : Check)
    → Distinct (keys m)
    → In (id, d) m
    → lookup id m ≡ some d
unfolding lookup
In-lookup [] id d h k = absurd k
In-lookup ((j, v) ∷ rest) id d h (inl e) =
    let i : id ≡ j = ap (λ (p : String × Check). p.0) e in
    let q : d ≡ v = ap (λ (p : String × Check). p.1) e in rw i (simp (eq_refl j) (ap some (sym q)))
In-lookup ((j, v) ∷ rest) id d (h, hs) (inr k) =
    let other : ¬ (j ≡ id) = λ e. h (rw e (In-map (λ (p : String × Check). p.0) (id, d) rest k)) in
    ground (arith, eq_iff j id, other, In-lookup rest id d hs k)

pub lookup-In :
    (m : List (String × Check)) (id : String) (d : Check) → lookup id m ≡ some d → In (id, d) m
unfolding lookup
lookup-In [] id d h = cc
lookup-In ((j, v) ∷ rest) id d h = elim (Bool-cases (j == id)) [
  | inl q ↦
      let i : j ≡ id = (eq_iff j id).0 q in
      let e : some v ≡ some d = simp q at h in let same : v ≡ d = cc in inl (rw i (rw same refl))
  | inr q ↦ inr (lookup-In rest id d (simp q at h))
]
