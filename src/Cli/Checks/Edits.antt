-- ===== src/Cli/Checks/Edits.antt =====
-- What becomes of an edited check: internal/cli/check.go and MutationAddCheck of
-- internal/replicate/replicator.go.
use quptime.Prelude.{
  String, Bool, false, ◌||◌, none, some, List, [], ◌∷◌, ◌≡◌, ◌≢◌, refl, sym, ap, inl, inr, ◌==◌,
  eq_iff, arith, Bool-cases, In, In-map, Distinct, map, if◌then◌else◌,
}
use quptime.Config.Types.{Check, CheckType, ClusterConfig}
use quptime.Replicate.Mutation.{apply_add_check, upsert, same_check_key}
use quptime.Cli.Checks.{existing_check, Edited, edited}

abbrev pub check_ids : List Check → List String
check_ids = map (λ (c : Check). c.id)

-- the check in the place of the one with its id
abbrev pub swap_in : Check → List Check → List Check
swap_in a = map (λ (x : Check). if x.id == a.id then a else x)

swap_in-off : (a : Check) (xs : List Check) → ¬ In a.id (check_ids xs) → swap_in a xs ≡ xs
swap_in-off a [] n = refl
swap_in-off a (x ∷ xs) n =
    let rest = swap_in-off a xs (λ m. n (inr m)) in
    let off : (x.id == a.id) ≡ false =
      ground (arith, eq_iff x.id a.id, (λ (e : x.id ≡ a.id). n (inl (sym e)))) in
    simp (off, rest) refl

upsert-swap_in :
    (a : Check) (xs : List Check)
    → Distinct (check_ids xs)
    → In a.id (check_ids xs)
    → ((x : Check) → In x xs → x.name ≡ a.name → x.id ≡ a.id)
    → upsert (same_check_key a) a xs ≡ swap_in a xs
unfolding upsert
upsert-swap_in a [] d m only = absurd m
upsert-swap_in a (x ∷ xs) (d, ds) m only = elim (Bool-cases (x.id == a.id)) [
  | inl e ↦
      let same : x.id ≡ a.id = (eq_iff x.id a.id).0 e in
      let rest : swap_in a xs ≡ xs = swap_in-off a xs (rw same at d) in simp (e, rest) refl
  | inr e ↦
      let differs : x.id ≢ a.id = λ q. ground (arith, eq_iff x.id a.id, q, e) in
      let named : (x.name == a.name) ≡ false =
        ground (arith, eq_iff x.name a.name, only x (inl refl), differs) in
      let rest =
        upsert-swap_in a xs ds (elim m [ inl q ↦ absurd (differs (sym q)) | inr n ↦ n ])
          (λ y n. only y (inr n)) in
      simp (e, named) (ap (λ ys. x ∷ ys) rest)
]

-- What no flag changes: the id, the type, the suppressed alerts, and whether the check is disabled.
abbrev pub core : Check → String × CheckType × List String × Bool
core c = (c.id, c.type, c.suppress_alert_ids, c.disabled)

abbrev pub Kept : Check → Check → Type 0
Kept c a = core a ≡ core c

-- the flag fails, or keeps these
abbrev Keeps : Check → Edited → Type 0
Keeps c e = (a : Check) → e ≡ edited a → Kept c a

pub existing_check-In :
    (target : String) (xs : List Check) (c : Check) → existing_check target xs ≡ some c → In c xs
unfolding existing_check
existing_check-In target [] c h = absurd (ground arith)
existing_check-In target (x ∷ xs) c h = elim (Bool-cases (x.id == target || x.name == target)) [
  | inl e ↦ let q : some x ≡ some c = simp e at h in inl cc
  | inr e ↦ inr (existing_check-In target xs c (simp e at h))
]

-- The mutation puts the check where the one with its id is, and leaves everything else.
abbrev pub Swaps : Check → ClusterConfig → Type 0
Swaps a c = apply_add_check (some a) c ≡ (record c { checks = swap_in a c.checks }, none)

pub submitted-Swaps :
    (a b : Check) (c : ClusterConfig)
    → In b c.checks
    → a.id ≡ b.id
    → a.id ≢ ""
    → a.name ≢ ""
    → Distinct (check_ids c.checks)
    → ((x : Check) → In x c.checks → x.name ≡ a.name → x.id ≡ a.id)
    → Swaps a c
unfolding apply_add_check
submitted-Swaps a b c m same i n d only =
    let full : (a.id == "" || a.name == "") ≡ false =
      ground (arith, eq_iff a.id "", eq_iff a.name "", i, n) in
    let there : In a.id (check_ids c.checks) =
      rw same (In-map (λ (x : Check). x.id) b c.checks m) in
    let put = upsert-swap_in a c.checks d there only in simp (full, put) refl
