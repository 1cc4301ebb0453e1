-- ===== src/Cli/Alerts/Back.antt =====
-- Enabling and disabling an alert: internal/cli/alert.go with MutationAddAlert of
-- internal/replicate/replicator.go.
use quptime.Prelude.{
  String, Bool, true, false, not, ◌||◌, none, some, List, [], ◌∷◌, ◌≡◌, ◌≢◌, refl, sym, ap, ◌∙◌,
  ◌⊎◌, inl, inr, ◌==◌, eq_iff, eq_refl, arith, Bool-cases, In,
}
use quptime.Config.Types.{Alert, ClusterConfig}
use quptime.Config.Cluster.{find_alert}
use quptime.Replicate.Mutation.{apply_add_alert, upsert, same_alert_key}
use quptime.Cli.Checks.{submits}
use quptime.Cli.Alerts.{toggled, toggle_alert}

-- No other alert has the id or the name of this one.
abbrev pub Only : Alert → List Alert → Type 0
Only old xs = (x : Alert) → In x xs → (x.id ≡ old.id) ⊎ (x.name ≡ old.name) → x ≡ old

-- the alert that a command names
abbrev named : String → Alert → Bool
named target a = a.id == target || a.name == target

find_alert-named :
    (target : String) (xs : List Alert) (a : Alert)
    → find_alert target xs ≡ some a
    → named target a ≡ true
unfolding find_alert
find_alert-named target [] a h = cc
find_alert-named target (x ∷ xs) a h = elim (Bool-cases (named target x)) [
  | inl e ↦ let q : some x ≡ some a = simp e at h in let same : x ≡ a = cc in rw same at e
  | inr e ↦ find_alert-named target xs a (simp e at h)
]

-- another alert than the one that the command names is passed over
key-off :
    (target : String) (old x : Alert)
    → (((x.id ≡ old.id) ⊎ (x.name ≡ old.name)) → x ≡ old)
    → named target old ≡ true
    → named target x ≡ false
    → (x.id == old.id || x.name == old.name) ≡ false
key-off target old x only h e = elim (Bool-cases (x.id == old.id || x.name == old.name)) [
  | inr n ↦ n
  | inl m ↦
      let same : x ≡ old = only (ground (arith, eq_iff x.id old.id, eq_iff x.name old.name, m)) in
      absurd (let clash : named target old ≡ false = rw same at e in ground arith)
]

put-back :
    (b : Bool) (target : String) (old : Alert) (xs : List Alert)
    → find_alert target xs ≡ some old
    → Only old xs
    → let a = record old { disabled = b } in
      let put = upsert (same_alert_key a) a xs in
      (find_alert target put ≡ some a) × (upsert (same_alert_key old) old put ≡ xs)
unfolding find_alert upsert
put-back b target old [] h only = absurd (ground arith)
put-back b target old (x ∷ xs) h only = elim (Bool-cases (named target x)) [
  | inl e ↦
      let q : some x ≡ some old = simp e at h in
      let same : x ≡ old = cc in
      let hit : named target old ≡ true = rw same at e in rw same (simp (eq_refl, hit) (refl, refl))
  | inr e ↦
      let later : find_alert target xs ≡ some old = simp e at h in
      let off = key-off target old x (only x (inl refl)) (find_alert-named target xs old later) e in
      let (found, back) = put-back b target old xs later (λ y m. only y (inr m)) in
      simp (off, e) (found, ap (λ ys. x ∷ ys) back)
]

toggled-submits :
    (b : Bool) (old a : Alert)
    → toggled b (some old) ≡ submits a
    → (a ≡ record old { disabled = b }) × (old.disabled ≡ not b)
unfolding toggled
toggled-submits true old a h = elim (Bool-cases old.disabled) [
  | inl t ↦ absurd (ground (arith, simp t at h))
  | inr t ↦ (let k = simp t at h in cc, t)
]
toggled-submits false old a h = elim (Bool-cases old.disabled) [
  | inr t ↦ absurd (ground (arith, simp t at h))
  | inl t ↦ (let k = simp t at h in cc, t)
]

toggled_back :
    (b : Bool) (old : Alert)
    → old.disabled ≡ not b
    → toggled (not b) (some (record old { disabled = b })) ≡ submits old
unfolding toggled
toggled_back true old e = ap (λ d. submits (record old { disabled = d })) (sym e)
toggled_back false old e = ap (λ d. submits (record old { disabled = d })) (sym e)

-- Where `qu alert enable` or `disable` submits an alert with an id and a name, and no other alert has
-- its id or its name, the mutation accepts it and the target still names it; and the opposite command
-- then submits the alert as it was, whose mutation gives the configuration as it was.
pub toggle_alert-back :
    (b : Bool) (target : String) (c : ClusterConfig) (old a : Alert)
    → find_alert target c.alerts ≡ some old
    → toggle_alert b target (some c) ≡ submits a
    → a.id ≢ ""
    → a.name ≢ ""
    → Only old c.alerts
    → let (after, error) = apply_add_alert (some a) c in
      (error ≡ none)
      × (find_alert target after.alerts ≡ some a)
      × (toggle_alert (not b) target (some after) ≡ submits old)
      × (apply_add_alert (some old) after ≡ (c, none))
unfolding toggle_alert apply_add_alert
toggle_alert-back b target c old a f h i n only =
    let (made, was) = toggled-submits b old a (rw f at h) in
    let full : (old.id == "" || old.name == "") ≡ false = ground (
      arith,
      eq_iff old.id "",
      eq_iff old.name "",
      (λ (e : old.id ≡ ""). i (ap (λ (x : Alert). x.id) made ∙ e)),
      (λ (e : old.name ≡ ""). n (ap (λ (x : Alert). x.name) made ∙ e)),
    ) in
    let (found, back) = put-back b target old c.alerts f only in
    rw made (simp (full, found, back, toggled_back b old was) (refl, refl, refl, refl))
