-- ===== src/Config/Cluster/Effective.antt =====
-- `EffectiveAlertsFor` of internal/config/cluster.go: which alerts a check fires.
use quptime.Prelude.{
  String, true, some, List, [], ◌∷◌, ◌≡◌, refl, ◌⊎◌, inl, inr, In, Distinct, if◌then◌else◌, none,
  Option,
}
use quptime.Config.Types.{Check, Alert, ClusterConfig}
use quptime.Config.Cluster.{
  Collected, add_alert, add_found, add_listed, add_defaults, effective_alerts_for, find_alert,
}
use quptime.Config.Cluster.Attach.{
  MayFire, Collects, alert_ids_of, add_defaults-Collects, add_listed-Collects, add_listed_mono,
  add_defaults_mono, add_alert-In,
}

-- `EffectiveAlertsFor` lists `a` under the id of the check, or by default.
abbrev pub Attached : ClusterConfig → Check → Alert → Type 0
Attached c check a =
    (In a c.alerts × (a.default ≡ true))
    ⊎ ((want : String) × In want check.alert_ids × (find_alert want c.alerts ≡ some a))

module _ (c : ClusterConfig) (check : Check) where
  start : Collected
  start = record { seen = []; out = [] }

  start-Collects : Collects (λ a. MayFire check.suppress_alert_ids a × Attached c check a) start
  unfolding start
  start-Collects = record {
    distinct = tt;
    out_seen = λ x m. m;
    seen_out = λ x m. m;
    each = λ a m. absurd m;
  }

  listed : Collected
  unfolding start
  listed = add_listed check.suppress_alert_ids c.alerts check.alert_ids start

  all_added : Collected
  unfolding listed
  all_added = add_defaults check.suppress_alert_ids c.alerts listed

  all_added-Collects :
      Collects (λ a. MayFire check.suppress_alert_ids a × Attached c check a) all_added
  unfolding all_added
  all_added-Collects =
      add_defaults-Collects check.suppress_alert_ids _ c.alerts c.alerts listed
        (add_listed-Collects check.suppress_alert_ids _ c.alerts check.alert_ids start
          start-Collects (λ w a m e f. (f, inr (w, m, e))))
        (λ a m e f. (f, inl (m, e)))

add_defaults-In :
    (suppress : List String) (rest : List Alert) (a : Alert) (s : Collected)
    → In a rest
    → a.default ≡ true
    → MayFire suppress a
    → In a.id (add_defaults suppress rest s).seen
unfolding add_defaults
add_defaults-In suppress [] a s m e f = absurd m
add_defaults-In suppress (b ∷ rest) a s (inl q) e f =
    let default : b.default ≡ true = rw q at e in
    rw q (
      simp default (
        add_defaults_mono suppress rest b.id rest (add_alert suppress b s)
          ((add_alert-In suppress (λ x. Unit {0}) b s).0 (rw q at f))))
add_defaults-In suppress (b ∷ rest) a s (inr m) e f =
    add_defaults-In suppress rest a (if b.default then add_alert suppress b s else s) m e f

add_found-In :
    (suppress : List String) (o : Option Alert) (a : Alert) (s : Collected)
    → o ≡ some a
    → MayFire suppress a
    → In a.id (add_found suppress o s).seen
unfolding add_found
add_found-In suppress none a s e f = cc
add_found-In suppress (some b) a s e f =
    let q : b ≡ a = cc in rw (← q) ((add_alert-In suppress (λ x. Unit {0}) b s).0 (rw (← q) at f))

add_listed-In :
    (suppress : List String) (alerts : List Alert) (wants : List String) (want : String) (a : Alert)
    (s : Collected)
    → In want wants
    → find_alert want alerts ≡ some a
    → MayFire suppress a
    → In a.id (add_listed suppress alerts wants s).seen
unfolding add_listed
add_listed-In suppress alerts [] want a s m e f = absurd m
add_listed-In suppress alerts (w ∷ wants) want a s (inl q) e f =
    add_listed_mono suppress alerts a.id wants (add_found suppress (find_alert w alerts) s)
      (add_found-In suppress (find_alert w alerts) a s (rw q at e) f)
add_listed-In suppress alerts (w ∷ wants) want a s (inr m) e f =
    add_listed-In suppress alerts wants want a (add_found suppress (find_alert w alerts) s) m e f

-- The alerts of `EffectiveAlertsFor`: no id twice; each may fire and is attached; and of each
-- alert that may fire and is attached, the id is there.
pub record Effective (c : ClusterConfig) (check : Check) (out : List Alert) : Type 0 where
  pub distinct : Distinct (alert_ids_of out)
  pub sound : (a : Alert) → In a out → MayFire check.suppress_alert_ids a × Attached c check a
  pub complete :
      (a : Alert)
      → MayFire check.suppress_alert_ids a
      → Attached c check a
      → In a.id (alert_ids_of out)

-- For a check, `EffectiveAlertsFor` returns alerts with distinct ids; each of them is enabled, not
-- suppressed by id or name, and default or the first alert that an entry of the check's list
-- names; and every alert like that has its id among them. Without a check it returns none.
pub effective_alerts_for-Effective :
    (c : ClusterConfig) (check : Check)
    → Effective c check (effective_alerts_for c (some check)) × (effective_alerts_for c none ≡ [])
unfolding effective_alerts_for all_added
effective_alerts_for-Effective c check =
    let v = all_added-Collects c check in
    (
      record {
        distinct = v.distinct;
        sound = v.each;
        complete = λ a f at. v.seen_out a.id (elim at [
          | inl (m, e) ↦ add_defaults-In check.suppress_alert_ids c.alerts a (listed c check) m e f
          | inr (w, m, e) ↦
              add_defaults_mono check.suppress_alert_ids c.alerts a.id c.alerts (listed c check) (
                add_listed-In check.suppress_alert_ids c.alerts check.alert_ids w a (start c check)
                  m e f)
        ]);
      },
      refl,
    )
