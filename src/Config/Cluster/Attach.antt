-- ===== src/Config/Cluster/Attach.antt =====
-- The loops of `EffectiveAlertsFor`, internal/config/cluster.go: what they keep and what they add.
use quptime.Prelude.{
  String, true, false, Option, none, some, List, [], ◌∷◌, ◌++◌, ◌≡◌, refl, ◌↔◌, ◌⊎◌, inl, inr,
  eq_iff, arith, In, In-append, Distinct, map, Bool-cases,
}
use quptime.Config.Types.{Alert}
use quptime.Config.Cluster.{
  contains, Collected, add_alert, add_found, add_listed, add_defaults, find_alert,
}

abbrev pub alert_ids_of : List Alert → List String
alert_ids_of = map (λ a. a.id)

pub contains_iff : (xs : List String) (s : String) → (contains xs s ≡ true) ↔ In s xs
contains_iff [] s = (λ h. cc, λ h. absurd h)
contains_iff (x ∷ xs) s = ground (arith, eq_iff x s, contains_iff xs s)

-- The alert may fire: it is enabled, and suppressed neither by id nor by name.
abbrev pub MayFire : List String → Alert → Type 0
MayFire suppress a =
    (a.disabled ≡ false) × (contains suppress a.id ≡ false) × (contains suppress a.name ≡ false)

In-ids-append :
    (x : String) (xs : List Alert) (a : Alert)
    → In x (alert_ids_of (xs ++ a ∷ []))
    → (x ≡ a.id) ⊎ In x (alert_ids_of xs)
In-ids-append x [] a (inl e) = inl e
In-ids-append x [] a (inr m) = absurd m
In-ids-append x (y ∷ ys) a h = ground (arith, In-ids-append x ys a)

ids-append-In :
    (x : String) (xs : List Alert) (a : Alert)
    → (x ≡ a.id) ⊎ In x (alert_ids_of xs)
    → In x (alert_ids_of (xs ++ a ∷ []))
ids-append-In x [] a h = h
ids-append-In x (y ∷ ys) a h = ground (arith, ids-append-In x ys a)

Distinct-ids-append :
    (xs : List Alert) (a : Alert)
    → Distinct (alert_ids_of xs)
    → ¬ In a.id (alert_ids_of xs)
    → Distinct (alert_ids_of (xs ++ a ∷ []))
Distinct-ids-append [] a d h = (λ m. m, tt)
Distinct-ids-append (y ∷ ys) a d h = (
  λ m. elim (In-ids-append y.id ys a m) [ inl e ↦ ground arith | inr r ↦ d.0 r ],
  Distinct-ids-append ys a d.1 (λ m. h (inr m)),
)

-- The loops' invariant: the ids are distinct, `seen` holds them, and every alert so far has `P`.
pub record Collects (P : Alert → Type 0) (s : Collected) : Type 0 where
  pub distinct : Distinct (alert_ids_of s.out)
  pub out_seen : (x : String) → In x (alert_ids_of s.out) → In x s.seen
  pub seen_out : (x : String) → In x s.seen → In x (alert_ids_of s.out)
  pub each : (a : Alert) → In a s.out → P a

module _ (suppress : List String) (P : Alert → Type 0) where
  pushed-Collects :
      (a : Alert) (s : Collected)
      → Collects P s
      → ¬ In a.id s.seen
      → P a
      → Collects P (record { seen = a.id ∷ s.seen; out = s.out ++ a ∷ [] })
  pushed-Collects a s v fresh p = record {
    distinct = Distinct-ids-append s.out a v.distinct (λ m. fresh (v.out_seen a.id m));
    out_seen =
        λ x m. elim (In-ids-append x s.out a m) [ inl e ↦ inl e | inr r ↦ inr (v.out_seen x r) ];
    seen_out =
        λ x m. ids-append-In x s.out a (elim m [ inl e ↦ inl e | inr r ↦ inr (v.seen_out x r) ]);
    each = λ b m. elim (In-append b s.out (a ∷ []) m) [
      | inl r ↦ v.each b r
      | inr (inl e) ↦ rw e p
      | inr (inr r) ↦ absurd r
    ];
  }

  -- what `add` does: nothing where the alert may not fire or is in already, and else append
  add_alert-cases :
      (a : Alert) (s : Collected)
      → ((add_alert suppress a s ≡ s) × (MayFire suppress a → In a.id s.seen))
        ⊎ ((add_alert suppress a s ≡ record { seen = a.id ∷ s.seen; out = s.out ++ a ∷ [] })
            × MayFire suppress a
            × (¬ In a.id s.seen))
  unfolding add_alert
  add_alert-cases a s = elim (Bool-cases (contains s.seen a.id)) [
    | inl e ↦ inl (ground arith, λ h. (contains_iff s.seen a.id).0 e)
    | inr e ↦ elim (Bool-cases a.disabled) [
      | inl f ↦ inl (rw f, λ h. absurd (ground arith))
      | inr f ↦ elim (Bool-cases (contains suppress a.id)) [
        | inl g ↦ inl (rw (f, e, g), λ h. absurd (ground arith))
        | inr g ↦ elim (Bool-cases (contains suppress a.name)) [
          | inl k ↦ inl (rw (f, e, g, k), λ h. absurd (ground arith))
          | inr k ↦ inr (rw (f, e, g, k), (f, g, k), λ m. ground (arith, contains_iff s.seen a.id))
        ]
      ]
    ]
  ]

  add_alert-Collects :
      (a : Alert) (s : Collected)
      → Collects P s
      → (MayFire suppress a → P a)
      → Collects P (add_alert suppress a s)
  add_alert-Collects a s v p = elim (add_alert-cases a s) [
    | inl h ↦ rw h.0 v
    | inr h ↦ rw h.0 (pushed-Collects a s v h.2 (p h.1))
  ]

  -- an alert that may fire is in afterwards, and what was in stays in
  pub add_alert-In :
      (a : Alert) (s : Collected)
      → (MayFire suppress a → In a.id (add_alert suppress a s).seen)
        × ((x : String) → In x s.seen → In x (add_alert suppress a s).seen)
  add_alert-In a s = elim (add_alert-cases a s) [
    | inl h ↦ (λ f. rw h.0 (h.1 f), λ x m. rw h.0 m)
    | inr h ↦ (λ f. rw h.0 (inl refl), λ x m. rw h.0 (inr m))
  ]

module _ (suppress : List String) (P : Alert → Type 0) (alerts : List Alert) where
  pub add_defaults-Collects :
      (rest : List Alert) (s : Collected)
      → Collects P s
      → ((a : Alert) → In a rest → a.default ≡ true → MayFire suppress a → P a)
      → Collects P (add_defaults suppress rest s)
  unfolding add_defaults
  add_defaults-Collects [] s v p = v
  add_defaults-Collects (a ∷ rest) s v p = elim (Bool-cases a.default) [
    | inl e ↦ simp e (
        add_defaults-Collects rest (add_alert suppress a s)
          (add_alert-Collects suppress P a s v (p a (inl refl) e)) (λ b m. p b (inr m)))
    | inr e ↦ rw e (add_defaults-Collects rest s v (λ b m. p b (inr m)))
  ]

  add_found-Collects :
      (o : Option Alert) (s : Collected)
      → Collects P s
      → ((a : Alert) → o ≡ some a → MayFire suppress a → P a)
      → Collects P (add_found suppress o s)
  unfolding add_found
  add_found-Collects none s v p = v
  add_found-Collects (some a) s v p = add_alert-Collects suppress P a s v (p a refl)

  pub add_listed-Collects :
      (wants : List String) (s : Collected)
      → Collects P s
      → ((want : String) (a : Alert)
          → In want wants
          → find_alert want alerts ≡ some a
          → MayFire suppress a
          → P a)
      → Collects P (add_listed suppress alerts wants s)
  unfolding add_listed
  add_listed-Collects [] s v p = v
  add_listed-Collects (w ∷ wants) s v p =
      add_listed-Collects wants (add_found suppress (find_alert w alerts) s)
        (add_found-Collects (find_alert w alerts) s v (λ a e. p w a (inl refl) e))
        (λ x a m. p x a (inr m))

module _ (suppress : List String) (alerts : List Alert) (x : String) where
  -- what was in stays in
  pub add_found_mono :
      (o : Option Alert) (s : Collected) → In x s.seen → In x (add_found suppress o s).seen
  unfolding add_found
  add_found_mono none s m = m
  add_found_mono (some a) s m = (add_alert-In suppress (λ b. Unit) a s).1 x m

  pub add_listed_mono :
      (wants : List String) (s : Collected)
      → In x s.seen
      → In x (add_listed suppress alerts wants s).seen
  unfolding add_listed
  add_listed_mono [] s m = m
  add_listed_mono (w ∷ wants) s m =
      add_listed_mono wants _ (add_found_mono (find_alert w alerts) s m)

  pub add_defaults_mono :
      (rest : List Alert) (s : Collected) → In x s.seen → In x (add_defaults suppress rest s).seen
  unfolding add_defaults
  add_defaults_mono [] s m = m
  add_defaults_mono (a ∷ rest) s m = elim (Bool-cases a.default) [
    | inl e ↦ simp e (add_defaults_mono rest _ ((add_alert-In suppress (λ b. Unit) a s).1 x m))
    | inr e ↦ rw e (add_defaults_mono rest s m)
  ]
