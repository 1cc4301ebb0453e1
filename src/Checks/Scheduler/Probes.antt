-- ===== src/Checks/Scheduler/Probes.antt =====
-- Which probes run after `reconcile` of internal/checks/scheduler.go.
use quptime.Prelude.{
  String, true, false, Option, none, some, List, [], ◌∷◌, ◌≡◌, ◌≢◌, refl, sym, ap, ◌∙◌, inl, inr,
  arith, ◌==◌, eq_iff, lookup, lookup-insert, lookup-insert_self, In, Bool-cases, Option-cases,
}
use quptime.Prelude.Int.{ℤ}
use quptime.Config.Types.{Check, ClusterConfig}
use quptime.Checks.Scheduler.{
  Net, want_all, same_check, goes_on, cancel_stale, start_missing, start_all, reconcile,
}
use quptime.Checks.Scheduler.Wanted.{
  retuned, Wanted, same_check-retuned, same_check_refl, want_all-Wanted, want_all_complete,
  want_all-Distinct, In-lookup, lookup-In,
}

module _ (want : List (String × Check)) where
  -- each worker of the map is wanted as it is
  abbrev Current : List (String × Check) → Type 0
  Current running =
      (id : String) (w : Check) → lookup id running ≡ some w → goes_on w (lookup id want) ≡ true

  cancel_stale-Current : (running : List (String × Check)) → Current (cancel_stale want running)
  unfolding cancel_stale lookup
  cancel_stale-Current [] id w h = cc
  cancel_stale-Current ((j, v) ∷ rest) id w h =
      ground (arith, eq_iff j id, cancel_stale-Current rest id w, h)

  cancel_stale-kept :
      (running : List (String × Check)) (id : String) (w : Check)
      → lookup id running ≡ some w
      → goes_on w (lookup id want) ≡ true
      → lookup id (cancel_stale want running) ≡ some w
  unfolding cancel_stale lookup
  cancel_stale-kept [] id w h g = cc
  cancel_stale-kept ((j, v) ∷ rest) id w h g =
      ground (arith, eq_iff j id, cancel_stale-kept rest id w, h, g)

  start_missing-Current :
      (running : List (String × Check)) (id : String) (c : Check) (o : Option Check)
      → lookup id want ≡ some c
      → Current running
      → Current (start_missing id c running o)
  unfolding start_missing goes_on
  start_missing-Current running id c (some v) e h = h
  start_missing-Current running id c none e h = λ j w k. elim (Bool-cases (id == j)) [
    | inl q ↦
        let i : id ≡ j = (eq_iff id j).0 q in
        let put : some c ≡ some w = simp (lookup-insert id j c running, q) at k in
        let same : c ≡ w = cc in rw (← i) (rw e (rw same (same_check_refl w)))
    | inr q ↦ h j w (simp (lookup-insert id j c running, q) at k)
  ]

  start_all-Current :
      (rest running : List (String × Check))
      → ((id : String) (c : Check) → In (id, c) rest → lookup id want ≡ some c)
      → Current running
      → Current (start_all rest running)
  unfolding start_all
  start_all-Current [] running own h = h
  start_all-Current ((id, c) ∷ rest) running own h =
      start_all-Current rest _ (λ j d m. own j d (inr m))
        (start_missing-Current running id c (lookup id running) (own id c (inl refl)) h)

start_missing-kept :
    (running : List (String × Check)) (j id : String) (c w : Check) (o : Option Check)
    → lookup j running ≡ o
    → lookup id running ≡ some w
    → lookup id (start_missing j c running o) ≡ some w
unfolding start_missing
start_missing-kept running j id c w (some v) e h = h
start_missing-kept running j id c w none e h =
    let other : (j == id) ≡ false = elim (Bool-cases (j == id)) [
      | inl q ↦
          let i : j ≡ id = (eq_iff j id).0 q in
          let absent : lookup id running ≡ none = rw i at e in
          let bad : none ≡ some w = sym absent ∙ h in cc
      | inr q ↦ q
    ] in
    simp (lookup-insert j id c running, other, h)

start_all-kept :
    (rest running : List (String × Check)) (id : String) (w : Check)
    → lookup id running ≡ some w
    → lookup id (start_all rest running) ≡ some w
unfolding start_all
start_all-kept [] running id w h = h
start_all-kept ((j, c) ∷ rest) running id w h =
    start_all-kept rest _ id w (start_missing-kept running j id c w (lookup j running) refl h)

start_missing-starts :
    (running : List (String × Check)) (j id : String) (c : Check) (o : Option Check)
    → j ≡ id
    → lookup j running ≡ o
    → (w : Check) × (lookup id (start_missing j c running o) ≡ some w)
unfolding start_missing
start_missing-starts running j id c none p e = (c, rw p (lookup-insert_self id c running))
start_missing-starts running j id c (some w) p e = (w, rw p at e)

start_all_complete :
    (rest running : List (String × Check)) (id : String) (c : Check)
    → In (id, c) rest
    → (w : Check) × (lookup id (start_all rest running) ≡ some w)
unfolding start_all
start_all_complete [] running id c m = absurd m
start_all_complete ((j, d) ∷ rest) running id c (inl e) =
    let i : j ≡ id = sym (ap (λ (p : String × Check). p.0) e) in
    let (w, h) = start_missing-starts running j id d (lookup j running) i refl in
    (w, start_all-kept rest _ id w h)
start_all_complete ((j, d) ∷ rest) running id c (inr m) = start_all_complete rest _ id c m

-- The workers are those of the configuration: each one probes what some enabled check under its id
-- asks for, as far as `sameCheck` looks, and each enabled check with an id has one.
pub record Probing (net : Net) (c : ClusterConfig) (running : List (String × Check)) : Type 0 where
  pub current :
      (id : String) (w : Check)
      → lookup id running ≡ some w
      → (d : Check) × Wanted net c.resolvers c.checks id d × (same_check d w ≡ true)
  pub complete :
      (check : Check)
      → In check c.checks
      → check.id ≢ ""
      → check.disabled ≡ false
      → lookup check.id running ≢ none

goes_on-same :
    (w : Check) (o : Option Check)
    → goes_on w o ≡ true
    → (d : Check) × (o ≡ some d) × (same_check d w ≡ true)
unfolding goes_on
goes_on-same w none h = cc
goes_on-same w (some d) h = (d, refl, h)

-- After `reconcile`, whatever ran before, each worker probes what some enabled check under its id
-- asks for, as far as `sameCheck` looks, and each enabled check with an id has a worker.
pub reconcile-Probing :
    (net : Net) (c : ClusterConfig) (running : List (String × Check))
    → Probing net c (reconcile net c running)
unfolding reconcile lookup
reconcile-Probing net c running =
    let want = want_all net c.resolvers c.checks [] in
    let distinct = want_all-Distinct net c.resolvers c.checks [] tt in
    record {
      current = λ id w h.
          let on =
            start_all-Current want want (cancel_stale want running)
              (λ j d m. In-lookup want j d distinct m) (cancel_stale-Current want running) id w h in
          let (d, e, same) = goes_on-same w (lookup id want) on in
          elim (want_all-Wanted net c.resolvers c.checks [] id d e) [
            | inl q ↦ let bad : none ≡ some d = q in cc
            | inr f ↦ (d, f, same)
          ];
      complete = λ check m n e. elim (Option-cases (lookup check.id want)) [
        | inl q ↦ absurd (want_all_complete net c.resolvers c.checks [] check m n e q)
        | inr (d, q) ↦
            let (w, k) =
              start_all_complete want (cancel_stale want running) check.id d
                (lookup-In want check.id d q) in
            λ z. let bad : some w ≡ none = sym k ∙ z in cc
      ];
    }

-- A worker is left as it is where only the TLS and DNS settings of its check are edited, which
-- `sameCheck` does not compare: it goes on with the old ones.
pub reconcile-stale :
    (net : Net) (c : ClusterConfig) (running : List (String × Check)) (id : String) (w : Check)
    (warn_days : ℤ) (server_name dns_record dns_expect : String)
    → lookup id running ≡ some w
    → lookup id (want_all net c.resolvers c.checks [])
      ≡ some (retuned warn_days server_name dns_record dns_expect w)
    → lookup id (reconcile net c running) ≡ some w
unfolding reconcile goes_on
reconcile-stale net c running id w d n r x h k =
    let want = want_all net c.resolvers c.checks [] in
    start_all-kept want (cancel_stale want running) id w
      (cancel_stale-kept want running id w h (rw k (same_check-retuned d n r x w)))
