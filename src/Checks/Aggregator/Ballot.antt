-- ===== src/Checks/Aggregator/Ballot.antt =====
-- The results that internal/checks/aggregator.go holds for a check, as a map: a quotient that forgets
-- the order in which Go ranges over it, and with it the order in which the nodes reported.
use mathlib.Core.Option.{map as map_option}
use mathlib.Core.Quot
use mathlib.Core.Quot.{Quot, Quot-set}
use quptime.Prelude.{
  ℕ, ◌+◌, String, Bool, true, false, some, List, [], ◌∷◌, ◌≡◌, ◌≢◌, refl, sym, ap, ◌∙◌, arith,
  eq_iff, if◌then◌else◌, lookup, insert, remove, keys, lookup-remove, Distinct, In,
  Distinct-keys-insert, Distinct-keys-remove, remove-absent, lookup-absent, Option, Bool-cases,
  Option-cases, inl, inr, eq_refl, ◌==◌,
}
use quptime.Config.Types.{Check, ClusterConfig}
use quptime.Checks.Aggregator.{
  State, NodeResult, ProbeResult, CheckState, no_votes, tally, verdict, fresh_window_for,
  candidate_for, record_result, Aggregator, submit, or_fresh, lookup_check,
}
use quptime.Checks.Aggregator.Submit.{
  heard, advance-latest, submit-steps, submit-configured, submit-other, submit-removed,
}
use quptime.Checks.Aggregator.Votes.{is_vote, votes, tally-votes}

abbrev Results : Type 0
Results = List (String × NodeResult)

-- Two lists hold the same map.
abbrev Same : Results → Results → Type 0
Same xs ys = (id : String) → lookup id xs ≡ lookup id ys

module _ (ok : Bool) (window now : ℕ) where
  votes-remove :
      (id : String) (nr : NodeResult) (m : Results)
      → Distinct (keys m)
      → lookup id m ≡ some nr
      → votes ok window now m
        ≡ (if is_vote ok window now nr then 1 else 0) + votes ok window now (remove id m)
  unfolding lookup remove
  votes-remove id nr [] d h = cc
  votes-remove id nr ((k, x) ∷ m) d h = elim (Bool-cases (k == id)) [
    | inl e ↦
        let same : x ≡ nr = ground (arith, e) in
        let gone : remove id m ≡ m = remove-absent id m (λ i. d.0 (rw ((eq_iff k id).0 e) i)) in
        simp (e, same, gone)
    | inr n ↦ ground (arith, n, votes-remove id nr m d.1)
  ]

Same-remove :
    (id : String) (nr : NodeResult) (xs ys : Results)
    → ¬ In id (keys xs)
    → Same ((id, nr) ∷ xs) ys
    → Same xs (remove id ys)
unfolding lookup
Same-remove id nr xs ys n h j =
    ground (arith, h j, lookup-remove id j ys, eq_iff id j, lookup-absent id xs n)

votes-Same :
    (ok : Bool) (window now : ℕ) (xs ys : Results)
    → Distinct (keys xs)
    → Distinct (keys ys)
    → Same xs ys
    → votes ok window now xs ≡ votes ok window now ys
unfolding lookup
votes-Same ok window now [] [] d e h = refl
votes-Same ok window now [] ((k, y) ∷ ys) d e h = absurd (ground (arith, h k, eq_refl k))
votes-Same ok window now ((k, x) ∷ xs) ys d e h = omega (
  arith,
  votes-remove ok window now k x ys e (ground (arith, h k, eq_refl k)),
  votes-Same ok window now xs (remove k ys) d.1 (Distinct-keys-remove k ys e)
      (Same-remove k x xs ys d.0 h),
)

-- A map that a check may hold, and the maps up to their order.
abbrev Held : Type 0
Held = (m : Results) × Distinct (keys m)

abbrev Ballot : Type 0
Ballot = Quot {α = Held} (λ a b. Same a.0 b.0)

State-set : IsSet State
State-set = hlevel

verdict-Same :
    (window now : ℕ) (a b : Held)
    → Same a.0 b.0
    → verdict (tally window now a.0 no_votes) ≡ verdict (tally window now b.0 no_votes)
unfolding verdict
verdict-Same window now a b h = ground (
  arith,
  tally-votes window now a.0 no_votes,
  tally-votes window now b.0 no_votes,
  votes-Same true window now a.0 b.0 a.1 b.1 h,
  votes-Same false window now a.0 b.0 a.1 b.1 h,
)

-- the verdict as a function of the map
ruling : ℕ → ℕ → Ballot → State
ruling window now =
    Quot.lift State-set (λ m. verdict (tally window now m.0 no_votes)) (verdict-Same window now)

-- the calls of `Submit` that came in, newest first, each with its time and node
abbrev pub Calls : Type 0
Calls = List (ℕ × String × ProbeResult)

unfoldable pub submit_all : ClusterConfig → Calls → Aggregator
submit_all c [] = []
submit_all c ((now, node_id, r) ∷ before) = (submit c now node_id r (submit_all c before)).0

-- the results for one check among them, each with its node
unfoldable pub reports : String → Calls → List (String × ProbeResult)
reports id [] = []
reports id ((now, node_id, r) ∷ before) =
    let rest = reports id before in if r.check_id == id then (node_id, r) ∷ rest else rest

abbrev map_of : Option CheckState → Results
map_of o = (or_fresh o).latest

-- the map that the aggregator has for a check
abbrev pub latest : String → Aggregator → Results
latest id a = map_of (lookup id a)

module _ (c : ClusterConfig) (now : ℕ) (node_id : String) (r : ProbeResult) (a : Aggregator) where
  Distinct-own :
      Distinct (keys (latest r.check_id a))
      → Distinct (keys (latest r.check_id (submit c now node_id r a).0))
  unfolding submit record_result
  Distinct-own d = elim (Bool-cases (r.check_id == "")) [
    | inl e ↦ simp e d
    | inr e ↦
        let named : r.check_id ≢ "" = ground (arith, eq_iff r.check_id "") in
        elim (Option-cases (lookup_check r.check_id c.checks)) [
          | inl f ↦
              let gone : latest r.check_id (submit c now node_id r a).0 ≡ [] =
                ap map_of (submit-removed c now node_id r a named f).0 in
              rw gone tt
          | inr (check, f) ↦
              let st = record_result node_id r (or_fresh (lookup r.check_id a)) in
              let own : latest r.check_id (submit c now node_id r a).0
                  ≡ insert node_id (heard r) (latest r.check_id a) =
                ap map_of (submit-steps c now node_id r a named check f).0
                ∙ advance-latest (candidate_for check now st) st in
              rw own (Distinct-keys-insert node_id (heard r) (latest r.check_id a) d)
        ]
  ]

  Distinct-submit :
      (id : String)
      → Distinct (keys (latest id a))
      → Distinct (keys (latest id (submit c now node_id r a).0))
  Distinct-submit id d = elim (Bool-cases (id == r.check_id)) [
    | inl e ↦ let same = (eq_iff id r.check_id).0 e in rw same (Distinct-own (rw same at d))
    | inr e ↦
        let other : latest id (submit c now node_id r a).0 ≡ latest id a =
          ap map_of (submit-other c now node_id id r a (ground (arith, eq_iff id r.check_id))) in
        rw other d
  ]

pub Distinct-latest :
    (c : ClusterConfig) (id : String) (calls : Calls)
    → Distinct (keys (latest id (submit_all c calls)))
unfolding submit_all lookup
Distinct-latest c id [] = tt
Distinct-latest c id ((now, node_id, r) ∷ before) =
    Distinct-submit c now node_id r (submit_all c before) id (Distinct-latest c id before)

-- This map up to its order.
unfoldable pub ballot : ClusterConfig → String → Calls → Ballot
ballot c id calls = Quot.mk (latest id (submit_all c calls), Distinct-latest c id calls)

module _ (c : ClusterConfig) (id : String) (check : Check) (named : id ≢ "")
    (found : lookup_check id c.checks ≡ some check) where
  -- a result for the check is recorded, and one for another check leaves the map
  lookup-submit :
      (n : String) (now : ℕ) (node_id : String) (r : ProbeResult) (a : Aggregator)
      → lookup n (latest id (submit c now node_id r a).0) ≡ (
          if r.check_id == id
          then (if node_id == n then some (heard r) else lookup n (latest id a))
          else lookup n (latest id a))
  lookup-submit n now node_id r a = elim (Bool-cases (r.check_id == id)) [
    | inl e ↦
        let same = (eq_iff r.check_id id).0 e in
        let s =
          submit-configured c now node_id r a check (λ q. named (sym same ∙ q))
            (ap (λ i. lookup_check i c.checks) same ∙ found) in
        let held : latest r.check_id (submit c now node_id r a).0 ≡ s.after.latest =
          ap map_of s.held in
        simp e (rw (← same) (ap (lookup n) held ∙ s.recorded n))
    | inr e ↦ simp e (
        ap (λ o. lookup n (map_of o))
          (submit-other c now node_id id r a (ground (arith, eq_iff r.check_id id))))
  ]

  lookup-latest :
      (n : String) (calls : Calls)
      → lookup n (latest id (submit_all c calls)) ≡ map_option heard (lookup n (reports id calls))
  unfolding submit_all reports lookup
  lookup-latest n [] = refl
  lookup-latest n ((now, node_id, r) ∷ before) =
      ground (arith, lookup-submit n now node_id r (submit_all c before), lookup-latest n before)

  -- After any calls of `Submit`, for this check and others, in whatever order and at whatever times,
  -- a configured check holds exactly the last result of each node for it; so the map that it holds,
  -- up to its order, and the verdict of its next evaluation, at any time, are the same after any
  -- calls with the same last results.
  pub submit_all-last_words :
      (xs ys : Calls)
      → ((n : String) → lookup n (reports id xs) ≡ lookup n (reports id ys))
      → ((n : String)
          → lookup n (latest id (submit_all c xs)) ≡ map_option heard (lookup n (reports id xs)))
        × (ballot c id xs ≡ ballot c id ys)
        × ((now : ℕ)
            → candidate_for check now (or_fresh (lookup id (submit_all c xs)))
              ≡ candidate_for check now (or_fresh (lookup id (submit_all c ys))))
  unfolding candidate_for ballot ruling
  submit_all-last_words xs ys h =
      let same : ballot c id xs ≡ ballot c id ys =
        Quot.sound
          (λ n. lookup-latest n xs ∙ ap (map_option heard) (h n) ∙ sym (lookup-latest n ys)) in
      (λ n. lookup-latest n xs, same, λ now. ap (ruling (fresh_window_for check.interval) now) same)
