-- ===== src/Checks/Aggregator/Submit.antt =====
-- `Submit` and `evaluate` of internal/checks/aggregator.go on the map of checks.
use quptime.Prelude.{
  ℕ, String, Option, none, some, true, false, ap, ◌≡◌, ◌≢◌, ◌↔◌, inl, inr, arith, eq_iff, lookup,
  insert, lookup-insert, lookup-remove, if◌then◌else◌, ◌==◌, leb, ◌+◌, refl, ◌∙◌,
  lookup-insert_self, Option-cases, Bool-cases,
}
use quptime.Config.Types.{Check, ClusterConfig}
use quptime.Checks.Aggregator.{
  CheckState, ProbeResult, Aggregator, Transition, fires, hold, advance, candidate_for,
  snapshot_locked, record_result, or_fresh, evaluate_check, evaluate_state, submit, lookup_check,
  NodeResult, State, state_eq, verdict, tally, no_votes, fresh_window_for,
}
use quptime.Checks.Aggregator.Hysteresis.{fires_iff, state_eq_iff}

evaluate_check-other :
    (c : ClusterConfig) (now : ℕ) (id j : String) (o : Option Check) (a : Aggregator)
    → j ≢ id
    → lookup j (evaluate_check c now id o a).0 ≡ lookup j a
unfolding evaluate_check
evaluate_check-other c now id j none a n = ground (arith, lookup-remove id j a, eq_iff id j)
evaluate_check-other c now id j (some check) a n = elim (Option-cases (lookup id a)) [
  | inl e ↦ ground arith
  | inr (st, e) ↦
      ground (arith, lookup-insert id j (advance (candidate_for check now st) st) a, eq_iff id j)
]

-- A result for one check changes the state of no other check.
pub submit-other :
    (c : ClusterConfig) (now : ℕ) (node_id j : String) (r : ProbeResult) (a : Aggregator)
    → j ≢ r.check_id
    → lookup j (submit c now node_id r a).0 ≡ lookup j a
unfolding submit
submit-other c now node_id j r a n =
    let st = record_result node_id r (or_fresh (lookup r.check_id a)) in
    ground (
      arith,
      evaluate_check-other c now r.check_id j (lookup_check r.check_id c.checks)
          (insert r.check_id st a) n,
      lookup-insert r.check_id j st a,
      eq_iff r.check_id j,
    )

-- How an evaluation of a check in state `st` ends.
abbrev Evaluated :
    ClusterConfig → ℕ → String → Check → CheckState → Aggregator × Option Transition → Type 0
Evaluated c now id check st e =
    let verdict = candidate_for check now st in
    let st' = advance verdict st in
    (lookup id e.0 ≡ some st')
    × ((e.1 ≡ none) ↔ (st'.committed ≡ st.committed))
    × ((t : Transition)
        → e.1 ≡ some t
        → (t.check ≡ check)
          × (t.from ≡ st.committed)
          × (t.to ≡ st'.committed)
          × (t.snapshot ≡ snapshot_locked c now id st'))

evaluate_state-Evaluated :
    (c : ClusterConfig) (now : ℕ) (id : String) (check : Check) (st : CheckState) (a : Aggregator)
    → Evaluated c now id check st (evaluate_state c now id check (some st) a)
unfolding evaluate_state
evaluate_state-Evaluated c now id check st a =
    let verdict = candidate_for check now st in
    let fire = fires_iff verdict st in
    elim (Bool-cases (fires verdict (hold verdict st))) [
      | inl f ↦ (
        lookup-insert_self id (advance verdict st) a,
        (λ e. ground arith, λ e. absurd (fire.0.0 f e)),
        λ t e. ground (arith, fire.1 f),
      )
      | inr f ↦ (
        lookup-insert_self id (advance verdict st) a,
        (λ e. fire.2 f, λ e. ground arith),
        λ t e. absurd (ground arith),
      )
    ]

module _ (c : ClusterConfig) (now : ℕ) (node_id : String) (r : ProbeResult) (a : Aggregator)
    (named : r.check_id ≢ "") where
  -- A result for a check that is no longer configured leaves no state of it, and fires nothing.
  pub submit-removed :
      lookup_check r.check_id c.checks ≡ none
      → (lookup r.check_id (submit c now node_id r a).0 ≡ none)
        × ((submit c now node_id r a).1 ≡ none)
  unfolding submit
  submit-removed gone =
      let st = record_result node_id r (or_fresh (lookup r.check_id a)) in
      ground (
        arith,
        lookup-remove r.check_id r.check_id (insert r.check_id st a),
        eq_iff r.check_id "",
        eq_iff r.check_id r.check_id,
      )

  submit-evaluates :
      (check : Check)
      → lookup_check r.check_id c.checks ≡ some check
      → let st = record_result node_id r (or_fresh (lookup r.check_id a)) in
        submit c now node_id r a
        ≡ evaluate_state c now r.check_id check (some st) (insert r.check_id st a)
  unfolding submit
  submit-evaluates check found =
      let st = record_result node_id r (or_fresh (lookup r.check_id a)) in
      ground (arith, eq_iff r.check_id "", lookup-insert_self r.check_id st a)

  -- the state of the check and the callback after `Submit`, by its own operations
  pub submit-steps :
      (check : Check)
      → lookup_check r.check_id c.checks ≡ some check
      → let st = record_result node_id r (or_fresh (lookup r.check_id a)) in
        let verdict = candidate_for check now st in
        let st' = advance verdict st in
        (lookup r.check_id (submit c now node_id r a).0 ≡ some st')
        × (((submit c now node_id r a).1 ≡ none) ↔ (st'.committed ≡ st.committed))
        × ((t : Transition)
            → (submit c now node_id r a).1 ≡ some t
            → (t.check ≡ check)
              × (t.from ≡ st.committed)
              × (t.to ≡ st'.committed)
              × (t.snapshot ≡ snapshot_locked c now r.check_id st'))
  unfolding submit
  submit-steps check found =
      let st = record_result node_id r (or_fresh (lookup r.check_id a)) in
      let b = insert r.check_id st a in
      let ran = submit-evaluates check found in
      rw ran (evaluate_state-Evaluated c now r.check_id check st b)

-- The result of one node, as the aggregator keeps it.
abbrev pub heard : ProbeResult → NodeResult
heard r = record { ok = r.ok; detail = r.detail; at = r.timestamp }

-- What a result of a node leaves of a check that was in state `before`.
pub record Submitted (c : ClusterConfig) (now : ℕ) (check : Check) (node_id : String)
    (r : ProbeResult) (before : CheckState) (e : Aggregator × Option Transition) : Type 0 where
  pub after : CheckState
  pub held : lookup r.check_id e.0 ≡ some after
  -- the result takes the place of the node's last one, and the others stay
  pub recorded :
      (id : String)
      → lookup id after.latest ≡ (if node_id == id then some (heard r) else lookup id before.latest)
  -- the verdict is that of the results that the check then has
  pub voted :
      after.candidate ≡ verdict (tally (fresh_window_for check.interval) now after.latest no_votes)
  pub counted :
      after.consecutive
      ≡ (if state_eq after.candidate before.candidate then before.consecutive + 1 else 1)
  -- two in a row are announced
  pub announced :
      after.committed ≡ (if leb 2 after.consecutive then after.candidate else before.committed)
  pub called : e.1 ≡ (
      if state_eq after.committed before.committed
      then none
      else some (record {
        check = check;
        from = before.committed;
        to = after.committed;
        snapshot = snapshot_locked c now r.check_id after;
      }))

advance-candidate : (v : State) (st : CheckState) → (advance v st).candidate ≡ v
unfolding advance hold
advance-candidate v st = ground (arith, state_eq_iff v st.candidate)

advance-consecutive :
    (v : State) (st : CheckState)
    → (advance v st).consecutive ≡ (if state_eq v st.candidate then st.consecutive + 1 else 1)
unfolding advance hold
advance-consecutive v st = ground arith

advance-committed :
    (v : State) (st : CheckState)
    → (advance v st).committed ≡ (if leb 2 (advance v st).consecutive then v else st.committed)
unfolding advance hold fires
advance-committed v st = ground (arith, state_eq_iff v st.candidate, state_eq_iff v st.committed)

pub advance-latest : (v : State) (st : CheckState) → (advance v st).latest ≡ st.latest
unfolding advance hold
advance-latest v st = ground arith

-- the callback that an evaluation in state `st` with verdict `v` makes
module _ (c : ClusterConfig) (now : ℕ) (id : String) (check : Check) (st : CheckState) where
  abbrev call : Option Transition
  call =
      let st' = advance (candidate_for check now st) st in
      if state_eq st'.committed st.committed
      then none
      else some (record {
        check = check;
        from = st.committed;
        to = st'.committed;
        snapshot = snapshot_locked c now id st';
      })

  evaluate_state-call : (a : Aggregator) → (evaluate_state c now id check (some st) a).1 ≡ call
  unfolding evaluate_state
  evaluate_state-call a =
      let v = candidate_for check now st in
      let fire = fires_iff v st in
      let agree = state_eq_iff (advance v st).committed st.committed in
      elim (Bool-cases (fires v (hold v st))) [
        | inl f ↦
            let off : state_eq v st.committed ≡ false =
              ground (arith, state_eq_iff v st.committed, fire.0.0 f, fire.1 f) in
            simp (f, off, fire.1 f) refl
        | inr f ↦
            let on : state_eq (advance v st).committed st.committed ≡ true = agree.1 (fire.2 f) in
            simp (f, on) refl
      ]

-- A result for a configured check is recorded in the place of the node's last one and nowhere else;
-- the next state is one step of the hysteresis with the verdict over the results that the check then
-- has; and the callback is called exactly if the announced state changes, with the check, the states
-- before and after, and the snapshot of the new state.
pub submit-configured :
    (c : ClusterConfig) (now : ℕ) (node_id : String) (r : ProbeResult) (a : Aggregator)
    (check : Check)
    → r.check_id ≢ ""
    → lookup_check r.check_id c.checks ≡ some check
    → Submitted c now check node_id r (or_fresh (lookup r.check_id a)) (submit c now node_id r a)
unfolding candidate_for record_result
submit-configured c now node_id r a check named found =
    let before = or_fresh (lookup r.check_id a) in
    let st = record_result node_id r before in
    let v = candidate_for check now st in
    let after = advance v st in
    let ran = submit-evaluates c now node_id r a named check found in
    record {
      after = after;
      held = (submit-steps c now node_id r a named check found).0;
      recorded = λ id.
          ap (λ l. lookup id l) (advance-latest v st)
          ∙ lookup-insert node_id id (heard r) before.latest;
      voted = rw (advance-candidate v st, advance-latest v st) refl;
      counted = rw (advance-candidate v st) (advance-consecutive v st);
      announced = rw (advance-candidate v st) (advance-committed v st);
      called =
          ap (λ e. e.1) ran
          ∙ evaluate_state-call c now r.check_id check st (insert r.check_id st a);
    }
