-- ===== src/Alerts/Delivery.antt =====
-- What `OnTransition` and `TestCheck` of internal/alerts/dispatcher.go dispatch.
use quptime.Prelude.{
  ℕ, String, true, Option, none, some, List, [], ◌∷◌, ◌≡◌, ◌≢◌, refl, ◌↔◌, ◌⊎◌, inl, inr, arith, In,
  map, length, ap, Bool-cases,
}
use quptime.Config.Types.{Alert, Check, ClusterConfig}
use quptime.Config.Cluster.{effective_alerts_for}
use quptime.Config.Cluster.Effective.{Effective, effective_alerts_for-Effective}
use quptime.Checks.Aggregator.{State, unknown, up, down, Snapshot}
use quptime.Alerts.Dispatcher.{
  Channels, should_alert, render_for, Delivery, dispatch_one, deliver_all, on_transition,
  find_check, parse_test_state, test_check, test_snapshot, failed_alerts, note_failure, fire_test,
  test_state, test_found, report, Tested,
}

-- A transition that somebody is told of: it ends in a known state, and is no cold start into up.
abbrev pub Notifiable : State → State → Type 0
Notifiable from to = (to ≢ unknown) × ((from ≢ unknown) ⊎ (to ≢ up))

abbrev IsUnknown : State → Type 0
IsUnknown unknown = Unit
IsUnknown _ = ⊥

should_alert_iff : (from to : State) → (should_alert from to ≡ true) ↔ Notifiable from to
unfolding should_alert
should_alert_iff unknown unknown = ground arith
should_alert_iff unknown up = ground arith
should_alert_iff unknown down = ground arith
should_alert_iff up unknown = ground arith
should_alert_iff up up = ground arith
should_alert_iff up down = ground arith
should_alert_iff down unknown = ground arith
should_alert_iff down up = ground arith
should_alert_iff down down = ground arith

module _ (ch : Channels) (check : Check) (from to : State) (snap : Snapshot) where
  abbrev pub recipients : List Delivery → List Alert
  recipients = map (λ d. d.alert)

  recipients-deliver_all :
      (list : List Alert) → recipients (deliver_all ch check from to snap list) ≡ list
  unfolding deliver_all
  recipients-deliver_all [] = refl
  recipients-deliver_all (a ∷ rest) = ap (λ x. a ∷ x) (recipients-deliver_all rest)

  abbrev pub sent : ClusterConfig → List Alert
  sent c = recipients (on_transition ch c check from to snap)

  sent-Notifiable :
      (c : ClusterConfig) → Notifiable from to → sent c ≡ effective_alerts_for c (some check)
  unfolding on_transition
  sent-Notifiable c n =
      let e = (should_alert_iff from to).1 n in
      simp e (recipients-deliver_all (effective_alerts_for c (some check)))

  sent-silent : (c : ClusterConfig) → ¬ Notifiable from to → sent c ≡ []
  unfolding on_transition
  sent-silent c n = elim (Bool-cases (should_alert from to)) [
    | inl e ↦ absurd (n ((should_alert_iff from to).0 e))
    | inr e ↦ simp e refl
  ]

  -- Of a transition that ends in a known state and is no cold start into up, each channel that is
  -- enabled, not suppressed, and attached to the check is sent one message under its id, whatever
  -- becomes of the other messages, and no other channel is; of any other transition, nothing is
  -- sent.
  pub on_transition-Effective :
      (c : ClusterConfig)
      → (Notifiable from to → Effective c check (sent c)) × (¬ Notifiable from to → sent c ≡ [])
  on_transition-Effective c =
      (λ n. rw (sent-Notifiable c n) (effective_alerts_for-Effective c check).0, sent-silent c)

-- Every alert of the list delivers the message rendered for it.
abbrev pub AllDeliver : Channels → Check → State → State → Snapshot → List Alert → Type 0
AllDeliver ch check from to snap list =
    (a : Alert) → In a list → dispatch_one ch a (render_for ch a check from to snap).0 ≡ none

-- The test of a check succeeds: the check is there, the keyword is known, some alert is attached,
-- and no channel fails on the message rendered for it.
pub data Delivered (ch : Channels) (detail : Check → String) (c : ClusterConfig) (id state : String)
    : Type 0 where
  delivered :
      (check : Check) (from to : State)
      → find_check id c.checks ≡ some check
      → parse_test_state state ≡ some (from, to)
      → effective_alerts_for c (some check) ≢ []
      → AllDeliver ch check from to
          (test_snapshot detail c check to)
          (effective_alerts_for c (some check))
      → Delivered ch detail c id state

note_failure_iff :
    (a : Alert) (o : Option String) (rest : List Alert)
    → (note_failure a o rest ≡ []) ↔ ((o ≡ none) × (rest ≡ []))
unfolding note_failure
note_failure_iff a none rest = (λ e. (refl, e), λ h. h.1)
note_failure_iff a (some x) rest = (λ e. cc, λ h. cc)

report_iff : (failed : List Alert) (n : ℕ) → (report failed n ≡ none) ↔ (failed ≡ [])
report_iff [] n = (λ h. refl, λ h. refl)
report_iff (a ∷ rest) n = (λ h. cc, λ h. cc)

module _ (ch : Channels) (check : Check) (from to : State) (snap : Snapshot) where
  failed_alerts_iff :
      (list : List Alert)
      → (failed_alerts ch check from to snap list ≡ []) ↔ AllDeliver ch check from to snap list
  unfolding failed_alerts
  failed_alerts_iff [] = (λ e a m. absurd m, λ h. refl)
  failed_alerts_iff (b ∷ rest) =
      let step =
        note_failure_iff b (dispatch_one ch b (render_for ch b check from to snap).0)
          (failed_alerts ch check from to snap rest) in
      let before = failed_alerts_iff rest in
      (
        λ e a m. elim m [ inl q ↦ rw q ((step.0 e).0) | inr k ↦ before.0 (step.0 e).1 a k ],
        λ h. step.1 (h b (inl refl), before.1 (λ a m. h a (inr m))),
      )

  fire_test_iff :
      (list : List Alert)
      → ((fire_test ch check from to snap list).1 ≡ none)
        ↔ ((list ≢ []) × AllDeliver ch check from to snap list)
  unfolding fire_test
  fire_test_iff [] = (λ h. cc, λ h. absurd (h.0 refl))
  fire_test_iff (a ∷ rest) =
      let failed = failed_alerts ch check from to snap (a ∷ rest) in
      let loop = failed_alerts_iff (a ∷ rest) in
      (
        λ h. (λ e. cc, loop.0 ((report_iff failed (length (a ∷ rest))).0 h)),
        λ h. (report_iff failed (length (a ∷ rest))).1 (loop.1 h.1),
      )

module _ (ch : Channels) (detail : Check → String) (c : ClusterConfig) (id state : String) where
  abbrev Succeeds : Tested → Type 0
  Succeeds r = r.1 ≡ none

  test_state-Delivered :
      (check : Check) (o : Option (State × State))
      → find_check id c.checks ≡ some check
      → parse_test_state state ≡ o
      → Succeeds (test_state ch detail c check state o)
      → Delivered ch detail c id state
  unfolding test_state
  test_state-Delivered check none found parsed h = cc
  test_state-Delivered check (some (from, to)) found parsed h =
      let (nonempty, each) =
        (fire_test_iff ch check from to (test_snapshot detail c check to)
            (effective_alerts_for c (some check))).0
          h in
      delivered check from to found parsed nonempty each

  test_found-Delivered :
      (o : Option Check)
      → find_check id c.checks ≡ o
      → Succeeds (test_found ch detail c id state o)
      → Delivered ch detail c id state
  unfolding test_found
  test_found-Delivered none found h = cc
  test_found-Delivered (some check) found h =
      test_state-Delivered check (parse_test_state state) found refl h

  Delivered-test_found :
      Delivered ch detail c id state
      → Succeeds (test_found ch detail c id state (find_check id c.checks))
  unfolding test_found test_state
  Delivered-test_found (delivered check from to found parsed nonempty each) = rw found (
      rw parsed (
        (fire_test_iff ch check from to (test_snapshot detail c check to)
            (effective_alerts_for c (some check))).1
          (nonempty, each)))

-- `TestCheck` returns no error exactly when the check is there under its id or name, the keyword is
-- known, at least one alert is effective for the check, and every one of them delivers the message
-- rendered for it.
pub test_check_iff :
    (ch : Channels) (detail : Check → String) (c : ClusterConfig) (id state : String)
    → ((test_check ch detail c id state).1 ≡ none) ↔ Delivered ch detail c id state
unfolding test_check
test_check_iff ch detail c id state = (
  test_found-Delivered ch detail c id state (find_check id c.checks) refl,
  Delivered-test_found ch detail c id state,
)
