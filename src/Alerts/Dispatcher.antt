-- ===== src/Alerts/Dispatcher.antt =====
-- internal/alerts/dispatcher.go, and the choice of a message's fields in internal/alerts/message.go.
-- Rendering (text/template) and the two senders are arguments; a log line is left out.
use quptime.Prelude.{
  ℕ, String, Bool, true, false, not, ◌&&◌, ◌||◌, Option, none, some, List, [], ◌∷◌, ◌==◌, ltb,
  nat_eq, if◌then◌else◌, length,
}
use quptime.Config.Types.{
  Alert, AlertType, alert_smtp, alert_discord, other_alert, Check, ClusterConfig,
}
use quptime.Config.Cluster.{effective_alerts_for}
use quptime.Checks.Aggregator.{State, unknown, up, down, state_eq, Snapshot}

pub record Message : Type 0 where
  pub subject : String
  pub body : String

-- What surrounds the dispatcher: the default text and a template's result for a transition (`none`
-- where the template fails), and the channels. `fails` is an error text.
pub record Channels : Type 0 where
  pub render : Check → State → State → Snapshot → Message
  pub exec_subject : String → Check → State → State → Snapshot → Option String
  pub exec_body : String → Check → State → State → Snapshot → Option String
  pub send_smtp : Alert → Message → Option String
  pub send_discord : Alert → Message → Option String

-- `shouldAlert`
unfoldable pub should_alert : State → State → Bool
should_alert from to =
    if state_eq to unknown
    then false
    else if state_eq from unknown && state_eq to up
    then false
    else true

-- one field of `RenderFor`: the template's text, the default without one, or where it fails
choose : String → String → (String → Option String) → String × Bool
choose def template exec =
    if template == ""
    then (def, false)
    else elim (exec template) [ none ↦ (def, true) | some s ↦ (s, false) ]

-- `RenderFor`, with whether it returns an error
unfoldable pub render_for : Channels → Alert → Check → State → State → Snapshot → Message × Bool
unfolding choose
render_for ch alert check from to snap =
    let def = ch.render check from to snap in
    let (subject, bad) =
      choose def.subject alert.subject_template (λ t. ch.exec_subject t check from to snap) in
    let (body, worse) =
      choose def.body alert.body_template (λ t. ch.exec_body t check from to snap) in
    (record { subject = subject; body = body }, bad || worse)

-- `transitionVerb`
unfoldable pub transition_verb : State → State → String
transition_verb from down = "DOWN"
transition_verb from up = if state_eq from down then "RECOVERED" else "UP"
transition_verb from unknown = "UNKNOWN"

-- A message that goes out, with the alert that it goes through.
pub record Delivery : Type 0 where
  pub alert : Alert
  pub message : Message

dispatch_by : Channels → Alert → Message → AlertType → Option String
dispatch_by ch a msg alert_smtp = ch.send_smtp a msg
dispatch_by ch a msg alert_discord = ch.send_discord a msg
dispatch_by ch a msg (other_alert t) = some "unknown alert type"

-- `dispatchOne`: the error of the channel
unfoldable pub dispatch_one : Channels → Alert → Message → Option String
unfolding dispatch_by
dispatch_one ch a msg = dispatch_by ch a msg a.type

-- the loop of `OnTransition`: every alert is tried, whatever the others return
unfoldable pub deliver_all :
    Channels → Check → State → State → Snapshot → List Alert → List Delivery
unfolding render_for
deliver_all ch check from to snap [] = []
deliver_all ch check from to snap (a ∷ rest) =
    record { alert = a; message = (render_for ch a check from to snap).0 }
    ∷ deliver_all ch check from to snap rest

-- `OnTransition`: the messages that it dispatches
unfoldable pub on_transition :
    Channels → ClusterConfig → Check → State → State → Snapshot → List Delivery
unfolding should_alert deliver_all effective_alerts_for
on_transition ch c check from to snap =
    if not (should_alert from to)
    then []
    else deliver_all ch check from to snap (effective_alerts_for c (some check))

-- `syntheticSnapshot`; the detail is `syntheticDetail`, an argument
unfoldable pub synthetic_snapshot : (Check → String) → Check → State → ℕ → Snapshot
synthetic_snapshot detail check to nodes =
    let n = if ltb nodes 1 then 1 else nodes in
    if state_eq to down
    then record {
      check_id = check.id;
      state = to;
      reports = n;
      ok_count = 0;
      not_ok = n;
      detail = detail check;
      update_at = 0;
    }
    else record {
      check_id = check.id;
      state = to;
      reports = n;
      ok_count = n;
      not_ok = 0;
      detail = "";
      update_at = 0;
    }

-- `parseTestState`, on the keyword that has been trimmed and lowered
unfoldable pub parse_test_state : String → Option (State × State)
parse_test_state state =
    if state == "" || state == "down"
    then some (up, down)
    else if state == "recovered"
    then some (down, up)
    else if state == "up"
    then some (unknown, up)
    else none

unfoldable pub find_check : String → List Check → Option Check
find_check id [] = none
find_check id (c ∷ rest) = if c.id == id || c.name == id then some c else find_check id rest

-- one alert that fails is added to the others
unfoldable pub note_failure : Alert → Option String → List Alert → List Alert
note_failure a none failed = failed
note_failure a (some e) failed = a ∷ failed

-- the loop of `TestCheck`: the alerts whose channel fails
unfoldable pub failed_alerts : Channels → Check → State → State → Snapshot → List Alert → List Alert
unfolding note_failure
failed_alerts ch check from to snap [] = []
failed_alerts ch check from to snap (a ∷ rest) =
    note_failure a (dispatch_one ch a (render_for ch a check from to snap).0)
      (failed_alerts ch check from to snap rest)

pub data TestError : Type 0 where
  check_not_found bad_test_state : String → TestError
  no_effective_alerts : String → TestError
  alerts_failed : List Alert → ℕ → TestError

abbrev pub report : List Alert → ℕ → Option TestError
report [] total = none
report (a ∷ failed) total = some (alerts_failed (a ∷ failed) total)

-- What `TestCheck` sends and returns.
abbrev pub Tested : Type 0
Tested = List Delivery × Option TestError

unfoldable pub fire_test : Channels → Check → State → State → Snapshot → List Alert → Tested
unfolding failed_alerts deliver_all
fire_test ch check from to snap [] = ([], some (no_effective_alerts check.name))
fire_test ch check from to snap (a ∷ rest) = (
  deliver_all ch check from to snap (a ∷ rest),
  report (failed_alerts ch check from to snap (a ∷ rest)) (length (a ∷ rest)),
)

-- the snapshot that `TestCheck` renders: as many reports as peers, or 3
unfoldable pub test_snapshot : (Check → String) → ClusterConfig → Check → State → Snapshot
unfolding synthetic_snapshot
test_snapshot detail c check to =
    synthetic_snapshot detail check to (if nat_eq (length c.peers) 0 then 3 else length c.peers)

unfoldable pub test_state :
    Channels → (Check → String) → ClusterConfig → Check → String → Option (State × State) → Tested
unfolding fire_test test_snapshot effective_alerts_for
test_state ch detail c check state none = ([], some (bad_test_state state))
test_state ch detail c check state (some (from, to)) =
    fire_test ch check from to (test_snapshot detail c check to)
      (effective_alerts_for c (some check))

unfoldable pub test_found :
    Channels → (Check → String) → ClusterConfig → String → String → Option Check → Tested
unfolding test_state parse_test_state
test_found ch detail c id state none = ([], some (check_not_found id))
test_found ch detail c id state (some check) =
    test_state ch detail c check state (parse_test_state state)

-- `TestCheck`, on the keyword that has been trimmed and lowered
unfoldable pub test_check : Channels → (Check → String) → ClusterConfig → String → String → Tested
unfolding test_found find_check
test_check ch detail c id state = test_found ch detail c id state (find_check id c.checks)
