-- ===== src/Alerts/TestAlert.antt =====
-- `Test` of internal/alerts/dispatcher.go: one message to one alert. The plain text of an alert
-- without templates is an argument.
use quptime.Prelude.{
  String, Bool, true, false, eq_iff, Option-cases, ◌&&◌, Option, none, some, [], ◌==◌, ◌≡◌, refl,
  ◌⊎◌, inl, inr, ◌↔◌, arith, if◌then◌else◌, Bool-cases,
}
use quptime.Prelude.Int.{pos}
use quptime.Config.Types.{Alert, Check, check_http, ClusterConfig}
use quptime.Config.Cluster.{find_alert}
use quptime.Checks.Aggregator.{Snapshot, up, down, unknown}
use quptime.Alerts.Dispatcher.{Channels, Message, Delivery, render_for, dispatch_one}

pub data AlertTestError : Type 0 where
  alert_not_found : String → AlertTestError
  render_template : AlertTestError
  channel_failed : String → AlertTestError

-- the message that `Test` sends, if any, and its error
pub record Trial : Type 0 where
  pub sent : Option Delivery
  pub error : Option AlertTestError

abbrev pub sample_check : Check
sample_check = record {
  id = "test-check";
  name = "test-check";
  type = check_http;
  target = "https://example.com";
  interval = pos 0;
  timeout = pos 0;
  expect_status = pos 0;
  body_match = "";
  tls_warn_days = pos 0;
  tls_server_name = "";
  dns_record = "";
  dns_resolver = "";
  dns_expect = "";
  alert_ids = [];
  suppress_alert_ids = [];
  disabled = false;
  resolvers = [];
}

-- The state is left unset in the source, and is not rendered.
abbrev pub sample_snapshot : Snapshot
sample_snapshot = record {
  check_id = "";
  state = unknown;
  reports = 3;
  ok_count = 0;
  not_ok = 3;
  detail = "synthetic test failure";
  update_at = 0;
}

channel_error : Option String → Option AlertTestError
channel_error none = none
channel_error (some e) = some (channel_failed e)

-- `dispatchOne`, as the last call of `Test`
try_channel : Channels → Alert → Message → Trial
unfolding channel_error
try_channel ch a msg = record {
  sent = some (record { alert = a; message = msg });
  error = channel_error (dispatch_one ch a msg);
}

-- the rendered message, unless a template fails
try_rendered : Channels → Alert → Message × Bool → Trial
unfolding try_channel
try_rendered ch a (msg, true) = record { sent = none; error = some render_template }
try_rendered ch a (msg, false) = try_channel ch a msg

try_found : Channels → (Alert → Message) → String → Option Alert → Trial
unfolding try_rendered
try_found ch plain id none = record { sent = none; error = some (alert_not_found id) }
try_found ch plain id (some a) =
    if a.subject_template == "" && a.body_template == ""
    then try_channel ch a (plain a)
    else try_rendered ch a (render_for ch a sample_check up down sample_snapshot)

-- `Test`
unfoldable pub test : Channels → (Alert → Message) → ClusterConfig → String → Trial
unfolding try_found try_channel
test ch plain c id = try_found ch plain id (find_alert id c.alerts)

-- The text that `Test` sends to an alert: the plain one without templates, else the rendered one,
-- which no template has failed.
abbrev pub Text : Channels → (Alert → Message) → Alert → Message → Type 0
Text ch plain a msg =
    ((a.subject_template ≡ "") × (a.body_template ≡ "") × (msg ≡ plain a))
    ⊎ (render_for ch a sample_check up down sample_snapshot ≡ (msg, false))

-- The alert with the id or the name got its text, and the channel took it.
pub record Reached (ch : Channels) (plain : Alert → Message) (o : Option Alert) (t : Trial)
    : Type 0 where
  pub alert : Alert
  pub message : Message
  pub found : o ≡ some alert
  pub sent : t.sent ≡ some (record { alert = alert; message = message })
  pub taken : dispatch_one ch alert message ≡ none
  pub text : Text ch plain alert message

module _ (ch : Channels) (plain : Alert → Message) where
  try_channel_error :
      (a : Alert) (msg : Message)
      → ((try_channel ch a msg).error ≡ none) ↔ (dispatch_one ch a msg ≡ none)
  unfolding try_channel channel_error
  try_channel_error a msg = elim (Option-cases (dispatch_one ch a msg)) [
    | inl e ↦ simp e (λ h. refl, λ h. refl)
    | inr (x, e) ↦ simp e (λ h. cc, λ h. cc)
  ]

  try_rendered-Reached :
      (a : Alert) (r : Message × Bool)
      → render_for ch a sample_check up down sample_snapshot ≡ r
      → (try_rendered ch a r).error ≡ none
      → Reached ch plain (some a) (try_rendered ch a r)
  unfolding try_rendered try_channel
  try_rendered-Reached a (msg, true) e h = absurd (ground arith)
  try_rendered-Reached a (msg, false) e h = record {
    alert = a;
    message = msg;
    found = refl;
    sent = refl;
    taken = (try_channel_error a msg).0 h;
    text = inr e;
  }

  try_found-Reached :
      (id : String) (o : Option Alert)
      → (try_found ch plain id o).error ≡ none
      → Reached ch plain o (try_found ch plain id o)
  unfolding try_found try_channel
  try_found-Reached id none h = absurd (ground arith)
  try_found-Reached id (some a) h =
      elim (Bool-cases (a.subject_template == "" && a.body_template == "")) [
        | inl e ↦ simp e (record {
          alert = a;
          message = plain a;
          found = refl;
          sent = refl;
          taken = (try_channel_error a (plain a)).0 (simp e at h);
          text = inl (ground (arith, eq_iff a.subject_template "", eq_iff a.body_template "", e));
        })
        | inr e ↦ simp e (
            try_rendered-Reached a (render_for ch a sample_check up down sample_snapshot) refl
              (simp e at h))
      ]

  -- If the test of an alert returns no error, then the configuration has an alert with that id or
  -- name, its channel took the message that was sent, and the text is the plain one where the alert
  -- has no templates, and else the rendered one, no template having failed.
  pub test-Reached :
      (c : ClusterConfig) (id : String)
      → (test ch plain c id).error ≡ none
      → Reached ch plain (find_alert id c.alerts) (test ch plain c id)
  unfolding test
  test-Reached c id = try_found-Reached id (find_alert id c.alerts)
