-- ===== src/Alerts/Tests.antt =====
-- The theorems about internal/alerts/dispatcher.go at concrete inputs.
use quptime.Prelude.{none, some, [], ◌≡◌}
use quptime.Checks.Aggregator.{up, down, Snapshot}
use quptime.Config.Cluster.Effective.{Effective}
use quptime.Alerts.Dispatcher.{Channels}
use quptime.Alerts.Delivery.{Notifiable, sent, on_transition-Effective}
use quptime.Samples.{three, web}

-- templates fail, and so does mail
abbrev flaky : Channels
flaky = record {
  render = λ check from to snap. record { subject = check.name; body = "state change" };
  exec_subject = λ template check from to snap. none;
  exec_body = λ template check from to snap. none;
  send_smtp = λ alert message. some "connection refused";
  send_discord = λ alert message. none;
}

abbrev outage : Snapshot
outage = record {
  check_id = "c1";
  state = down;
  reports = 3;
  ok_count = 0;
  not_ok = 3;
  detail = "timeout";
  update_at = 5;
}

on_transition-Effective_example :
    (Notifiable up down → Effective three web (sent flaky web up down outage three))
    × (¬ Notifiable up down → sent flaky web up down outage three ≡ [])
on_transition-Effective_example = on_transition-Effective flaky web up down outage three
