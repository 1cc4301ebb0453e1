-- ===== src/Cli/Tests/Silencing.antt =====
-- The theorems about the alert commands at concrete inputs: a channel that is silenced, and a new host.
use quptime.Prelude.{true, false, some, none, ◌≡◌, refl, differ, inl, inr}
use quptime.Prelude.Int.{pos}
use quptime.Config.Types.{Alert}
use quptime.Config.Cluster.{find_alert}
use quptime.Replicate.Mutation.{apply_add_alert}
use quptime.Cli.Checks.{submits, invalid}
use quptime.Cli.Alerts.{AlertFlags, NewAlert, toggle_alert, default_alert, edit_alert, add_discord}
use quptime.Cli.Alerts.Back.{toggle_alert-back}
use quptime.Samples.{three, mail, chat}

abbrev silent : Alert
silent = record mail { disabled = true }

toggle_alert-back_example :
    let (after, error) = apply_add_alert (some silent) three in
    (error ≡ none)
    × (find_alert "mail" after.alerts ≡ some silent)
    × (toggle_alert false "mail" (some after) ≡ submits mail)
    × (apply_add_alert (some mail) after ≡ (three, none))
unfolding find_alert toggle_alert
toggle_alert-back_example =
    toggle_alert-back true "mail" three mail silent refl refl (differ "a2" "" refl)
      (differ "mail" "" refl)
      (λ x m e. elim m [
        | inl q ↦ absurd (elim e [
          | inl i ↦ differ "a1" "a2" refl (rw q at i)
          | inr n ↦ differ "chat" "mail" refl (rw q at n)
        ])
        | inr (inl q) ↦ q
        | inr (inr (inl q)) ↦ absurd (elim e [
          | inl i ↦ differ "a3" "a2" refl (rw q at i)
          | inr n ↦ differ "pager" "mail" refl (rw q at n)
        ])
        | inr (inr (inr n)) ↦ absurd n
      ])

abbrev no_flags : AlertFlags
no_flags = record {
  name = none;
  default = none;
  subject = none;
  subject_file = none;
  body = none;
  body_file = none;
  host = none;
  port = none;
  user = none;
  password = none;
  from = none;
  to = none;
  starttls = none;
  webhook = none;
}

moved_host :
    edit_alert (λ path. none) (record no_flags { host = some "mx" }) "mail" (some three)
    ≡ submits (record mail { smtp_host = "mx" })
unfolding edit_alert
moved_host = refl

wrong_channel :
    edit_alert (λ path. none) (record no_flags { port = some (pos 25) }) "chat" (some three)
    ≡ invalid "port"
unfolding edit_alert
wrong_channel = refl

unread :
    edit_alert (λ path. none) (record no_flags { body_file = some "t" }) "chat" (some three)
    ≡ invalid "body-file"
unfolding edit_alert
unread = refl

by_default : default_alert "on" "chat" (some three) ≡ submits (record chat { default = true })
unfolding default_alert
by_default = refl

-- a body that is not given inline is read from its file
abbrev ops : NewAlert
ops = record {
  id = "a9";
  name = "ops";
  default = false;
  subject = "";
  subject_file = "";
  body = "";
  body_file = "ops.txt";
}

read_from_file :
    add_discord (λ path. some "down") ops "https://hook"
    ≡ submits (record chat { id = "a9"; name = "ops"; body_template = "down" })
unfolding add_discord
read_from_file = refl
