-- ===== src/Cli/Alerts.antt =====
-- internal/cli/alert.go: what `qu alert add`, `edit`, `default`, `enable` and `disable` ask the daemon
-- for. The reading of a template file is an argument; what is printed is left out.
pub mod Back
use quptime.Prelude.{
  String, Bool, true, false, ◌||◌, Option, none, some, List, [], ◌∷◌, ◌==◌, if◌then◌else◌,
}
use quptime.Prelude.Int.{ℤ, pos}
use quptime.Config.Types.{Alert, AlertType, alert_smtp, alert_discord, ClusterConfig}
use quptime.Config.Cluster.{find_alert}
use quptime.Cli.Checks.{Command, submits, already, not_loaded, not_found, invalid}

toggled : Bool → Option Alert → Command Alert
toggled disabled none = not_found
toggled true (some a) = if a.disabled then already else submits (record a { disabled = true })
toggled false (some a) = if a.disabled then submits (record a { disabled = false }) else already

-- `buildAlertToggleCmd`, on cluster.yaml as it loads
unfoldable pub toggle_alert : Bool → String → Option ClusterConfig → Command Alert
unfolding toggled find_alert
toggle_alert disabled target none = not_loaded
toggle_alert disabled target (some c) = toggled disabled (find_alert target c.alerts)

-- the words for on and off
on_or_off : String → Option Bool
on_or_off word =
    if word == "on" || word == "true" || word == "yes" || word == "1"
    then some true
    else if word == "off" || word == "false" || word == "no" || word == "0"
    then some false
    else none

with_default : Bool → Option Alert → Command Alert
with_default on none = not_found
with_default on (some a) = submits (record a { default = on })

default_set : Option Bool → String → Option ClusterConfig → Command Alert
unfolding with_default find_alert
default_set none target o = invalid "default"
default_set (some on) target none = not_loaded
default_set (some on) target (some c) = with_default on (find_alert target c.alerts)

-- `qu alert default`, on cluster.yaml as it loads
unfoldable pub default_alert : String → String → Option ClusterConfig → Command Alert
unfolding default_set on_or_off
default_alert word target o = default_set (on_or_off word) target o

-- The flags that were passed to `qu alert edit`.
pub record AlertFlags : Type 0 where
  pub name : Option String
  pub default : Option Bool
  pub subject : Option String
  pub subject_file : Option String
  pub body : Option String
  pub body_file : Option String
  pub host : Option String
  pub port : Option ℤ
  pub user : Option String
  pub password : Option String
  pub from : Option String
  pub to : Option (List String)
  pub starttls : Option Bool
  pub webhook : Option String

or_keep : {A : Type 0} → Option A → A → A
or_keep none old = old
or_keep (some v) old = v

-- a template after its two flags, of which the inline one wins; none if the file is not read
edited_template : (String → Option String) → Option String → Option String → String → Option String
edited_template read (some text) file old = some text
edited_template read none none old = some old
edited_template read none (some path) old = if path == "" then some old else read path

is_given : {A : Type 0} → Option A → Bool
is_given none = false
is_given (some v) = true

first_passed : List (String × Bool) → Option String
first_passed [] = none
first_passed ((name, given) ∷ rest) =
    let later = first_passed rest in if given then some name else later

-- the first flag for SMTP alone
smtp_flag : AlertFlags → Option String
unfolding first_passed is_given
smtp_flag f = first_passed (
    ("host", is_given f.host)
    ∷ ("port", is_given f.port)
    ∷ ("user", is_given f.user)
    ∷ ("password", is_given f.password)
    ∷ ("from", is_given f.from)
    ∷ ("to", is_given f.to)
    ∷ ("starttls", is_given f.starttls)
    ∷ [])

edit_discord : AlertFlags → Alert → Option String → Command Alert
unfolding or_keep
edit_discord f a (some name) = invalid name
edit_discord f a none = submits (record a { discord_webhook = or_keep f.webhook a.discord_webhook })

-- the flags for one type of channel; of another type none is looked at
edit_channel : AlertFlags → Alert → AlertType → Command Alert
unfolding or_keep is_given smtp_flag edit_discord
edit_channel f a alert_smtp =
    if is_given f.webhook
    then invalid "webhook"
    else submits (record a {
      smtp_host = or_keep f.host a.smtp_host;
      smtp_port = or_keep f.port a.smtp_port;
      smtp_user = or_keep f.user a.smtp_user;
      smtp_password = or_keep f.password a.smtp_password;
      smtp_from = or_keep f.from a.smtp_from;
      smtp_to = or_keep f.to a.smtp_to;
      smtp_start_tls = or_keep f.starttls a.smtp_start_tls;
    })
edit_channel f a alert_discord = edit_discord f a (smtp_flag f)
edit_channel f a _ = submits a

with_body : AlertFlags → Alert → Option String → Command Alert
unfolding edit_channel
with_body f a none = invalid "body-file"
with_body f a (some body) = edit_channel f (record a { body_template = body }) a.type

with_subject : (String → Option String) → AlertFlags → Alert → Option String → Command Alert
unfolding with_body edited_template
with_subject read f a none = invalid "subject-file"
with_subject read f a (some subject) =
    with_body f (record a { subject_template = subject })
      (edited_template read f.body f.body_file a.body_template)

edit_found : (String → Option String) → AlertFlags → Option Alert → Command Alert
unfolding with_subject or_keep edited_template
edit_found read f none = not_found
edit_found read f (some a) =
    with_subject read f
      (record a { name = or_keep f.name a.name; default = or_keep f.default a.default })
      (edited_template read f.subject f.subject_file a.subject_template)

-- `buildAlertEditCmd`, on cluster.yaml as it loads
unfoldable pub edit_alert :
    (String → Option String) → AlertFlags → String → Option ClusterConfig → Command Alert
unfolding edit_found find_alert
edit_alert read f target none = not_loaded
edit_alert read f target (some c) = edit_found read f (find_alert target c.alerts)

-- The flags of `qu alert add`, with their defaults filled in. cobra sees to the required ones.
pub record NewAlert : Type 0 where
  pub id : String
  pub name : String
  pub default : Bool
  pub subject : String
  pub subject_file : String
  pub body : String
  pub body_file : String

new_template : (String → Option String) → String → String → Option String
new_template read text path =
    if text == "" then (if path == "" then some "" else read path) else some text

both_templates :
    NewAlert → (Alert → Alert) → AlertType → Option String → Option String → Command Alert
both_templates f set type none body = invalid "subject-file"
both_templates f set type (some subject) none = invalid "body-file"
both_templates f set type (some subject) (some body) = submits (
    set (record {
      id = f.id;
      name = f.name;
      type = type;
      default = f.default;
      disabled = false;
      smtp_host = "";
      smtp_port = pos 0;
      smtp_user = "";
      smtp_password = "";
      smtp_from = "";
      smtp_to = [];
      smtp_start_tls = false;
      discord_webhook = "";
      subject_template = subject;
      body_template = body;
    }))

-- `resolveTemplateFlags`, and what both commands make of it
with_templates : (String → Option String) → NewAlert → (Alert → Alert) → AlertType → Command Alert
unfolding both_templates new_template
with_templates read f set type =
    both_templates f set type (new_template read f.subject f.subject_file)
      (new_template read f.body f.body_file)

-- `buildSMTPAddCmd`
unfoldable pub add_smtp :
    (String → Option String)
    → NewAlert
    → (host : String) → (port : ℤ) → (user password from : String) → (to : List String)
    → (starttls : Bool) → Command Alert
unfolding with_templates
add_smtp read f host port user password from to starttls =
    with_templates read f
      (λ a. record a {
        smtp_host = host;
        smtp_port = port;
        smtp_user = user;
        smtp_password = password;
        smtp_from = from;
        smtp_to = to;
        smtp_start_tls = starttls;
      })
      alert_smtp

-- `buildDiscordAddCmd`
unfoldable pub add_discord : (String → Option String) → NewAlert → String → Command Alert
unfolding with_templates
add_discord read f webhook =
    with_templates read f (λ a. record a { discord_webhook = webhook }) alert_discord
