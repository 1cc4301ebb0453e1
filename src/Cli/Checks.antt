-- ===== src/Cli/Checks.antt =====
-- internal/cli/check.go: what `qu check add`, `edit`, `enable` and `disable` ask the daemon for. The
-- functions of the Go packages strings and time are arguments; what is printed is left out.
pub mod Numbers
pub mod Edits
pub mod Toggles
use Prim.Native.Char.{code}
use Prim.Native.String
use quptime.Prelude.{
  ℕ, ◌+◌, ◌*◌, ◌-◌, ◌%◌, ◌^◌, String, Bool, true, false, not, ◌||◌, Option, none, some, List, [],
  ◌∷◌, ◌==◌, ltb, if◌then◌else◌, keep, map,
}
use quptime.Prelude.Int.{ℤ, pos, to_int64}
use quptime.Config.Types.{Check, CheckType, check_http, check_tls, check_dns, ClusterConfig}

pub record Words : Type 0 where
  pub trim_space : String → String
  pub to_lower : String → String
  pub split_comma : String → List String
  pub parse_duration : String → Option ℤ

-- What a command sends: a check under MutationAddCheck, or an alert under MutationAddAlert, or why it
-- sends nothing.
pub data Command (A : Type 0) : Type 0 where
  submits : A → Command A
  already : Command A
  not_loaded not_found : Command A
  invalid : String → Command A

-- the check that a command names, by its id or its name
unfoldable pub existing_check : String → List Check → Option Check
existing_check target [] = none
existing_check target (c ∷ rest) =
    if c.id == target || c.name == target then some c else existing_check target rest

toggled : Bool → Option Check → Command Check
toggled disabled none = not_found
toggled disabled (some c) =
    if bool_eq c.disabled disabled then already else submits (record c { disabled = disabled })
  where
    bool_eq : Bool → Bool → Bool
    bool_eq true b = b
    bool_eq false b = not b

-- `buildCheckToggleCmd`, on cluster.yaml as it loads
unfoldable pub toggle_check : Bool → String → Option ClusterConfig → Command Check
unfolding toggled existing_check
toggle_check disabled target none = not_loaded
toggle_check disabled target (some c) = toggled disabled (existing_check target c.checks)

-- the digits, in int arithmetic: the product and the sum wrap at 2 ^ 64
unfoldable pub scan_digits : String → ℕ → Option ℕ
scan_digits String.[] n = some n
scan_digits (String.◌∷◌ r s) n =
    if ltb (code r) 48 || ltb 57 (code r)
    then none
    else scan_digits s ((n * 10 + (code r - 48)) % 2 ^ 64)

signed : Option ℕ → Option ℤ
signed none = none
signed (some n) = some (to_int64 n)

-- `parsePositiveInt`
unfoldable pub parse_positive_int : (String → String) → String → Option ℤ
unfolding scan_digits signed
parse_positive_int trim s = if trim s == "" then some (pos 0) else signed (scan_digits (trim s) 0)

-- trimmed, and without the blanks
abbrev pub trimmed : Words → List String → List String
trimmed w list = keep (λ s. not (s == "")) (map w.trim_space list)

-- A field of the check after a flag, or why the command fails.
pub data Edited : Type 0 where
  edited : Check → Edited
  rejected : String → Edited

-- The flags that were passed.
pub record EditFlags : Type 0 where
  pub name : Option String
  pub target : Option String
  pub interval : Option String
  pub timeout : Option String
  pub alerts : Option String
  pub resolvers : Option (List String)
  pub expect : Option String
  pub body_match : Option String
  pub warn_days : Option ℤ
  pub sni : Option String
  pub record_type : Option String
  pub resolver : Option String

-- a flag that was not passed leaves the check
flag : {A : Type 0} → Option A → (A → Check → Edited) → Check → Edited
flag none set c = edited c
flag (some v) set c = set v c

set_duration : String → (ℤ → Check) → Option ℤ → Edited
set_duration name set none = rejected name
set_duration name set (some d) = edited (set d)

set_expect_status : Check → Option ℤ → Edited
set_expect_status c none = rejected "expect"
set_expect_status c (some n) = edited (record c { expect_status = n })

set_expect : Words → CheckType → String → Check → Edited
unfolding set_expect_status parse_positive_int
set_expect w check_http v c = set_expect_status c (parse_positive_int w.trim_space v)
set_expect w check_dns v c = edited (record c { dns_expect = w.trim_space v })
set_expect w _ v c = rejected "expect"

-- a flag for checks of one type only
only_for : CheckType → CheckType → String → Check → Edited
only_for check_http check_http name c = edited c
only_for check_tls check_tls name c = edited c
only_for check_dns check_dns name c = edited c
only_for _ _ name c = rejected name

abbrev Step : Type 0
Step = Check → Edited

-- the flags for every check, in the order of the code
shared_steps : Words → EditFlags → List Step
unfolding flag set_duration
shared_steps w f =
    flag f.name (λ v c. edited (record c { name = w.trim_space v }))
    ∷ flag f.target (λ v c. edited (record c { target = w.trim_space v }))
    ∷ flag f.interval
        (λ v c. set_duration "interval" (λ d. record c { interval = d }) (w.parse_duration v))
    ∷ flag f.timeout
        (λ v c. set_duration "timeout" (λ d. record c { timeout = d }) (w.parse_duration v))
    ∷ flag f.alerts (λ v c. edited (record c { alert_ids = trimmed w (w.split_comma v) }))
    ∷ flag f.resolvers (λ v c. edited (record c { resolvers = trimmed w v }))
    ∷ []

-- the flags for some types of check, in the order of the code
typed_steps : Words → EditFlags → List Step
unfolding flag set_expect only_for
typed_steps w f =
    flag f.expect (λ v c. set_expect w c.type v c)
    ∷ flag f.body_match
        (λ v c. only_for check_http c.type "body-match" (record c { body_match = v }))
    ∷ flag f.warn_days
        (λ v c. only_for check_tls c.type "warn-days" (record c { tls_warn_days = v }))
    ∷ flag f.sni
        (λ v c. only_for check_tls c.type "sni" (record c { tls_server_name = w.trim_space v }))
    ∷ flag f.record_type (λ v c.
      only_for check_dns c.type "record" (record c { dns_record = w.to_lower (w.trim_space v) }))
    ∷ flag f.resolver
        (λ v c. only_for check_dns c.type "resolver" (record c { dns_resolver = w.trim_space v }))
    ∷ []

-- one flag after the other, up to the first that fails
run_steps : List Step → Edited → Edited
run_steps [] e = e
run_steps (f ∷ rest) (edited c) = run_steps rest (f c)
run_steps (f ∷ rest) (rejected name) = rejected name

command_of : Edited → Command Check
command_of (edited c) = submits c
command_of (rejected name) = invalid name

edit_found : Words → EditFlags → Option Check → Command Check
unfolding run_steps shared_steps typed_steps command_of
edit_found w f none = not_found
edit_found w f (some c) =
    command_of (run_steps (typed_steps w f) (run_steps (shared_steps w f) (edited c)))

-- `buildCheckEditCmd`, on cluster.yaml as it loads
unfoldable pub edit_check : Words → EditFlags → String → Option ClusterConfig → Command Check
unfolding edit_found existing_check
edit_check w f target none = not_loaded
edit_check w f target (some c) = edit_found w f (existing_check target c.checks)

-- The flags of `qu check add`, with their defaults filled in.
pub record AddFlags : Type 0 where
  pub interval : String
  pub timeout : String
  pub alerts : String
  pub resolvers : List String
  pub expect_status : ℤ
  pub body_match : String
  pub warn_days : ℤ
  pub sni : String
  pub record_type : String
  pub resolver : String
  pub dns_expect : String

-- the fields of one type of check
typed : Words → AddFlags → CheckType → Check → Check
typed w f check_http c = record c { expect_status = f.expect_status; body_match = f.body_match }
typed w f check_tls c = record c {
  tls_warn_days = f.warn_days;
  tls_server_name = w.trim_space f.sni;
}
typed w f check_dns c = record c {
  dns_record = w.to_lower (w.trim_space f.record_type);
  dns_resolver = w.trim_space f.resolver;
  dns_expect = w.trim_space f.dns_expect;
}
typed w f _ c = c

-- a duration flag, with the default of a blank one
duration_or : Words → String → ℤ → Option ℤ
duration_or w flag default = if flag == "" then some default else w.parse_duration flag

with_timeout : Words → AddFlags → CheckType → Check → Option ℤ → Command Check
unfolding typed
with_timeout w f type c none = invalid "timeout"
with_timeout w f type c (some timeout) = submits (
    typed w f type (record c {
      timeout = timeout;
      alert_ids = if f.alerts == "" then [] else trimmed w (w.split_comma f.alerts);
      resolvers = trimmed w f.resolvers;
    }))

with_interval : Words → AddFlags → CheckType → Check → Option ℤ → Command Check
unfolding with_timeout duration_or
with_interval w f type c none = invalid "interval"
with_interval w f type c (some interval) =
    with_timeout w f type (record c { interval = interval })
      (duration_or w f.timeout (pos 10_000_000_000))

-- `buildAddCheckCmd`, with a new uuid
unfoldable pub add_check_request :
    Words → String → CheckType → String → String → AddFlags → Command Check
unfolding with_interval duration_or
add_check_request w uuid type name target f =
    with_interval w f type
      (record {
        id = uuid;
        name = name;
        type = type;
        target = target;
        interval = pos 0;
        timeout = pos 0;
        expect_status = pos 0;
        body_match = "";
        tls_warn_days = pos 0;
        tls_server_name = "";
        dns_record = "";
        dns_resolver = "";
        dns_expect = "";
        alert_ids = [];
        suppress_alert_ids = [];
        disabled = false;
        resolvers = [];
      })
      (duration_or w f.interval (pos 30_000_000_000))
