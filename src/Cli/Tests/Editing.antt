-- ===== src/Cli/Tests/Editing.antt =====
-- The theorems about the check commands at concrete inputs: an interval, a pause, and a status code.
use quptime.Prelude.{true, some, none, [], ◌∷◌, ◌≡◌, refl, ◌==◌, if◌then◌else◌}
use quptime.Prelude.Int.{pos}
use quptime.Config.Types.{Check}
use quptime.Cli.Checks.{Words, submits, EditFlags, toggle_check, parse_positive_int}
use quptime.Cli.Checks.Toggles.{check_names}
use quptime.Cli.Checks.Toggles.{check_names}
use quptime.Samples.{three, web}

abbrev words : Words
words = record {
  trim_space = λ s. s;
  to_lower = λ s. s;
  split_comma = λ s. s ∷ [];
  parse_duration = λ s. if s == "1m" then some (pos 60_000_000_000) else none;
}

abbrev no_flags : EditFlags
no_flags = record {
  name = none;
  target = none;
  interval = none;
  timeout = none;
  alerts = none;
  resolvers = none;
  expect = none;
  body_match = none;
  warn_days = none;
  sni = none;
  record_type = none;
  resolver = none;
}

abbrev slower : EditFlags
slower = record no_flags { interval = some "1m"; expect = some "204" }

abbrev slow_web : Check
slow_web = record web { interval = pos 60_000_000_000; expect_status = pos 204 }

pauses : toggle_check true "c1" (some three) ≡ submits (record web { disabled = true })
unfolding toggle_check
pauses = refl

-- an overflow is read as a status code
overflows : parse_positive_int (λ s. s) "18446744073709551816" ≡ some (pos 200)
unfolding parse_positive_int
overflows = refl
