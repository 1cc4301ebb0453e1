-- ===== src/Cli/Checks/Toggles.antt =====
-- What becomes of a check that is enabled or disabled: internal/cli/check.go and MutationAddCheck.
use quptime.Prelude.{String, List, map}
use quptime.Config.Types.{Check}

abbrev pub check_names : List Check → List String
check_names = map (λ (c : Check). c.name)
