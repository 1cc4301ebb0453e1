-- ===== src/Cli/Update.antt =====
-- internal/cli/update.go: the `update` command. The machine, HTTP, JSON, SHA-256 in hex, the functions
-- of the Go packages strings and fmt and the end of each system call are arguments.
pub mod Replacing
pub mod Sums
pub mod Verified
pub mod Installed
use quptime.Prelude.{
  String, Bool, true, false, not, ◌&&◌, ◌||◌, Option, none, some, List, [], ◌∷◌, ◌==◌,
  if◌then◌else◌, remove, text_append,
}
use quptime.Config.Paths.{
  Files, FileError, Syscalls, put, cleaned, rename_to, temp_mode, temp_failed, write_failed,
  sync_failed, close_failed, chmod_failed, rename_failed,
}

-- `releaseSource`
pub record Source : Type 0 where
  pub name : String
  pub api_latest : String
  pub api_beta : String
  pub release_base : String

-- `updateSources`, in the order in which they are tried
abbrev pub gitea : Source
gitea = record {
  name = "gitea";
  api_latest = "https://git.jas.pe/api/v1/repos/vrepsaj/quptime/releases/latest";
  api_beta = "https://git.jas.pe/api/v1/repos/vrepsaj/quptime/releases";
  release_base = "https://git.jas.pe/vrepsaj/quptime/releases/download";
}

abbrev pub github : Source
github = record {
  name = "github";
  api_latest = "https://api.github.com/repos/vrepsaj/QUptime/releases/latest";
  api_beta = "https://api.github.com/repos/vrepsaj/QUptime/releases";
  release_base = "https://github.com/vrepsaj/QUptime/releases/download";
}

abbrev pub update_sources : List Source
update_sources = gitea ∷ github ∷ []

-- What the command meets: `http_get` fails with none, also for a status other than 2xx, and cuts at
-- 64 MiB; `tag_name` reads a release, `urls` a list of releases; `self` is the path of the binary.
pub record UpdateWorld : Type 0 where
  pub os : String
  pub arch : String
  pub version : String
  pub http_get : String → Option String
  pub tag_name : String → Option String
  pub urls : String → Option (List String)
  pub sha256 : String → String
  pub equal_fold : String → String → Bool
  pub lines : String → List String
  pub trim_space : String → String
  pub fields : String → List String
  pub to_lower : String → String
  pub trim_prefix : String → String → String
  pub trim_right_slash : String → String
  pub self : Option String
  pub dir_exists : Bool
  pub probe : Option String
  pub probe_removed : Bool
  pub calls : Syscalls

pub record Options : Type 0 where
  pub beta : Bool
  pub check_only : Bool
  pub force : Bool
  pub source : String

pub data UpdateError : Type 0 where
  not_linux unsupported_arch unknown_source no_release no_self no_directory not_writable :
      UpdateError
  no_binary no_sums no_entry mismatch : UpdateError
  not_replaced : FileError → UpdateError

-- How the command ends: a tag and the path that it is installed to, or nothing to do, or an error.
pub data Updated : Type 0 where
  installed : String → String → Updated
  up_to_date available : Updated
  failed : UpdateError → Updated

-- `updateArch`
abbrev pub update_arch : String → Bool
update_arch arch = arch == "amd64" || arch == "arm64"

find_source : UpdateWorld → String → List Source → Option (List Source)
find_source w name [] = none
find_source w name (s ∷ rest) =
    if w.equal_fold s.name name then some (s ∷ []) else find_source w name rest

-- `pickSources`
unfoldable pub pick_sources : UpdateWorld → String → Option (List Source)
unfolding find_source
pick_sources w name = if name == "" then some update_sources else find_source w name update_sources

nonempty : Option String → Option String
nonempty none = none
nonempty (some s) = if s == "" then none else some s

tag_of : UpdateWorld → Option String → Option String
unfolding nonempty
tag_of w none = none
tag_of w (some body) = nonempty (w.tag_name body)

-- `fetchTag`
unfoldable pub fetch_tag : UpdateWorld → String → Option String
unfolding tag_of
fetch_tag w api = tag_of w (w.http_get api)

first_url : Option (List String) → Option String
first_url none = none
first_url (some []) = none
first_url (some (u ∷ rest)) = if u == "" then none else some u

parsed_urls : UpdateWorld → Option String → Option String
unfolding first_url
parsed_urls w none = none
parsed_urls w (some body) = first_url (w.urls body)

-- `resolveFirstReleaseURL`
unfoldable pub resolve_first_release_url : UpdateWorld → String → Option String
unfolding parsed_urls
resolve_first_release_url w api = parsed_urls w (w.http_get api)

tag_at : UpdateWorld → Option String → Option String
unfolding fetch_tag
tag_at w none = none
tag_at w (some api) = fetch_tag w api

-- the tag of a source
unfoldable pub source_tag : UpdateWorld → Bool → Source → Option String
unfolding tag_at resolve_first_release_url
source_tag w true s = tag_at w (resolve_first_release_url w s.api_beta)
source_tag w false s = tag_at w (some s.api_latest)

release_from : Source → Option String → Option (String × Source) → Option (String × Source)
release_from s none rest = rest
release_from s (some tag) rest = some (tag, s)

-- `fetchLatestRelease`
unfoldable pub fetch_latest_release : UpdateWorld → Bool → List Source → Option (String × Source)
unfolding source_tag release_from
fetch_latest_release w beta [] = none
fetch_latest_release w beta (s ∷ rest) =
    release_from s (source_tag w beta s) (fetch_latest_release w beta rest)

-- the name and the checksum of a line with two fields
sum_for : UpdateWorld → String → List String → Option String
sum_for w name (sum ∷ file ∷ []) =
    if w.trim_prefix file "*" == name then some (w.to_lower sum) else none
sum_for w name _ = none

sum_of_line : UpdateWorld → String → String → Option String
unfolding sum_for
sum_of_line w name line =
    if w.trim_space line == "" then none else sum_for w name (w.fields (w.trim_space line))

or_later : Option String → Option String → Option String
or_later none later = later
or_later (some sum) later = some sum

-- `expectedSum`
unfoldable pub first_sum : UpdateWorld → String → List String → Option String
unfolding sum_of_line or_later
first_sum w name [] = none
first_sum w name (line ∷ rest) = or_later (sum_of_line w name line) (first_sum w name rest)

abbrev pub expected_sum : UpdateWorld → String → String → Option String
expected_sum w sums name = first_sum w name (w.lines sums)

-- `sameVersion`
unfoldable pub same_version : UpdateWorld → String → String → Bool
same_version w stamp tag =
    if stamp == "" || stamp == "dev"
    then false
    else w.trim_prefix stamp "v" == w.trim_prefix tag "v"

replace_temp : Syscalls → String → String → Files → Option String → Files × Option FileError
unfolding rename_to
replace_temp o exe payload dir none = (dir, some temp_failed)
replace_temp o exe payload dir (some tmp) =
    let created = put tmp "" temp_mode dir in
    if not o.write
    then (cleaned o.remove tmp (put tmp o.partial temp_mode created), some write_failed)
    else let written = put tmp payload temp_mode created in
      if not o.sync
      then (cleaned o.remove tmp written, some sync_failed)
      else if not o.close
      then (cleaned o.remove tmp written, some close_failed)
      else if not o.chmod
      then (cleaned o.remove tmp written, some chmod_failed)
      else let moded = put tmp payload 0x1ed written in
        if not o.rename
        then (cleaned o.remove tmp moded, some rename_failed)
        else (rename_to tmp exe moded, none)

-- `replaceBinary`; the mode is 0o755
unfoldable pub replace_binary : Syscalls → String → String → Files → Files × Option FileError
unfolding replace_temp
replace_binary o exe payload dir = replace_temp o exe payload dir o.temp

abbrev pub binary_name : UpdateWorld → String → String
binary_name w tag = text_append "qu-" (text_append tag (text_append "-linux-" w.arch))

-- the address of a file of a release
abbrev pub release_url : UpdateWorld → String × Source → String → String
release_url w (tag, s) name =
    text_append (w.trim_right_slash s.release_base)
      (text_append "/" (text_append tag (text_append "/" name)))

replaced : String → String → Files × Option FileError → Files × Updated
replaced tag exe (dir, some e) = (dir, failed (not_replaced e))
replaced tag exe (dir, none) = (dir, installed tag exe)

module _ (w : UpdateWorld) (rel : String × Source) (exe : String) (dir : Files) where
  install_checked : String → Option String → Files × Updated
  unfolding replaced replace_binary
  install_checked payload none = (dir, failed no_entry)
  install_checked payload (some want) =
      if not (w.sha256 payload == want)
      then (dir, failed mismatch)
      else replaced rel.0 exe (replace_binary w.calls exe payload dir)

  with_sums : String → Option String → Files × Updated
  unfolding install_checked first_sum
  with_sums payload none = (dir, failed no_sums)
  with_sums payload (some sums) =
      install_checked payload (expected_sum w sums (binary_name w rel.0))

  with_binary : Option String → Files × Updated
  unfolding with_sums
  with_binary none = (dir, failed no_binary)
  with_binary (some payload) = with_sums payload (w.http_get (release_url w rel "SHA256SUMS"))

  unfoldable pub download : Files × Updated
  unfolding with_binary
  download = with_binary (w.http_get (release_url w rel (binary_name w rel.0)))

-- the rest of `runUpdate`, once the directory can be written
with_probe : UpdateWorld → String × Source → String → Files → Option String → Files × Updated
unfolding download
with_probe w rel exe dir none = (dir, failed not_writable)
with_probe w rel exe dir (some name) =
    download w rel exe (cleaned w.probe_removed name (put name "" temp_mode dir))

with_self : UpdateWorld → String × Source → Files → Option String → Files × Updated
unfolding with_probe
with_self w rel dir none = (dir, failed no_self)
with_self w rel dir (some exe) =
    if not w.dir_exists then (dir, failed no_directory) else with_probe w rel exe dir w.probe

with_release : UpdateWorld → Options → Files → Option (String × Source) → Files × Updated
unfolding with_self same_version
with_release w opts dir none = (dir, failed no_release)
with_release w opts dir (some rel) =
    let version = if w.version == "" then "dev" else w.version in
    if not opts.force && same_version w version rel.0
    then (dir, up_to_date)
    else if opts.check_only
    then (dir, available)
    else with_self w rel dir w.self

with_sources : UpdateWorld → Options → Files → Option (List Source) → Files × Updated
unfolding with_release fetch_latest_release
with_sources w opts dir none = (dir, failed unknown_source)
with_sources w opts dir (some sources) =
    with_release w opts dir (fetch_latest_release w opts.beta sources)

-- `runUpdate`
unfoldable pub run_update : UpdateWorld → Options → Files → Files × Updated
unfolding with_sources pick_sources
run_update w opts dir =
    if not (w.os == "linux")
    then (dir, failed not_linux)
    else if not (update_arch w.arch)
    then (dir, failed unsupported_arch)
    else with_sources w opts dir (pick_sources w opts.source)
