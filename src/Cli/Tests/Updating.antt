-- ===== src/Cli/Tests/Updating.antt =====
-- The theorem about the update command at a concrete input: a release of the first source.
use quptime.Prelude.{
  String, Option, true, false, some, none, [], ◌∷◌, ◌≡◌, refl, sym, ◌∙◌, lookup, differ, ◌==◌,
  if◌then◌else◌,
}
use quptime.Config.Paths.{Files}
use quptime.Cli.Update.{UpdateWorld, Options, run_update, installed}
use quptime.Cli.Update.Verified.{Fresh, Ends}
use quptime.Cli.Update.Installed.{run_update-Ends}

abbrev disk : Files
disk = ("/usr/local/bin/qu", record { content = "old"; mode = 0x1ed }) ∷ []

abbrev server : String → Option String
server url =
    if url == "https://git.jas.pe/api/v1/repos/vrepsaj/quptime/releases/latest"
    then some "release"
    else if url == "https://git.jas.pe/vrepsaj/quptime/releases/download/v2/SHA256SUMS"
    then some "sums"
    else if url == "https://git.jas.pe/vrepsaj/quptime/releases/download/v2/qu-v2-linux-amd64"
    then some "new"
    else none

abbrev world : UpdateWorld
world = record {
  os = "linux";
  arch = "amd64";
  version = "v1";
  http_get = server;
  tag_name = λ body. some "v2";
  urls = λ body. none;
  sha256 = λ body. body;
  equal_fold = λ a b. a == b;
  lines = λ body. "" ∷ "new  qu-v2-linux-amd64" ∷ [];
  trim_space = λ s. s;
  fields = λ line. "new" ∷ "qu-v2-linux-amd64" ∷ [];
  to_lower = λ s. s;
  trim_prefix = λ s prefix. s;
  trim_right_slash = λ s. s;
  self = some "/usr/local/bin/qu";
  dir_exists = true;
  probe = some "/usr/local/bin/.qu-update-probe-1";
  probe_removed = false;
  calls = record {
    mkdir = true;
    temp = some "/usr/local/bin/.qu-update-1";
    write = true;
    partial = "";
    chmod = true;
    sync = true;
    close = true;
    rename = true;
    remove = true;
  };
}

abbrev plain : Options
plain = record { beta = false; check_only = false; force = false; source = "" }

world-Fresh : Fresh world disk
unfolding lookup
world-Fresh = record {
  temp = λ tmp t. let e : "/usr/local/bin/.qu-update-1" ≡ tmp = cc in rw (← e) refl;
  probe = λ p t. let e : "/usr/local/bin/.qu-update-probe-1" ≡ p = cc in rw (← e) refl;
  apart = λ tmp exe t s h.
      let e : "/usr/local/bin/.qu-update-1" ≡ tmp = cc in
      let f : "/usr/local/bin/qu" ≡ exe = cc in
      differ "/usr/local/bin/.qu-update-1" "/usr/local/bin/qu" refl (e ∙ h ∙ sym f);
  probe_apart = λ p exe t s h.
      let e : "/usr/local/bin/.qu-update-probe-1" ≡ p = cc in
      let f : "/usr/local/bin/qu" ≡ exe = cc in
      differ "/usr/local/bin/.qu-update-probe-1" "/usr/local/bin/qu" refl (e ∙ h ∙ sym f);
  other = λ tmp p t s h.
      let e : "/usr/local/bin/.qu-update-1" ≡ tmp = cc in
      let f : "/usr/local/bin/.qu-update-probe-1" ≡ p = cc in
      differ "/usr/local/bin/.qu-update-1" "/usr/local/bin/.qu-update-probe-1" refl (e ∙ h ∙ sym f);
}

run_update-Ends_example : Ends world plain disk (run_update world plain disk)
run_update-Ends_example = run_update-Ends world plain disk world-Fresh

does_install : (run_update world plain disk).1 ≡ installed "v2" "/usr/local/bin/qu"
unfolding run_update
does_install = refl
