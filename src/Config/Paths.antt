-- ===== src/Config/Paths.antt =====
-- internal/config/paths.go: where the files are, and how one is written. The environment, the joining
-- of paths, the existence of a file and the end of each system call are arguments. A directory is
-- the list of its files under their paths.
pub mod Swap
pub mod Socket
use quptime.Prelude.{
  ℕ, String, Bool, not, Option, none, some, List, [], ◌∷◌, ◌==◌, if◌then◌else◌, lookup, insert,
  remove, text_append,
}

pub record File : Type 0 where
  pub content : String
  pub mode : ℕ

abbrev pub Files : Type 0
Files = List (String × File)

pub data FileError : Type 0 where
  empty_path mkdir_failed temp_failed write_failed chmod_failed sync_failed close_failed : FileError
  rename_failed : FileError

-- How the system calls of one write end: the name of the temporary file (none for an error), what of
-- the data a failing write has left, and whether the temporary file can be removed.
pub record Syscalls : Type 0 where
  pub mkdir : Bool
  pub temp : Option String
  pub write : Bool
  pub partial : String
  pub chmod : Bool
  pub sync : Bool
  pub close : Bool
  pub rename : Bool
  pub remove : Bool

-- the mode of a file that `os.CreateTemp` makes, 0o600
abbrev pub temp_mode : ℕ
temp_mode = 0x180

-- the file is there with this content and mode
abbrev pub put : String → String → ℕ → Files → Files
put name content mode = insert name (record { content = content; mode = mode })

-- `os.Remove`, whose error nobody looks at
abbrev pub cleaned : Bool → String → Files → Files
cleaned removed tmp dir = if removed then remove tmp dir else dir

moved : String → String → Option File → Files → Files
moved tmp path none dir = dir
moved tmp path (some f) dir = insert path f (remove tmp dir)

-- `os.Rename`
unfoldable pub rename_to : String → String → Files → Files
unfolding moved
rename_to tmp path dir = moved tmp path (lookup tmp dir) dir

write_temp : Syscalls → String → String → ℕ → Files → Option String → Files × Option FileError
unfolding rename_to
write_temp o path text perm dir none = (dir, some temp_failed)
write_temp o path text perm dir (some tmp) =
    let created = put tmp "" temp_mode dir in
    if not o.write
    then (cleaned o.remove tmp (put tmp o.partial temp_mode created), some write_failed)
    else let written = put tmp text temp_mode created in
      if not o.chmod
      then (cleaned o.remove tmp written, some chmod_failed)
      else let moded = put tmp text perm written in
        if not o.close
        then (cleaned o.remove tmp moded, some close_failed)
        else if not o.rename
        then (moded, some rename_failed)
        else (rename_to tmp path moded, none)

-- `AtomicWrite`: no temporary file is removed after a failing rename
unfoldable pub atomic_write : Syscalls → String → String → ℕ → Files → Files × Option FileError
unfolding write_temp
atomic_write o path text perm dir =
    if path == ""
    then (dir, some empty_path)
    else if not o.mkdir
    then (dir, some mkdir_failed)
    else write_temp o path text perm dir o.temp

-- What the paths depend on. An unset variable is the empty string, and so is a home that
-- `os.UserHomeDir` does not find; `before_colon` cuts at the first colon.
pub record Place : Type 0 where
  pub getenv : String → String
  pub root : Bool
  pub home : String
  pub temp_dir : String
  pub join : List String → String
  pub exists : String → Bool
  pub before_colon : String → String

-- `DataDir`
unfoldable pub data_dir : Place → String
data_dir p =
    if not (p.getenv "QUPTIME_DIR" == "")
    then p.getenv "QUPTIME_DIR"
    else if p.root
    then "/etc/quptime"
    else if not (p.getenv "XDG_CONFIG_HOME" == "")
    then p.join (p.getenv "XDG_CONFIG_HOME" ∷ "quptime" ∷ [])
    else if p.home == ""
    then "./quptime"
    else p.join (p.home ∷ ".config" ∷ "quptime" ∷ [])

-- `envUserSuffix`
unfoldable pub env_user_suffix : Place → String
env_user_suffix p = if p.getenv "USER" == "" then "default" else p.getenv "USER"

abbrev pub socket_name : String
socket_name = "quptime.sock"

abbrev pub system_socket : String
system_socket = "/run/quptime/quptime.sock"

abbrev pub var_socket : String
var_socket = "/var/run/quptime/quptime.sock"

-- `SocketPath`
unfoldable pub socket_path : Place → String
unfolding env_user_suffix
socket_path p =
    if not (p.getenv "QUPTIME_SOCKET" == "")
    then p.getenv "QUPTIME_SOCKET"
    else if not (p.getenv "RUNTIME_DIRECTORY" == "")
    then p.join (p.before_colon (p.getenv "RUNTIME_DIRECTORY") ∷ socket_name ∷ [])
    else if p.exists system_socket
    then system_socket
    else if p.exists var_socket
    then var_socket
    else if p.root
    then var_socket
    else if not (p.getenv "XDG_RUNTIME_DIR" == "")
    then p.join (p.getenv "XDG_RUNTIME_DIR" ∷ "quptime" ∷ socket_name ∷ [])
    else p.join (p.temp_dir ∷ text_append "quptime-" (env_user_suffix p) ∷ socket_name ∷ [])
