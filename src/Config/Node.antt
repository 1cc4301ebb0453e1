-- ===== src/Config/Node.antt =====
-- internal/config/node.go. The environment, strconv.Atoi, the decimal text of a port, the YAML codec
-- and the file node.yaml are arguments. An unset variable is the empty string.
pub mod Overrides
use quptime.Prelude.{String, not, ◌||◌, Option, none, some, ◌==◌, if◌then◌else◌, text_append}
use quptime.Prelude.Int.{ℤ, pos, int_eq}
use quptime.Config.Cluster.{FileRead, missing, unreadable, contents}

pub record NodeConfig : Type 0 where
  pub node_id : String
  pub bind_addr : String
  pub bind_port : ℤ
  pub advertise : String
  pub cluster_secret : String

-- What surrounds node.yaml.
pub record NodeFile : Type 0 where
  pub getenv : String → String
  pub atoi : String → Option ℤ
  pub itoa : ℤ → String
  pub parse : String → Option NodeConfig
  pub marshal : NodeConfig → Option String
  pub write : String → Option String

pub data NodeError : Type 0 where
  read_failed : String → NodeError
  parse_node not_an_integer marshal_node : NodeError
  write_node : String → NodeError

-- `AdvertiseAddr`
unfoldable pub advertise_addr : (ℤ → String) → NodeConfig → String
advertise_addr itoa n =
    if not (n.advertise == "")
    then n.advertise
    else let bind =
        if n.bind_addr == "" || n.bind_addr == "0.0.0.0" || n.bind_addr == "::"
        then "127.0.0.1"
        else n.bind_addr in
      text_append bind (text_append ":" (itoa n.bind_port))

-- a variable that is set wins over the field
abbrev pub override : String → String → String
override value field = if value == "" then field else value

override_port : NodeConfig → String → Option ℤ → NodeConfig × Option NodeError
override_port n advertise none = (n, some not_an_integer)
override_port n advertise (some p) =
    (record n { bind_port = p; advertise = override advertise n.advertise }, none)

-- `ApplyEnvOverrides`: where the port is no integer, the fields before it are already set
unfoldable pub apply_env_overrides : NodeFile → NodeConfig → NodeConfig × Option NodeError
unfolding override_port
apply_env_overrides f n =
    let advertise = f.getenv "QUPTIME_ADVERTISE" in
    let port = f.getenv "QUPTIME_BIND_PORT" in
    let named = record n {
      node_id = override (f.getenv "QUPTIME_NODE_ID") n.node_id;
      bind_addr = override (f.getenv "QUPTIME_BIND_ADDR") n.bind_addr;
    } in
    if port == ""
    then (record named { advertise = override advertise named.advertise }, none)
    else override_port named advertise (f.atoi port)

abbrev pub default_bind_port : ℤ
default_bind_port = pos 9901

-- the defaults of `LoadNodeConfig`
with_defaults : NodeConfig → NodeConfig
with_defaults n = record n {
  bind_port = if int_eq n.bind_port (pos 0) then default_bind_port else n.bind_port;
  bind_addr = if n.bind_addr == "" then "0.0.0.0" else n.bind_addr;
}

-- The result of `LoadNodeConfig`.
pub data Loaded : Type 0 where
  loaded : NodeConfig → Loaded
  not_loaded : NodeError → Loaded

after_env : NodeConfig × Option NodeError → Loaded
unfolding with_defaults
after_env (n, some e) = not_loaded e
after_env (n, none) = loaded (with_defaults n)

after_parse : NodeFile → Option NodeConfig → Loaded
unfolding after_env apply_env_overrides
after_parse f none = not_loaded parse_node
after_parse f (some n) = after_env (apply_env_overrides f n)

-- `LoadNodeConfig`: a missing file is an error here
unfoldable pub load_node_config : NodeFile → FileRead → Loaded
unfolding after_parse
load_node_config f missing = not_loaded (read_failed "no such file")
load_node_config f (unreadable e) = not_loaded (read_failed e)
load_node_config f (contents raw) = after_parse f (f.parse raw)

write_error : Option String → Option NodeError
write_error none = none
write_error (some e) = some (write_node e)

save_marshalled : NodeFile → Option String → Option NodeError
unfolding write_error
save_marshalled f none = some marshal_node
save_marshalled f (some out) = write_error (f.write out)

-- `Save`
unfoldable pub save_node : NodeFile → NodeConfig → Option NodeError
unfolding save_marshalled
save_node f n = save_marshalled f (f.marshal n)
