-- ===== src/Config/Node/Overrides.antt =====
-- The precedence of the environment, the file and the defaults in internal/config/node.go.
use Prim.Native.String.append.{nil, cons}
use quptime.Prelude.{
  String, Option, none, some, ◌≡◌, ◌≢◌, refl, ◌⊎◌, inl, inr, ◌==◌, eq_iff, arith, if◌then◌else◌,
  ◌||◌, sym, ◌∙◌, Bool-cases, Option-cases, text_append,
}
use quptime.Prelude.Int.{ℤ, pos, int_eq}
use quptime.Config.Cluster.{FileRead, missing, unreadable, contents}
use quptime.Config.Node.{
  NodeConfig, NodeFile, loaded, override, override_port, default_bind_port, with_defaults,
  after_env, after_parse, apply_env_overrides, load_node_config, advertise_addr,
}

-- a port of zero stands for the default
abbrev pub port_or_default : ℤ → ℤ
port_or_default p = if int_eq p (pos 0) then default_bind_port else p

-- What `LoadNodeConfig` makes of the file's contents.
pub record Layered (f : NodeFile) (file n : NodeConfig) : Type 0 where
  pub id : n.node_id ≡ override (f.getenv "QUPTIME_NODE_ID") file.node_id
  pub address :
      n.bind_addr ≡ override (override (f.getenv "QUPTIME_BIND_ADDR") file.bind_addr) "0.0.0.0"
  pub port :
      ((f.getenv "QUPTIME_BIND_PORT" ≡ "") × (n.bind_port ≡ port_or_default file.bind_port))
      ⊎ ((p : ℤ) × (f.getenv "QUPTIME_BIND_PORT" ≢ "")
          × (f.atoi (f.getenv "QUPTIME_BIND_PORT") ≡ some p)
          × (n.bind_port ≡ port_or_default p))
  pub advertised : n.advertise ≡ override (f.getenv "QUPTIME_ADVERTISE") file.advertise
  pub secret : n.cluster_secret ≡ file.cluster_secret

append_nonempty : (s t : String) → text_append s (text_append ":" t) ≢ ""
append_nonempty String.[] t h =
    let e : String.◌∷◌ ":" (text_append "" t) ≡ String.[] =
      sym (cons ":" "" t) ∙ sym (nil (text_append ":" t)) ∙ h in
    cc
append_nonempty (String.◌∷◌ c s) t h =
    let e : String.◌∷◌ c (text_append s (text_append ":" t)) ≡ String.[] =
      sym (cons c s (text_append ":" t)) ∙ h in
    cc

-- the address that a node tells the others is never blank
advertise_addr_nonempty : (itoa : ℤ → String) (n : NodeConfig) → advertise_addr itoa n ≢ ""
unfolding advertise_addr
advertise_addr_nonempty itoa n = elim (Bool-cases (n.advertise == "")) [
  | inl e ↦ simp e (
      append_nonempty
        (if n.bind_addr == "" || n.bind_addr == "0.0.0.0" || n.bind_addr == "::"
          then "127.0.0.1"
          else n.bind_addr)
        (itoa n.bind_port))
  | inr e ↦ simp e (ground (arith, eq_iff n.advertise "", e))
]

after_env-Layered :
    (f : NodeFile) (file n : NodeConfig)
    → after_env (apply_env_overrides f file) ≡ loaded n
    → Layered f file n
unfolding after_env with_defaults apply_env_overrides override_port
after_env-Layered f file n h = elim (Bool-cases (f.getenv "QUPTIME_BIND_PORT" == "")) [
  | inl e ↦
      let q : n
          ≡ with_defaults (record file {
            node_id = override (f.getenv "QUPTIME_NODE_ID") file.node_id;
            bind_addr = override (f.getenv "QUPTIME_BIND_ADDR") file.bind_addr;
            advertise = override (f.getenv "QUPTIME_ADVERTISE") file.advertise;
          }) =
        cc (simp e at h) in
      rw q (record {
        id = refl;
        address = refl;
        port = inl ((eq_iff (f.getenv "QUPTIME_BIND_PORT") "").0 e, refl);
        advertised = refl;
        secret = refl;
      })
  | inr e ↦ elim (Option-cases (f.atoi (f.getenv "QUPTIME_BIND_PORT"))) [
    | inl a ↦ absurd (cc (simp (e, a) at h))
    | inr (p, a) ↦
        let q : n
            ≡ with_defaults (record file {
              node_id = override (f.getenv "QUPTIME_NODE_ID") file.node_id;
              bind_addr = override (f.getenv "QUPTIME_BIND_ADDR") file.bind_addr;
              bind_port = p;
              advertise = override (f.getenv "QUPTIME_ADVERTISE") file.advertise;
            }) =
          cc (simp (e, a) at h) in
        rw q (record {
          id = refl;
          address = refl;
          port = inr (p, (ground (arith, eq_iff (f.getenv "QUPTIME_BIND_PORT") "", e)), a, refl);
          advertised = refl;
          secret = refl;
        })
  ]
]

after_parse-Layered :
    (f : NodeFile) (o : Option NodeConfig) (n : NodeConfig)
    → after_parse f o ≡ loaded n
    → (file : NodeConfig) × (o ≡ some file) × Layered f file n
unfolding after_parse
after_parse-Layered f none n h = absurd (ground arith)
after_parse-Layered f (some file) n h = (file, refl, after_env-Layered f file n h)

-- A node.yaml that loads was read and parsed, and each field is the environment's where its
-- variable is set, else the file's, else the default; a port variable that is no integer never
-- loads. The address that the node then advertises is not blank.
pub load_node_config-Layered :
    (f : NodeFile) (r : FileRead) (n : NodeConfig)
    → load_node_config f r ≡ loaded n
    → ((raw : String) × (file : NodeConfig) × (r ≡ contents raw)
        × (f.parse raw ≡ some file)
        × Layered f file n)
      × (advertise_addr f.itoa n ≢ "")
unfolding load_node_config
load_node_config-Layered f missing n h = absurd (ground arith)
load_node_config-Layered f (unreadable e) n h = absurd (ground arith)
load_node_config-Layered f (contents raw) n h =
    let (file, parsed, layers) = after_parse-Layered f (f.parse raw) n h in
    ((raw, file, refl, parsed, layers), advertise_addr_nonempty f.itoa n)
