-- ===== src/Samples.antt =====
-- Small concrete configurations and surroundings, for the tests of the components.
use quptime.Prelude.{String, Bool, true, false, Option, none, some, [], ◌∷◌, ◌==◌, if◌then◌else◌}
use quptime.Prelude.Int.{pos}
use quptime.Config.Types.{
  PeerInfo, Check, check_http, check_tcp, Alert, alert_smtp, alert_discord, PendingJoin,
  PendingEnrollment, ClusterConfig,
}
use quptime.Config.Cluster.{Disk}
use quptime.Replicate.Mutation.{Json, Payload, a_check, a_target}
use quptime.Replicate.Replicator.{Env, err}
use quptime.Config.Cluster.{no_quorum}

abbrev pub peer : String → PeerInfo
peer id = record { node_id = id; advertise = "host:9901"; fingerprint = "fp"; cert_pem = "pem" }

abbrev pub web : Check
web = record {
  id = "c1";
  name = "web";
  type = check_http;
  target = "https://example.org";
  interval = pos 30_000_000_000;
  timeout = pos 10_000_000_000;
  expect_status = pos 200;
  body_match = "";
  tls_warn_days = pos 0;
  tls_server_name = "";
  dns_record = "";
  dns_resolver = "";
  dns_expect = "";
  alert_ids = "chat" ∷ [];
  suppress_alert_ids = "pager" ∷ [];
  disabled = false;
  resolvers = [];
}

abbrev pub named_check : String → String → Check
named_check id name = record web { id = id; name = name; type = check_tcp }

abbrev pub chat : Alert
chat = record {
  id = "a1";
  name = "chat";
  type = alert_discord;
  default = false;
  disabled = false;
  smtp_host = "";
  smtp_port = pos 0;
  smtp_user = "";
  smtp_password = "";
  smtp_from = "";
  smtp_to = [];
  smtp_start_tls = false;
  discord_webhook = "https://hook";
  subject_template = "";
  body_template = "{{.Verb}}";
}

abbrev pub mail : Alert
mail = record chat { id = "a2"; name = "mail"; type = alert_smtp; default = true }

abbrev pub pager : Alert
pager = record chat { id = "a3"; name = "pager"; default = true }

abbrev pub join : PendingJoin
join = record {
  node_id = "d";
  advertise = "new:9901";
  fingerprint = "fd";
  cert_pem = "pem";
  submitted_at = 5;
}

abbrev pub invitation : PendingEnrollment
invitation = record {
  id = "e1";
  name = "rack";
  secret_hash = "hash";
  auto_approve = false;
  created_by = "a";
  created_at = 1;
  expires_at = 9;
  pending_join = some join;
}

-- three peers, a check with its alerts, and an enrollment that waits for approval
abbrev pub three : ClusterConfig
three = record {
  version = 1;
  updated_at = 0;
  updated_by = "";
  peers = peer "a" ∷ peer "b" ∷ peer "c" ∷ [];
  checks = web ∷ named_check "c2" "db" ∷ [];
  alerts = chat ∷ mail ∷ pager ∷ [];
  pending_enrollments = invitation ∷ [];
  resolvers = [];
  last_sum = "";
}

abbrev pub newer : ClusterConfig
newer = record three { version = 2; updated_by = "a"; peers = peer "a" ∷ peer "b" ∷ [] }

-- a disk that works, and one whose writes fail
abbrev pub working : Disk
working = record { marshal = λ c. some c.updated_by; write = λ out. none; sum256 = λ out. out }

abbrev pub broken : Disk
broken = record working { write = λ out. some no_quorum }

abbrev encode : Payload → Option String
encode (a_target s) = some s
encode (a_check ch) = some ch.id
encode _ = none

abbrev pub codec : Json
codec = record {
  marshal = encode;
  decode_check = λ raw. if raw == "c1" then some (named_check "c1" "db") else none;
  decode_alert = λ raw. none;
  decode_peer = λ raw. if raw == "" then none else some (peer raw);
  decode_config = λ raw. none;
  decode_enrollment = λ raw. none;
  decode_record = λ raw. none;
  decode_target = λ raw. some raw;
  decode_list = λ raw. none;
  trim_space = λ s. s;
}

-- a node in the view of its quorum manager
abbrev pub node : Bool → Bool → Env
node is_master has_quorum = record {
  self_id = "a";
  view = record { master = "a"; is_master = is_master; has_quorum = has_quorum };
  now = 7;
  disk = working;
  json = codec;
  propose = λ id addr req. err no_quorum;
}
