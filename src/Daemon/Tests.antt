-- ===== src/Daemon/Tests.antt =====
-- The data of the tests of internal/daemon, and an enrollment that is refused or authorised.
mod Enrolling
mod Running
mod Socket
use quptime.Prelude.{String, true, some, none, [], ◌∷◌, ◌≡◌, ◌⊎◌}
use quptime.Prelude.Int.{pos}
use quptime.Config.Types.{PendingJoin, PendingEnrollment}
use quptime.Alerts.Dispatcher.{Channels}
use quptime.Replicate.Mutation.{Json, RecordPending}
use quptime.Daemon.Enroll.{Surroundings, NodeState, EnrollRequest, refused, handle_enroll}
use quptime.Daemon.Enroll.Authorised.{Authorised, Complete, handle_enroll-Authorised}
use quptime.Daemon.Status.{StatusResponse}
use quptime.Daemon.Tokens.{hash_enroll_secret}
use quptime.Daemon.Control.{Host, EnrollCreateBody}
use quptime.Daemon.Watcher.{edit_payload}
use quptime.Samples.{three, newer, node, codec}

abbrev lab : Surroundings
lab = record {
  env = node true true;
  fingerprint_from_cert = λ pem. some pem;
  sha256 = λ s. s;
  decode_hex = λ s. some s;
  trust_disk = none;
}

abbrev joiner : EnrollRequest
joiner = record {
  token_id = "t1";
  token_secret = "s3cret";
  node_id = "d";
  advertise = "new:9901";
  fingerprint = "fd";
  cert_pem = "fd";
}

abbrev running : NodeState
running = record { config = three; trust = [] }

handle_enroll-Authorised_example :
    ((why : String) × (handle_enroll lab joiner running ≡ (running, refused why)))
    ⊎ (Complete joiner × Authorised lab joiner running)
handle_enroll-Authorised_example = handle_enroll-Authorised lab joiner running

-- the token that the desk mints, and the state once it is recorded
abbrev fresh_entry : PendingEnrollment
fresh_entry = record {
  id = "t1";
  name = "rack 2";
  secret_hash = hash_enroll_secret (λ s. s) "s3cret";
  auto_approve = true;
  created_by = "a";
  created_at = 7;
  expires_at = 3_600_000_000_007;
  pending_join = none;
}

abbrev joining : PendingJoin
joining = record {
  node_id = "d";
  advertise = "new:9901";
  fingerprint = "fd";
  cert_pem = "fd";
  submitted_at = 7;
}

abbrev claim_of_joiner : RecordPending
claim_of_joiner = record { id = "t1"; pending_join = some joining }

abbrev clerk : Json
clerk = record codec {
  marshal = λ p. some "raw";
  decode_enrollment = λ raw. some fresh_entry;
  decode_record = λ raw. some claim_of_joiner;
  decode_target = λ raw. some "t1";
  decode_config = λ raw. some (edit_payload newer);
}

abbrev office : Surroundings
office = record lab { env = record (node true true) { json = clerk } }

abbrev silent_channels : Channels
silent_channels = record {
  render = λ check from to snap. record { subject = check.name; body = "" };
  exec_subject = λ template check from to snap. none;
  exec_body = λ template check from to snap. none;
  send_smtp = λ alert message. none;
  send_discord = λ alert message. none;
}

abbrev no_status : StatusResponse
no_status = record {
  node_id = "a";
  term = 0;
  master_id = "a";
  version = 0;
  has_quorum = true;
  quorum_size = 2;
  peers = [];
  checks = [];
}

abbrev desk : Surroundings → Host
desk around = record {
  around = around;
  node = record {
    node_id = "a";
    bind_addr = "";
    bind_port = pos 9901;
    advertise = "a:9901";
    cluster_secret = "";
  };
  itoa = λ port. "9901";
  own_cert = "pem";
  tokens = record {
    marshal = λ p. p.secret;
    unmarshal = λ s. none;
    encode_base64 = λ s. s;
    decode_base64 = λ s. some s;
  };
  random_id = some "t1";
  random_secret = some "s3cret";
  sum = λ s. s;
  channels = silent_channels;
  plain = λ alert. record { subject = alert.name; body = "test" };
  detail = λ check. check.target;
  keyword = λ s. s;
  status = λ c. no_status;
}

abbrev wish : EnrollCreateBody
wish = record { name = "rack 2"; ttl = pos 0; auto_approve = true }

abbrev holding : NodeState
holding = record { config = record three { pending_enrollments = fresh_entry ∷ [] }; trust = [] }
