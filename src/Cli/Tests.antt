-- ===== src/Cli/Tests.antt =====
-- The theorems about internal/cli at concrete inputs: a new host with a token of one endpoint.
mod Updating
mod Editing
mod Silencing
use quptime.Prelude.{true, false, some, none, [], ◌∷◌, ◌≡◌, refl}
use quptime.Prelude.Int.{pos}
use quptime.Config.Cluster.{mutate, persist}
use quptime.Config.Node.{NodeConfig, advertise_addr, save_node}
use quptime.Transport.Trust.{add}
use quptime.Daemon.Tokens.{EnrollmentTokenPayload, decode_enrollment_token}
use quptime.Cli.Bootstrap.{Machine, bootstrap_node, filled, self_peer}
use quptime.Cli.Join.{Site, Call, PeerCertSample, verified_endpoint, call_of, run_enroll_join}
use quptime.Cli.Join.Pinned.{PinnedCall, run_enroll_join-PinnedCall}
use quptime.Samples.{working}

abbrev host : Machine
host = record {
  data_dir = none;
  uuid = "d";
  node_file = record {
    getenv = λ name. "";
    atoi = λ s. none;
    itoa = λ port. "9901";
    parse = λ raw. none;
    marshal = λ n. some n.node_id;
    write = λ out. none;
  };
  keys = λ id. none;
  cert = some "fd";
  fingerprint_from_cert = λ pem. some pem;
  disk = working;
  now = 5;
}

abbrev ticket : EnrollmentTokenPayload
ticket = record {
  id = "t1";
  secret = "s3cret";
  endpoints = record { advertise = "a:9901"; fingerprint = "fa" } ∷ [];
  expires_at = 9;
}

abbrev presented : PeerCertSample
presented = record { fingerprint = "fa"; cert_pem = "pem a"; common_name = "a" }

abbrev site : Site
site = record {
  machine = host;
  codec = record {
    marshal = λ p. p.secret;
    unmarshal = λ raw. some ticket;
    encode_base64 = λ s. s;
    decode_base64 = λ s. some s;
  };
  node_exists = false;
  key_loads = true;
  cert_loads = true;
  own_cert = "fd";
  trust_loads = true;
  trust = [];
  trust_disk = none;
  fetch = λ addr. some presented;
  confirmed = true;
  call = λ id addr req. none;
}

abbrev made : Call
made = record {
  node_id = "a";
  addr = "a:9901";
  request = record {
    token_id = "t1";
    token_secret = "s3cret";
    node_id = "d";
    advertise = "new:9901";
    fingerprint = "fd";
    cert_pem = "fd";
  };
}

calls_once : (run_enroll_join site "token" "new:9901" "0.0.0.0" (pos 9901)).called ≡ some made
unfolding run_enroll_join decode_enrollment_token bootstrap_node filled save_node mutate persist
    self_peer verified_endpoint add call_of advertise_addr
calls_once = refl

run_enroll_join-PinnedCall_example : PinnedCall site "token" made
run_enroll_join-PinnedCall_example =
    run_enroll_join-PinnedCall site "token" "new:9901" "0.0.0.0" (pos 9901) made calls_once

abbrev new_node : NodeConfig
new_node = record {
  node_id = "d";
  bind_addr = "0.0.0.0";
  bind_port = pos 9901;
  advertise = "new:9901";
  cluster_secret = "";
}
