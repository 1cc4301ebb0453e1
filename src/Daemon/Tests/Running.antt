-- ===== src/Daemon/Tests/Running.antt =====
-- The theorems about the start of the daemon and about probe results at concrete inputs.
use quptime.Prelude.{
  String, Option, [], ◌∷◌, true, false, some, none, ◌≡◌, ◌≢◌, refl, ◌⊎◌, inl, inr, differ,
}
use quptime.Prelude.Int.{pos}
use quptime.Config.Cluster.{contents, load_cluster_config}
use quptime.Config.Node.{NodeConfig, NodeFile, load_node_config, apply_env_overrides, save_node}
use quptime.Quorum.Manager.{is_master, new_manager}
use quptime.Checks.Aggregator.{ProbeResult}
use quptime.Replicate.Replicator.{address_of}
use quptime.Daemon.Status.{Parts}
use quptime.Daemon.Results.{
  Report, reported, report_of, sink_submit, handle_report, submit_local, milliseconds,
}
use quptime.Daemon.Results.Reports.{handle_report-sink_submit}
use quptime.Daemon.New.{Files, Daemon, started, new_daemon, assemble}
use quptime.Daemon.New.Started.{Started, new_daemon-Started}
use quptime.Config.Cluster.{find_enrollment_by_id}
use quptime.Replicate.Replicator.{ok}
use quptime.Transport.Trust.{lookup_by_fingerprint}
use quptime.Transport.Server.{Host, Request, peer_trusted, handle_conn}
use quptime.Transport.Server.Gate.{Confined}
use quptime.Daemon.Enroll.{EnrollRequest, verify_enroll_secret}
use quptime.Daemon.Tokens.{hash_enroll_secret}
use quptime.Daemon.Handlers.{Wiring, World, around_at, server}
use quptime.Daemon.Handlers.Strangers.{Same, Unauthorised, handle_conn-Same}
use quptime.Daemon.Tests.{lab, silent_channels, joiner, holding, fresh_entry}
use quptime.Samples.{three, newer}

-- a follower and its master
abbrev probing : Parts
probing = record {
  manager = record (new_manager "b") { master_id = "a" };
  config = three;
  aggregator = [];
}

abbrev counting : Parts
counting = record probing { manager = record (new_manager "a") { master_id = "a" } }

abbrev probed : ProbeResult
probed = record { check_id = "c1"; ok = true; detail = ""; latency = pos 1_234_567; timestamp = 5 }

abbrev sent_report : Report
sent_report = record {
  from_node_id = "b";
  check_id = "c1";
  ok = true;
  detail = "";
  latency_ms = pos 1;
  at = 5;
}

abbrev web_address : String
web_address = "host:9901"

reports : sink_submit silent_channels 5 probing probed ≡ reported "a" web_address sent_report
unfolding sink_submit report_of milliseconds address_of
reports = refl

handle_report-sink_submit_example :
    (is_master probing.manager ≡ false)
    × (probing.manager.master_id ≡ probing.manager.master_id)
    × (web_address ≡ address_of "a" three.peers)
    × (web_address ≢ "")
    × (handle_report silent_channels 6 counting sent_report
        ≡ submit_local silent_channels 6 counting "b" probed)
    × ((is_master counting.manager ≡ true)
        ⊎ ((handle_report silent_channels 6 counting sent_report).deliveries ≡ []))
handle_report-sink_submit_example =
    handle_report-sink_submit silent_channels 5 6 probing counting probed "a" web_address
      sent_report reports

-- a node.yaml that still has a cluster secret
abbrev old_node : NodeConfig
old_node = record {
  node_id = "c";
  bind_addr = "10.0.0.1";
  bind_port = pos 9901;
  advertise = "host:9901";
  cluster_secret = "old";
}

abbrev node_file : NodeFile
node_file = record {
  getenv = λ name. "";
  atoi = λ s. none;
  itoa = λ port. "9901";
  parse = λ raw. some old_node;
  marshal = λ n. some n.node_id;
  write = λ out. none;
}

abbrev files : Files
files = record {
  node_file = node_file;
  node_yaml = contents "node";
  cluster_yaml = contents "cluster";
  parse_cluster = λ raw. some newer;
  trusted = some [];
  key = some "key";
  cert = some "cert";
}

abbrev fresh_daemon : Daemon
unfolding assemble load_cluster_config
fresh_daemon =
    assemble files lab (record old_node { cluster_secret = "" })
      (record newer { last_sum = "cluster" }) [] "cert"

starts : new_daemon files lab ≡ started fresh_daemon
unfolding new_daemon fresh_daemon load_node_config apply_env_overrides save_node load_cluster_config
starts = refl

new_daemon-Started_example : Started files lab fresh_daemon
unfolding fresh_daemon
new_daemon-Started_example =
    new_daemon-Started files lab fresh_daemon starts
      ((λ h. elim h [ inl e ↦ differ "a" "b" refl e | inr m ↦ m ]), (λ h. h, tt))

-- an enrollment request with a wrong secret, in every frame
abbrev guess : EnrollRequest
guess = record joiner { token_secret = "guess" }

abbrev wiring : Wiring
wiring = record {
  around = lab;
  clock = λ reads. reads;
  node = old_node;
  itoa = λ port. "9901";
  cert = "cert";
  channels = silent_channels;
  fetch = λ id addr. ok none;
  decode_enroll = λ raw. some guess;
  decode_heartbeat = λ raw. none;
  decode_apply = λ raw. some (some newer);
  decode_proposal = λ raw. none;
  decode_report = λ raw. some sent_report;
  encode = λ reply. some "reply";
}

-- a master with a token that was handed out
abbrev inviting : World
inviting = record { parts = record counting { config = holding.config }; trust = []; reads = 0 }

wrong_secret : (params : String) → Unauthorised wiring inviting params
unfolding around_at find_enrollment_by_id verify_enroll_secret hash_enroll_secret
wrong_secret params req now e a =
    let q : guess ≡ req = cc in
    let known : some fresh_entry ≡ some a.entry = rw (← q) at a.known in
    let same : fresh_entry ≡ a.entry = cc in
    let secret : verify_enroll_secret lab "guess" fresh_entry.secret_hash ≡ true =
      rw (← q, ← same) at a.secret in
    absurd cc

abbrev frame_decoder : String → Option Request
frame_decoder frame = some (record { id = 1; method = frame; params = "" })

abbrev tls : Host World
tls = server wiring frame_decoder (λ r. true)

stranger_untrusted : peer_trusted tls "x" "fx" inviting ≡ false
unfolding peer_trusted server lookup_by_fingerprint
stranger_untrusted = refl

handle_conn-Same_example :
    Confined tls "x" "fx"
      (Same wiring inviting)
      (Unauthorised wiring inviting)
      (handle_conn tls "x" "fx" inviting ("Enroll" ∷ "ApplyClusterCfg" ∷ []))
handle_conn-Same_example =
    handle_conn-Same wiring inviting frame_decoder (λ r. true) "x" "fx"
      ("Enroll" ∷ "ApplyClusterCfg" ∷ []) stranger_untrusted
      ((λ req e. wrong_secret req.params), ((λ req e. wrong_secret req.params), tt))
