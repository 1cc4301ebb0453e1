-- ===== src/Cli/Join.antt =====
-- `runEnrollJoin` of internal/cli/enroll.go. The token's endpoints, the cluster's answer and the
-- operator's confirmation are arguments; what is printed is left out.
pub mod Pinned
pub mod Seeded
use quptime.Prelude.{
  String, Bool, not, ◌&&◌, Option, none, some, List, [], ◌∷◌, ◌++◌, ◌==◌, nat_eq, ltb,
  if◌then◌else◌,
}
use quptime.Prelude.Int.{ℤ}
use quptime.Config.Types.{PeerInfo, ClusterConfig}
use quptime.Config.Node.{NodeConfig, advertise_addr}
use quptime.Transport.Trust.{Entry, Entries, TrustError, add}
use quptime.Daemon.Enroll.{EnrollRequest}
use quptime.Daemon.Tokens.{
  EnrollEndpoint, EnrollmentTokenPayload, TokenCodec, TokenError, Decoded, token, bad_token,
  decode_enrollment_token,
}
use quptime.Cli.Bootstrap.{
  Machine, BootError, Boot, booted, boot_failed, bootstrap_node, seed_joiner_cluster_yaml,
}

pub record PeerCertSample : Type 0 where
  pub fingerprint : String
  pub cert_pem : String
  pub common_name : String

-- `EnrollResponse` as it arrives
pub record Answer : Type 0 where
  pub accepted : Bool
  pub pending : Bool
  pub error : String
  pub cluster : List PeerInfo

-- What surrounds the command. `fetch` is FetchPeerCert at an address, `own_cert` the certificate
-- that the bootstrap has written, with `trust` the trust store as it is loaded, and `call` the enroll
-- call to a node at an address (none where it fails); the key, the certificate and the trust store
-- may fail to load.
pub record Site : Type 0 where
  pub machine : Machine
  pub codec : TokenCodec
  pub node_exists : Bool
  pub key_loads : Bool
  pub cert_loads : Bool
  pub own_cert : String
  pub trust_loads : Bool
  pub trust : Entries
  pub trust_disk : Option String
  pub fetch : String → Option PeerCertSample
  pub confirmed : Bool
  pub call : String → String → EnrollRequest → Option Answer

pub data JoinError : Type 0 where
  already_initialised token_expired no_endpoint empty_common_name aborted : JoinError
  no_private_key no_own_cert no_own_fingerprint no_trust call_failed neither : JoinError
  bad_join_token : TokenError → JoinError
  not_booted : BootError → JoinError
  bootstrap_trust : TrustError → JoinError
  rejected : String → JoinError

-- A request that was sent, with the node that it was meant for and the address.
pub record Call : Type 0 where
  pub node_id : String
  pub addr : String
  pub request : EnrollRequest

-- What the command leaves: the trust store, cluster.yaml where the bootstrap has written it, the
-- call that it has made, and its error.
pub record Joining : Type 0 where
  pub trust : Entries
  pub cluster : Option ClusterConfig
  pub called : Option Call
  pub error : Option JoinError

abbrev pub Bound : Type 0
Bound = Option (EnrollEndpoint × PeerCertSample)

-- one endpoint, before the `later` ones
check_endpoint : EnrollEndpoint → Bound → Option PeerCertSample → Bound
check_endpoint ep later none = later
check_endpoint ep later (some sample) =
    if not (sample.fingerprint == ep.fingerprint) then later else some (ep, sample)

-- The loop over the token's endpoints: the first that presents the fingerprint of the token.
unfoldable pub verified_endpoint : (String → Option PeerCertSample) → List EnrollEndpoint → Bound
unfolding check_endpoint
verified_endpoint fetch [] = none
verified_endpoint fetch (ep ∷ rest) =
    let later = verified_endpoint fetch rest in check_endpoint ep later (fetch ep.advertise)

abbrev pub entry_for : String → String → String → String → Entry
entry_for id addr fp cert = record {
  node_id = id;
  address = addr;
  fingerprint = fp;
  public_key_pem = "";
  cert_pem = cert;
  added_at = 0;
}

-- The trust store and the peers that the loop over the answer's peers has gathered.
abbrev pub Gathered : Type 0
Gathered = Entries × List PeerInfo

gather_added : String → PeerInfo → Gathered → Entries × Option TrustError → Gathered
gather_added boot p (store, peers) (after, some e) = (after, peers)
gather_added boot p (store, peers) (after, none) =
    (after, if p.node_id == boot then peers else peers ++ p ∷ [])

gather_one : Site → String → PeerInfo → Gathered → Option String → Gathered
unfolding gather_added add
gather_one x boot p g none = g
gather_one x boot p g (some fp) =
    if fp == p.fingerprint
    then gather_added boot p g (
        add x.trust_disk x.machine.now (entry_for p.node_id p.advertise p.fingerprint p.cert_pem)
          g.0)
    else g

-- the loop over the answer's peers
unfoldable pub gather : Site → String → List PeerInfo → Gathered → Gathered
unfolding gather_one
gather x boot [] g = g
gather x boot (p ∷ rest) g =
    gather x boot rest (gather_one x boot p g (x.machine.fingerprint_from_cert p.cert_pem))

-- the verified node as a peer
abbrev pub bootstrap_peer : EnrollEndpoint → PeerCertSample → PeerInfo
bootstrap_peer ep sample = record {
  node_id = sample.common_name;
  advertise = ep.advertise;
  fingerprint = sample.fingerprint;
  cert_pem = sample.cert_pem;
}

abbrev stopped : Entries → Option ClusterConfig → JoinError → Joining
stopped trust c e = record { trust = trust; cluster = c; called = none; error = some e }

answered : Site → NodeConfig → ClusterConfig → PeerInfo → Call → Entries → Option Answer → Joining
unfolding gather seed_joiner_cluster_yaml
answered x n c boot made trust none = record {
  trust = trust;
  cluster = some c;
  called = some made;
  error = some call_failed;
}
answered x n c boot made trust (some a) =
    let seed =
      λ (list : List PeerInfo). some (seed_joiner_cluster_yaml x.machine n x.own_cert list c) in
    let (gathered, peers) = gather x boot.node_id a.cluster (trust, boot ∷ []) in
    if not (a.error == "")
    then record {
      trust = trust;
      cluster = some c;
      called = some made;
      error = some (rejected a.error);
    }
    else if a.pending
    then record { trust = trust; cluster = seed (boot ∷ []); called = some made; error = none }
    else if not a.accepted
    then record { trust = trust; cluster = some c; called = some made; error = some neither }
    else record { trust = gathered; cluster = seed peers; called = some made; error = none }

-- the request of this node, under the token
unfoldable pub call_of : Site → EnrollmentTokenPayload → NodeConfig → String → PeerInfo → Call
unfolding advertise_addr
call_of x p n fp boot = record {
  node_id = boot.node_id;
  addr = boot.advertise;
  request = record {
    token_id = p.id;
    token_secret = p.secret;
    node_id = n.node_id;
    advertise = advertise_addr x.machine.node_file.itoa n;
    fingerprint = fp;
    cert_pem = x.own_cert;
  };
}

-- the trusted endpoint is called
submit :
    Site
    → EnrollmentTokenPayload
    → NodeConfig
    → ClusterConfig
    → String
    → PeerInfo
    → Entries × Option TrustError
    → Joining
unfolding answered call_of
submit x p n c fp boot (trust, some e) = stopped trust (some c) (bootstrap_trust e)
submit x p n c fp boot (trust, none) =
    let made = call_of x p n fp boot in
    answered x n c boot made trust (x.call made.node_id made.addr made.request)

with_endpoint :
    Site → EnrollmentTokenPayload → NodeConfig → ClusterConfig → String → Bound → Joining
unfolding submit add
with_endpoint x p n c fp none = stopped x.trust (some c) no_endpoint
with_endpoint x p n c fp (some (ep, sample)) =
    let boot = bootstrap_peer ep sample in
    if sample.common_name == ""
    then stopped x.trust (some c) empty_common_name
    else if not x.confirmed
    then stopped x.trust (some c) aborted
    else submit x p n c fp boot (
        add x.trust_disk x.machine.now
          (entry_for boot.node_id boot.advertise boot.fingerprint boot.cert_pem) x.trust)

with_identity : Site → EnrollmentTokenPayload → NodeConfig → ClusterConfig → Option String → Joining
unfolding with_endpoint verified_endpoint
with_identity x p n c none = stopped x.trust (some c) no_own_fingerprint
with_identity x p n c (some fp) =
    if not x.trust_loads
    then stopped x.trust (some c) no_trust
    else with_endpoint x p n c fp (verified_endpoint x.fetch p.endpoints)

with_boot : Site → EnrollmentTokenPayload → Boot → Joining
unfolding with_identity
with_boot x p (boot_failed e) = stopped x.trust none (not_booted e)
with_boot x p (booted n c) =
    if not x.key_loads
    then stopped x.trust (some c) no_private_key
    else if not x.cert_loads
    then stopped x.trust (some c) no_own_cert
    else with_identity x p n c (x.machine.fingerprint_from_cert x.own_cert)

with_token : Site → NodeConfig → Decoded → Joining
unfolding with_boot bootstrap_node
with_token x n (bad_token e) = stopped x.trust none (bad_join_token e)
with_token x n (token p) =
    if not (nat_eq p.expires_at 0) && ltb p.expires_at x.machine.now
    then stopped x.trust none token_expired
    else with_boot x p (bootstrap_node x.machine n)

-- the configuration that the flags give
abbrev pub from_flags : String → String → ℤ → NodeConfig
from_flags advertise bind_addr bind_port = record {
  node_id = "";
  bind_addr = bind_addr;
  bind_port = bind_port;
  advertise = advertise;
  cluster_secret = "";
}

-- `runEnrollJoin`
unfoldable pub run_enroll_join : Site → String → String → String → ℤ → Joining
unfolding with_token decode_enrollment_token
run_enroll_join x tok advertise bind_addr bind_port =
    if x.node_exists
    then stopped x.trust none already_initialised
    else with_token x (from_flags advertise bind_addr bind_port)
        (decode_enrollment_token x.codec tok)
