-- ===== src/Daemon/Control.antt =====
-- The control socket, internal/daemon/control.go: the methods of `dispatch`, minting a token, and
-- the listings. The JSON decoders, the random source and what surrounds the daemon are arguments.
pub mod Redeem
pub mod Endpoints
use quptime.Prelude.{
  ℕ, ◌+◌, String, Bool, ◌||◌, Option, none, some, List, [], ◌∷◌, ◌==◌, nat_eq, ltb, if◌then◌else◌,
}
use quptime.Prelude.Int.{ℤ, pos_part}
use quptime.Config.Types.{PeerInfo, Alert, Check, PendingJoin, PendingEnrollment, ClusterConfig}
use quptime.Config.Cluster.{Error, contains}
use quptime.Config.Node.{NodeConfig, advertise_addr}
use quptime.Alerts.Dispatcher.{Channels, Message}
use quptime.Replicate.Mutation.{add_enrollment, an_enrollment}
use quptime.Replicate.Replicator.{Result, ok, err}
use quptime.Daemon.Enroll.{Surroundings, NodeState, mutate_and_sync}
use quptime.Daemon.Status.{StatusResponse}
use quptime.Daemon.Tokens.{
  EnrollEndpoint, EnrollmentTokenPayload, TokenCodec, encode_enrollment_token, hash_enroll_secret,
}

-- What surrounds the control socket in one request. `random_id` and `random_secret` are none where
-- the random source fails; `sum` is SHA-256 as hex, `keyword` trims and lowers a test state, and
-- `status` is the answer of `buildStatusForCLI`.
pub record Host : Type 0 where
  pub around : Surroundings
  pub node : NodeConfig
  pub itoa : ℤ → String
  pub own_cert : String
  pub tokens : TokenCodec
  pub random_id : Option String
  pub random_secret : Option String
  pub sum : String → String
  pub channels : Channels
  pub plain : Alert → Message
  pub detail : Check → String
  pub keyword : String → String
  pub status : ClusterConfig → StatusResponse

pub record EnrollCreateBody : Type 0 where
  pub name : String
  pub ttl : ℤ
  pub auto_approve : Bool

pub record EnrollCreateResult : Type 0 where
  pub id : String
  pub name : String
  pub token : String
  pub expires_at : ℕ
  pub auto_approve : Bool
  pub version : ℕ

pub data CreateError : Type 0 where
  ttl_too_long generate_id generate_secret : CreateError
  record_enrollment : Error → CreateError

pub data Created : Type 0 where
  created : EnrollCreateResult → Created
  not_created : CreateError → Created

abbrev pub hour : ℕ
hour = 3_600_000_000_000

-- the time that a token lives: an hour where none is asked for
unfoldable pub ttl_of : EnrollCreateBody → ℕ
ttl_of body = if nat_eq (pos_part body.ttl) 0 then hour else pos_part body.ttl

endpoints_from : List String → List PeerInfo → List EnrollEndpoint
endpoints_from seen [] = []
endpoints_from seen (p ∷ rest) =
    let skip = contains seen p.node_id || p.advertise == "" || p.fingerprint == "" in
    let more = endpoints_from (if skip then seen else p.node_id ∷ seen) rest in
    if skip then more else record { advertise = p.advertise; fingerprint = p.fingerprint } ∷ more

-- a fingerprint, blank where the certificate does not parse
abbrev pub or_blank : Option String → String
or_blank none = ""
or_blank (some fp) = fp

-- `enrollEndpoints`
unfoldable pub enroll_endpoints : Host → ClusterConfig → List EnrollEndpoint
unfolding endpoints_from advertise_addr
enroll_endpoints h c =
    record {
      advertise = advertise_addr h.itoa h.node;
      fingerprint = or_blank (h.around.fingerprint_from_cert h.own_cert);
    }
    ∷ endpoints_from (h.node.node_id ∷ []) c.peers

-- the entry that `enrollCreate` records
abbrev pub minted : Host → EnrollCreateBody → String → String → PendingEnrollment
minted h body id secret = record {
  id = id;
  name = body.name;
  secret_hash = hash_enroll_secret h.sum secret;
  auto_approve = body.auto_approve;
  created_by = h.node.node_id;
  created_at = h.around.env.now;
  expires_at = h.around.env.now + ttl_of body;
  pending_join = none;
}

-- the payload of the token that it returns
abbrev pub invited : Host → PendingEnrollment → String → ClusterConfig → EnrollmentTokenPayload
invited h entry secret c = record {
  id = entry.id;
  secret = secret;
  endpoints = enroll_endpoints h c;
  expires_at = entry.expires_at;
}

handed_out : Host → PendingEnrollment → String → NodeState × Result ℕ → NodeState × Created
unfolding encode_enrollment_token
handed_out h entry secret (s, err e) = (s, not_created (record_enrollment e))
handed_out h entry secret (s, ok ver) = (
  s,
  created (record {
    id = entry.id;
    name = entry.name;
    token = encode_enrollment_token h.tokens (invited h entry secret s.config);
    expires_at = entry.expires_at;
    auto_approve = entry.auto_approve;
    version = ver;
  }),
)

mint : Host → EnrollCreateBody → NodeState → Option String → Option String → NodeState × Created
unfolding handed_out mutate_and_sync
mint h body s none secret = (s, not_created generate_id)
mint h body s (some id) none = (s, not_created generate_secret)
mint h body s (some id) (some secret) =
    let entry = minted h body id secret in
    handed_out h entry secret (mutate_and_sync h.around add_enrollment (an_enrollment entry) s)

abbrev pub max_ttl : ℕ
max_ttl = 604_800_000_000_000

-- `enrollCreate`
unfoldable pub enroll_create : Host → EnrollCreateBody → NodeState → NodeState × Created
unfolding mint ttl_of
enroll_create h body s =
    if ltb max_ttl (ttl_of body)
    then (s, not_created ttl_too_long)
    else mint h body s h.random_id h.random_secret

pub record EnrollListPendingJoiner : Type 0 where
  pub node_id : String
  pub advertise : String
  pub fingerprint : String
  pub submitted_at : ℕ

pub record EnrollListEntry : Type 0 where
  pub id : String
  pub name : String
  pub auto_approve : Bool
  pub created_by : String
  pub created_at : ℕ
  pub expires_at : ℕ
  pub pending : Option EnrollListPendingJoiner

pending_row : Option PendingJoin → Option EnrollListPendingJoiner
pending_row none = none
pending_row (some pj) = some (record {
  node_id = pj.node_id;
  advertise = pj.advertise;
  fingerprint = pj.fingerprint;
  submitted_at = pj.submitted_at;
})

-- `enrollList`
unfoldable pub enroll_list : List PendingEnrollment → List EnrollListEntry
unfolding pending_row
enroll_list [] = []
enroll_list (e ∷ rest) =
    record {
      id = e.id;
      name = e.name;
      auto_approve = e.auto_approve;
      created_by = e.created_by;
      created_at = e.created_at;
      expires_at = e.expires_at;
      pending = pending_row e.pending_join;
    }
    ∷ enroll_list rest
