-- ===== src/Daemon/Enroll.antt =====
-- `handleEnroll` and its helpers in internal/daemon/handlers.go, and `syncTrustFromCluster` of
-- internal/daemon/daemon.go, which runs as a callback of each change of the configuration. The
-- fingerprint of a certificate, SHA-256, hex decoding and the write of trust.yaml are arguments.
pub mod Authorised
pub mod Sync
pub mod Synced
pub mod Joined
use quptime.Prelude.{
  ℕ, String, Bool, false, not, ◌&&◌, ◌||◌, Option, none, some, List, [], ◌∷◌, ◌==◌, nat_eq, ltb,
  if◌then◌else◌, lookup,
}
use quptime.Config.Types.{PeerInfo, PendingJoin, PendingEnrollment, ClusterConfig}
use quptime.Config.Cluster.{find_enrollment_by_id}
use quptime.Replicate.Mutation.{
  MutationKind, record_enroll_pending, approve_enrollment, Payload, a_record, a_target,
}
use quptime.Replicate.Replicator.{Env, Effect, Result, ok, err, local_mutate}
use quptime.Transport.Trust.{Entry, Entries, add}
use Prim.Native.Char.{code}

-- What surrounds the daemon.
pub record Surroundings : Type 0 where
  pub env : Env
  pub fingerprint_from_cert : String → Option String
  pub sha256 : String → String
  pub decode_hex : String → Option String
  pub trust_disk : Option String

-- The configuration and the trust store.
pub record NodeState : Type 0 where
  pub config : ClusterConfig
  pub trust : Entries

pub record EnrollRequest : Type 0 where
  pub token_id : String
  pub token_secret : String
  pub node_id : String
  pub advertise : String
  pub fingerprint : String
  pub cert_pem : String

-- `EnrollResponse`, with the peers of the summary where it is accepted
pub data EnrollResponse : Type 0 where
  accepted : List PeerInfo → EnrollResponse
  pending : EnrollResponse
  refused : String → EnrollResponse

-- `stored` without the prefix, if it begins with it
unfoldable pub strip_prefix : String → String → Option String
strip_prefix String.[] s = some s
strip_prefix (String.◌∷◌ c p) String.[] = none
strip_prefix (String.◌∷◌ c p) (String.◌∷◌ d s) =
    let rest = strip_prefix p s in if nat_eq (code c) (code d) then rest else none

decode_rest : (String → Option String) → Option String → Option String
decode_rest decode none = none
decode_rest decode (some rest) = if rest == "" then none else decode rest

-- `decodeHashHex`
unfoldable pub decode_hash_hex : (String → Option String) → String → Option String
unfolding strip_prefix decode_rest
decode_hash_hex decode stored = decode_rest decode (strip_prefix "sha256:" stored)

-- `verifyEnrollSecret`
unfoldable pub verify_enroll_secret : Surroundings → String → String → Bool
unfolding decode_hash_hex
verify_enroll_secret d presented stored = elim (decode_hash_hex d.decode_hex stored) [
  | none ↦ false
  | some want ↦ want == d.sha256 presented
]

trusted_as : Option Entry → String → Bool
trusted_as none fp = false
trusted_as (some e) fp = e.fingerprint == fp

-- the loop of `syncTrustFromCluster`
unfoldable pub sync_trust : Surroundings → List PeerInfo → Entries → Entries
unfolding add trusted_as
sync_trust d [] store = store
sync_trust d (p ∷ rest) store =
    let entry : Entry = record {
      node_id = p.node_id;
      address = p.advertise;
      fingerprint = p.fingerprint;
      public_key_pem = "";
      cert_pem = p.cert_pem;
      added_at = 0;
    } in
    sync_trust d rest (
      if p.node_id == ""
        || p.node_id == d.env.self_id
        || p.fingerprint == ""
        || p.cert_pem == ""
        || trusted_as (lookup p.node_id store) p.fingerprint
      then store
      else (add d.trust_disk d.env.now entry store).0)

-- a mutation through the replicator, and the callback that it fires
synced : Surroundings → Entries → Effect × Result ℕ → NodeState × Result ℕ
unfolding sync_trust
synced d store (s, r) =
    let trust = sync_trust d s.config.peers store in
    (record { config = s.config; trust = if s.notified then trust else store }, r)

unfoldable pub mutate_and_sync :
    Surroundings → MutationKind → Payload → NodeState → NodeState × Result ℕ
unfolding synced
mutate_and_sync d kind payload s = synced d s.trust (local_mutate d.env kind payload s.config)

-- `enrollPeersForJoiner`
unfoldable pub enroll_peers_for_joiner : String → List PeerInfo → List PeerInfo
enroll_peers_for_joiner joiner [] = []
enroll_peers_for_joiner joiner (p ∷ rest) =
    let more = enroll_peers_for_joiner joiner rest in
    if p.node_id == joiner || p.node_id == "" || p.fingerprint == "" || p.cert_pem == ""
    then more
    else p ∷ more

-- the eager trust in the joiner, and the answer
approved : Surroundings → PendingJoin → NodeState × Result ℕ → NodeState × EnrollResponse
unfolding enroll_peers_for_joiner add
approved d pj (s, err e) = (s, refused "auto-approve")
approved d pj (s, ok v) =
    let entry : Entry = record {
      node_id = pj.node_id;
      address = pj.advertise;
      fingerprint = pj.fingerprint;
      public_key_pem = "";
      cert_pem = pj.cert_pem;
      added_at = 0;
    } in
    (
      record s { trust = (add d.trust_disk d.env.now entry s.trust).0 },
      accepted (enroll_peers_for_joiner pj.node_id s.config.peers),
    )

recorded :
    Surroundings
    → PendingEnrollment
    → PendingJoin
    → NodeState × Result ℕ
    → NodeState × EnrollResponse
unfolding approved mutate_and_sync
recorded d entry pj (s, err e) = (s, refused "record pending join")
recorded d entry pj (s, ok v) =
    if not entry.auto_approve
    then (s, pending)
    else approved d pj (mutate_and_sync d approve_enrollment (a_target entry.id) s)

-- the join that a request asks for
abbrev pub join_of : Surroundings → EnrollRequest → PendingJoin
join_of d req = record {
  node_id = req.node_id;
  advertise = req.advertise;
  fingerprint = req.fingerprint;
  cert_pem = req.cert_pem;
  submitted_at = d.env.now;
}

-- an entry that expires has a time, and it has passed
unfoldable pub expired : ℕ → PendingEnrollment → Bool
expired now entry = not (nat_eq entry.expires_at 0) && ltb entry.expires_at now

with_entry :
    Surroundings → EnrollRequest → NodeState → Option PendingEnrollment → NodeState × EnrollResponse
unfolding recorded verify_enroll_secret expired mutate_and_sync
with_entry d req s none = (s, refused "unknown enrollment token")
with_entry d req s (some entry) =
    if expired d.env.now entry
    then (s, refused "enrollment token expired")
    else if not (verify_enroll_secret d req.token_secret entry.secret_hash)
    then (s, refused "invalid enrollment token")
    else recorded d entry (join_of d req) (
        mutate_and_sync d record_enroll_pending
          (a_record (record { id = entry.id; pending_join = some (join_of d req) })) s)

with_fingerprint :
    Surroundings → EnrollRequest → NodeState → Option String → NodeState × EnrollResponse
unfolding with_entry find_enrollment_by_id
with_fingerprint d req s none = (s, refused "parse cert")
with_fingerprint d req s (some derived) =
    if not (derived == req.fingerprint)
    then (s, refused "claimed fingerprint does not match supplied cert")
    else with_entry d req s (find_enrollment_by_id req.token_id s.config.pending_enrollments)

-- `handleEnroll`
unfoldable pub handle_enroll : Surroundings → EnrollRequest → NodeState → NodeState × EnrollResponse
unfolding with_fingerprint
handle_enroll d req s =
    if req.token_id == "" || req.token_secret == ""
    then (s, refused "token_id and token_secret are required")
    else if req.node_id == "" || req.cert_pem == "" || req.fingerprint == ""
    then (s, refused "node_id, cert_pem and fingerprint are required")
    else with_fingerprint d req s (d.fingerprint_from_cert req.cert_pem)
