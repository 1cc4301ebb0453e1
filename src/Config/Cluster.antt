-- ===== src/Config/Cluster.antt =====
-- internal/config/cluster.go: the operations of `ClusterConfig`.
pub mod Versions
pub mod Convergence
pub mod Settling
pub mod Attach
pub mod Effective
use quptime.Prelude.{
  ℕ, zero, suc, ◌+◌, ◌/◌, ◌%◌, ◌^◌, String, Bool, true, false, not, ◌&&◌, ◌||◌, Option, none, some,
  List, [], ◌∷◌, ◌++◌, ◌==◌, leb, if◌then◌else◌, length,
}
use quptime.Config.Types.{Check, Alert, PendingEnrollment, ClusterConfig}

-- What a failing operation reports. A message built around a name keeps the name.
pub data Error : Type 0 where
  io_error : String → Error
  decode_error : String → Error
  missing_field : String → Error
  not_found : String → String → Error
  nothing_to_approve : String → Error
  unknown_kind : String → Error
  no_quorum not_master master_unknown empty_peer empty_config : Error
  master_has_no_address : String → Error
  call_failed : String → Error

-- yaml.Marshal, AtomicWrite on cluster.yaml, and sha256.Sum256.
pub record Disk : Type 0 where
  pub marshal : ClusterConfig → Option String
  pub write : String → Option Error
  pub sum256 : String → String

-- The configuration after an operation, the error it returns, and whether the callbacks fire.
pub record Outcome : Type 0 where
  pub config : ClusterConfig
  pub error : Option Error
  pub notified : Bool

abbrev pub contains : List String → String → Bool
contains [] s = false
contains (x ∷ xs) s = x == s || contains xs s

-- `Snapshot`: a copy of all but the saved checksum, which stays zero.
unfoldable pub snapshot : ClusterConfig → ClusterConfig
snapshot c = record c { last_sum = "" }

-- The tail that `Mutate` and `Replace` share: marshal, write, remember the checksum, notify.
after_write : Disk → ClusterConfig → String → Option Error → Outcome
after_write d c out (some e) = record { config = c; error = some e; notified = false }
after_write d c out none = record {
  config = record c { last_sum = d.sum256 out };
  error = none;
  notified = true;
}

after_marshal : Disk → ClusterConfig → Option String → Outcome
after_marshal d c none = record { config = c; error = some (io_error "marshal"); notified = false }
after_marshal d c (some out) = after_write d c out (d.write out)

unfoldable pub persist : Disk → ClusterConfig → Outcome
unfolding after_write after_marshal
persist d c = after_marshal d c (d.marshal c)

bump_version : Disk → ℕ → String → ClusterConfig × Option Error → Outcome
unfolding persist
bump_version d now by_node (c, some e) = record { config = c; error = some e; notified = false }
bump_version d now by_node (c, none) =
    persist d
      (record c { version = (c.version + 1) % 2 ^ 64; updated_at = now; updated_by = by_node })

-- `Mutate`: a failing `fn` leaves what it has written so far.
unfoldable pub mutate :
    Disk → ℕ → String → (ClusterConfig → ClusterConfig × Option Error) → ClusterConfig → Outcome
unfolding bump_version
mutate d now by_node fn c = bump_version d now by_node (fn c)

-- The fields that `Replace` takes from the incoming snapshot: all but the saved checksum.
abbrev pub adopt : ClusterConfig → ClusterConfig → ClusterConfig
adopt incoming c = record incoming { last_sum = c.last_sum }

-- `Replace`: the Boolean that it returns is `error ≡ none` where it goes on, and false if stale.
pub record Replaced : Type 0 where
  pub outcome : Outcome
  pub open outcome use *
  pub applied : Bool

abbrev applied_of : Outcome → Bool
applied_of o = elim o.error [ none ↦ true | some e ↦ false ]

unfoldable pub replace : Disk → ClusterConfig → ClusterConfig → Replaced
unfolding persist
replace d incoming c =
    let o = persist d (adopt incoming c) in
    if leb incoming.version c.version
    then record { outcome = record { config = c; error = none; notified = false }; applied = false }
    else record { outcome = o; applied = applied_of o }

-- `QuorumSize`
unfoldable pub quorum_size : ClusterConfig → ℕ
quorum_size c = let n = length c.peers in elim n [ zero ↦ 1 | suc m ↦ suc m / 2 + 1 ]

-- `FindAlert`
unfoldable pub find_alert : String → List Alert → Option Alert
find_alert id_or_name [] = none
find_alert id_or_name (a ∷ rest) =
    if a.id == id_or_name || a.name == id_or_name then some a else find_alert id_or_name rest

abbrev pub enrollment_matches : String → PendingEnrollment → Bool
enrollment_matches target e = e.id == target || (not (e.name == "") && e.name == target)

-- `FindEnrollment`
unfoldable pub find_enrollment : String → List PendingEnrollment → Option PendingEnrollment
find_enrollment id_or_name [] = none
find_enrollment id_or_name (e ∷ rest) =
    if enrollment_matches id_or_name e then some e else find_enrollment id_or_name rest

-- `FindEnrollmentByID`
unfoldable pub find_enrollment_by_id : String → List PendingEnrollment → Option PendingEnrollment
find_enrollment_by_id id [] = none
find_enrollment_by_id id (e ∷ rest) = if e.id == id then some e else find_enrollment_by_id id rest

-- `EffectiveAlertsFor`: the map `seen` and the slice `out`.
pub record Collected : Type 0 where
  pub seen : List String
  pub out : List Alert

unfoldable pub add_alert : List String → Alert → Collected → Collected
add_alert suppress a s =
    if a.disabled
    then s
    else if contains s.seen a.id
    then s
    else if contains suppress a.id
    then s
    else if contains suppress a.name
    then s
    else record { seen = a.id ∷ s.seen; out = s.out ++ a ∷ [] }

unfoldable pub add_found : List String → Option Alert → Collected → Collected
unfolding add_alert
add_found suppress none s = s
add_found suppress (some a) s = add_alert suppress a s

-- the loop over `check.AlertIDs`, and its inner loop
unfoldable pub add_listed : List String → List Alert → List String → Collected → Collected
unfolding add_found find_alert
add_listed suppress alerts [] s = s
add_listed suppress alerts (want ∷ wants) s =
    add_listed suppress alerts wants (add_found suppress (find_alert want alerts) s)

-- the loop over the default alerts
unfoldable pub add_defaults : List String → List Alert → Collected → Collected
unfolding add_alert
add_defaults suppress [] s = s
add_defaults suppress (a ∷ rest) s =
    add_defaults suppress rest (if a.default then add_alert suppress a s else s)

unfoldable pub effective_alerts_for : ClusterConfig → Option Check → List Alert
unfolding add_listed add_defaults
effective_alerts_for c none = []
effective_alerts_for c (some check) =
    (add_defaults check.suppress_alert_ids c.alerts (
      add_listed check.suppress_alert_ids c.alerts check.alert_ids
        (record { seen = []; out = [] }))).out

-- cluster.yaml as `LoadClusterConfig` finds it
pub data FileRead : Type 0 where
  missing : FileRead
  unreadable : String → FileRead
  contents : String → FileRead

-- the state before a cluster is set up
abbrev pub empty_config_state : ClusterConfig
empty_config_state = record {
  version = 0;
  updated_at = 0;
  updated_by = "";
  peers = [];
  checks = [];
  alerts = [];
  pending_enrollments = [];
  resolvers = [];
  last_sum = "";
}

-- `LoadClusterConfig`; `parse` is yaml.Unmarshal into an empty configuration
unfoldable pub load_cluster_config :
    Disk → (String → Option ClusterConfig) → FileRead → Option ClusterConfig
load_cluster_config d parse missing = some empty_config_state
load_cluster_config d parse (unreadable e) = none
load_cluster_config d parse (contents raw) = elim (parse raw) [
  | none ↦ none
  | some c ↦ some (record c { last_sum = d.sum256 raw })
]

-- `Save`: like the tail of `Mutate`, without the callbacks
unfoldable pub save : Disk → ClusterConfig → Outcome
unfolding persist
save d c = record (persist d c) { notified = false }

-- `LastSavedSum` and `SetLastSavedSum`
abbrev pub last_saved_sum : ClusterConfig → String
last_saved_sum c = c.last_sum

abbrev pub set_last_saved_sum : String → ClusterConfig → ClusterConfig
set_last_saved_sum sum c = record c { last_sum = sum }
