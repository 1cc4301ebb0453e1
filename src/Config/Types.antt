-- ===== src/Config/Types.antt =====
-- The data of internal/config/cluster.go. A time is a number of nanoseconds since Go's zero time;
-- a duration is an `int64`. A nil pointer is `none`.
use quptime.Prelude.{ℕ, String, Bool, Option, List}
use quptime.Prelude.Int.{ℤ}

pub record PeerInfo : Type 0 where
  pub node_id : String
  pub advertise : String
  pub fingerprint : String
  pub cert_pem : String

-- `other` is any string that is none of the five constants.
pub data CheckType : Type 0 where
  check_http check_tcp check_icmp check_tls check_dns : CheckType
  other_check : String → CheckType

pub record Check : Type 0 where
  pub id : String
  pub name : String
  pub type : CheckType
  pub target : String
  pub interval : ℤ
  pub timeout : ℤ
  pub expect_status : ℤ
  pub body_match : String
  pub tls_warn_days : ℤ
  pub tls_server_name : String
  pub dns_record : String
  pub dns_resolver : String
  pub dns_expect : String
  pub alert_ids : List String
  pub suppress_alert_ids : List String
  pub disabled : Bool
  pub resolvers : List String

pub data AlertType : Type 0 where
  alert_smtp alert_discord : AlertType
  other_alert : String → AlertType

pub record Alert : Type 0 where
  pub id : String
  pub name : String
  pub type : AlertType
  pub default : Bool
  pub disabled : Bool
  pub smtp_host : String
  pub smtp_port : ℤ
  pub smtp_user : String
  pub smtp_password : String
  pub smtp_from : String
  pub smtp_to : List String
  pub smtp_start_tls : Bool
  pub discord_webhook : String
  pub subject_template : String
  pub body_template : String

pub record PendingJoin : Type 0 where
  pub node_id : String
  pub advertise : String
  pub fingerprint : String
  pub cert_pem : String
  pub submitted_at : ℕ

pub record PendingEnrollment : Type 0 where
  pub id : String
  pub name : String
  pub secret_hash : String
  pub auto_approve : Bool
  pub created_by : String
  pub created_at : ℕ
  pub expires_at : ℕ
  pub pending_join : Option PendingJoin

-- `version` is a uint64. The mutex is left out: an operation is one step. The callbacks are not
-- part of the value: an operation says whether it fires them.
pub record ClusterConfig : Type 0 where
  pub version : ℕ
  pub updated_at : ℕ
  pub updated_by : String
  pub peers : List PeerInfo
  pub checks : List Check
  pub alerts : List Alert
  pub pending_enrollments : List PendingEnrollment
  pub resolvers : List String
  pub last_sum : String
