-- ===== src/Daemon/Dispatch.antt =====
-- The control socket, internal/daemon/control.go: `dispatch` and `handleConn`. A request is a method
-- and a raw body; the JSON decoders are arguments, and the answer keeps its value.
pub mod Steps
use quptime.Prelude.{
  ℕ, String, Bool, Option, none, some, List, [], ◌∷◌, ◌*◌, ◌==◌, ◌⊎◌, inl, inr, if◌then◌else◌, ltb,
}
use quptime.Config.Cluster.{Error}
use quptime.Alerts.Dispatcher.{Delivery, TestError, Tested, test_check}
use quptime.Alerts.TestAlert.{AlertTestError, Trial, test}
use quptime.Replicate.Mutation.{
  MutationKind, remove_peer, remove_enrollment, approve_enrollment, a_target, a_raw,
}
use quptime.Replicate.Replicator.{Result, ok, err}
use quptime.Transport.Frame.{Read, got, failed, exceeds_max, read_full, uint32}
use quptime.Transport.Trust.{Entry, Entries, TrustError, list, remove_entry}
use quptime.Daemon.Enroll.{NodeState, mutate_and_sync}
use quptime.Daemon.Status.{StatusResponse}
use quptime.Daemon.Control.{
  Host, EnrollCreateBody, EnrollCreateResult, CreateError, Created, created, not_created,
  EnrollListEntry, enroll_create, enroll_list,
}

pub record CtrlRequest : Type 0 where
  pub method : String
  pub body : String

pub record MutateBody : Type 0 where
  pub kind : MutationKind
  pub payload : String

pub record CheckTestBody : Type 0 where
  pub check_id : String
  pub state : String

-- json.Unmarshal into each body; the three bodies that hold one id have one decoder each.
pub record Bodies : Type 0 where
  pub request : List ℕ → Option CtrlRequest
  pub mutation : String → Option MutateBody
  pub node_id : String → Option String
  pub alert_id : String → Option String
  pub check_test : String → Option CheckTestBody
  pub create : String → Option EnrollCreateBody
  pub target : String → Option String

-- The values that `ok` answers with.
pub data Value : Type 0 where
  status : StatusResponse → Value
  version : ℕ → Value
  trusted : List Entry → Value
  removed : Bool → Value
  sent : Value
  minted_token : EnrollCreateResult → Value
  enrollments : List EnrollListEntry → Value

-- The errors that `fail` answers with.
pub data Failure : Type 0 where
  bad_body bad_request : Failure
  not_mutated : Error → Failure
  trust_error : TrustError → Failure
  alert_test_failed : AlertTestError → Failure
  check_test_failed : TestError → Failure
  create_failed : CreateError → Failure
  unknown_method : String → Failure

-- The answer, with what the request left behind and the messages that it dispatched.
pub record Served : Type 0 where
  pub state : NodeState
  pub deliveries : List Delivery
  pub answer : Value ⊎ Failure

abbrev pub answered : NodeState → Value ⊎ Failure → Served
answered s a = record { state = s; deliveries = []; answer = a }

-- a mutation answers with the version
mutated : NodeState × Result ℕ → Served
mutated (s, ok v) = answered s (inl (version v))
mutated (s, err e) = answered s (inr (not_mutated e))

serve_mutate : Host → NodeState → Option MutateBody → Served
unfolding mutated mutate_and_sync
serve_mutate h s none = answered s (inr bad_body)
serve_mutate h s (some b) = mutated (mutate_and_sync h.around b.kind (a_raw b.payload) s)

-- the trust store after a removal, and what the removal answers
after_remove : NodeState → Value → Entries × Bool × Option TrustError → Served
after_remove s v (trust, found, none) = answered (record s { trust = trust }) (inl v)
after_remove s v (trust, found, some e) =
    answered (record s { trust = trust }) (inr (trust_error e))

node_removed : Host → String → NodeState × Result ℕ → Served
unfolding after_remove remove_entry
node_removed h id (s, err e) = answered s (inr (not_mutated e))
node_removed h id (s, ok v) =
    after_remove s (version v) (remove_entry h.around.trust_disk id s.trust)

serve_node_remove : Host → NodeState → Option String → Served
unfolding node_removed mutate_and_sync
serve_node_remove h s none = answered s (inr bad_body)
serve_node_remove h s (some id) =
    node_removed h id (mutate_and_sync h.around remove_peer (a_target id) s)

serve_trust_remove : Host → NodeState → Option String → Served
unfolding after_remove remove_entry
serve_trust_remove h s none = answered s (inr bad_body)
serve_trust_remove h s (some id) =
    let r = remove_entry h.around.trust_disk id s.trust in after_remove s (removed r.1) r

abbrev sent_of : Option Delivery → List Delivery
sent_of none = []
sent_of (some d) = d ∷ []

alert_tested : NodeState → Trial → Served
alert_tested s t = record {
  state = s;
  deliveries = sent_of t.sent;
  answer = elim t.error [ none ↦ inl sent | some e ↦ inr (alert_test_failed e) ];
}

serve_alert_test : Host → NodeState → Option String → Served
unfolding alert_tested test
serve_alert_test h s none = answered s (inr bad_body)
serve_alert_test h s (some id) = alert_tested s (test h.channels h.plain s.config id)

check_tested : NodeState → Tested → Served
check_tested s (out, e) = record {
  state = s;
  deliveries = out;
  answer = elim e [ none ↦ inl sent | some x ↦ inr (check_test_failed x) ];
}

serve_check_test : Host → NodeState → Option CheckTestBody → Served
unfolding check_tested test_check
serve_check_test h s none = answered s (inr bad_body)
serve_check_test h s (some b) =
    check_tested s (test_check h.channels h.detail s.config b.check_id (h.keyword b.state))

token_created : NodeState × Created → Served
token_created (s, created r) = answered s (inl (minted_token r))
token_created (s, not_created e) = answered s (inr (create_failed e))

serve_create : Host → NodeState → Option EnrollCreateBody → Served
unfolding token_created enroll_create
serve_create h s none = answered s (inr bad_body)
serve_create h s (some b) = token_created (enroll_create h b s)

serve_target : Host → MutationKind → NodeState → Option String → Served
unfolding mutated mutate_and_sync
serve_target h kind s none = answered s (inr bad_body)
serve_target h kind s (some id) = mutated (mutate_and_sync h.around kind (a_target id) s)

-- `dispatch`
unfoldable pub dispatch : Bodies → Host → CtrlRequest → NodeState → Served
unfolding serve_mutate serve_node_remove serve_trust_remove serve_alert_test serve_check_test
    serve_create serve_target enroll_list list
dispatch b h req s =
    if req.method == "status"
    then answered s (inl (status (h.status s.config)))
    else if req.method == "mutate"
    then serve_mutate h s (b.mutation req.body)
    else if req.method == "node.remove"
    then serve_node_remove h s (b.node_id req.body)
    else if req.method == "trust.list"
    then answered s (inl (trusted (list s.trust)))
    else if req.method == "trust.remove"
    then serve_trust_remove h s (b.node_id req.body)
    else if req.method == "alert.test"
    then serve_alert_test h s (b.alert_id req.body)
    else if req.method == "check.test"
    then serve_check_test h s (b.check_test req.body)
    else if req.method == "enroll.create"
    then serve_create h s (b.create req.body)
    else if req.method == "enroll.list"
    then answered s (inl (enrollments (enroll_list s.config.pending_enrollments)))
    else if req.method == "enroll.approve"
    then serve_target h approve_enrollment s (b.target req.body)
    else if req.method == "enroll.revoke"
    then serve_target h remove_enrollment s (b.target req.body)
    else answered s (inr (unknown_method req.method))

-- `controlMaxFrame`
abbrev pub control_max_frame : ℕ
control_max_frame = 16 * 1024 * 1024

read_ctrl_body : Read → Read
unfolding read_full uint32
read_ctrl_body (failed e) = failed e
read_ctrl_body (got hdr rest) =
    if ltb control_max_frame (uint32 hdr) then failed exceeds_max else read_full (uint32 hdr) rest

-- `readCtrlFrame`
unfoldable pub read_ctrl_frame : List ℕ → Read
unfolding read_ctrl_body
read_ctrl_frame s = read_ctrl_body (read_full 4 s)

-- What a connection leaves: the state, and the answer that is written, if any.
pub data Connection : Type 0 where
  silent : NodeState → Connection
  replied : Served → Connection

requested : Bodies → Host → NodeState → Option CtrlRequest → Connection
unfolding dispatch
requested b h s none = replied (answered s (inr bad_request))
requested b h s (some req) = replied (dispatch b h req s)

framed : Bodies → Host → NodeState → Read → Connection
unfolding requested
framed b h s (failed e) = silent s
framed b h s (got body rest) = requested b h s (b.request body)

-- `handleConn`: one request for a connection
unfoldable pub handle_conn : Bodies → Host → List ℕ → NodeState → Connection
unfolding framed read_ctrl_frame
handle_conn b h stream s = framed b h s (read_ctrl_frame stream)
