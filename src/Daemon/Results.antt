-- ===== src/Daemon/Results.antt =====
-- The way of a probe result through internal/daemon: `sink.Submit` and the transition callback of
-- `New` in daemon.go, and the ReportResult handler of handlers.go. Sending a report is an effect that
-- is returned; the channels of the alerts are an argument.
pub mod Reports
use quptime.Prelude.{
  ℕ, ◌*◌, ◌/◌, ◌+◌, ◌-◌, ◌%◌, ◌^◌, String, Bool, not, Option, none, some, List, [], ◌==◌, nat_eq,
  if◌then◌else◌,
}
use quptime.Prelude.Int.{ℤ, pos, negsuc, to_int64}
use quptime.Quorum.Manager.{is_master}
use quptime.Checks.Aggregator.{ProbeResult, Aggregator, Transition, submit}
use quptime.Alerts.Dispatcher.{Channels, Delivery, on_transition}
use quptime.Replicate.Replicator.{address_of}
use quptime.Daemon.Status.{Parts}

-- `ReportResultRequest`, with the node that it goes to
pub record Report : Type 0 where
  pub from_node_id : String
  pub check_id : String
  pub ok : Bool
  pub detail : String
  pub latency_ms : ℤ
  pub at : ℕ

-- `Duration.Milliseconds`, and the way back; the division truncates towards zero
unfoldable pub milliseconds : ℤ → ℤ
milliseconds (pos n) = pos (n / 1_000_000)
milliseconds (negsuc n) =
    let ms = (n + 1) / 1_000_000 in if nat_eq ms 0 then pos 0 else negsuc (ms - 1)

-- The aggregator after a result, and the messages that go out.
pub record Effect : Type 0 where
  pub aggregator : Aggregator
  pub deliveries : List Delivery

-- the callback that `New` sets: only the master alerts
unfoldable pub on_committed : Channels → Parts → Option Transition → List Delivery
unfolding on_transition
on_committed ch d none = []
on_committed ch d (some t) =
    if not (is_master d.manager)
    then []
    else on_transition ch d.config t.check t.from t.to t.snapshot

-- `Aggregator.Submit` with that callback
unfoldable pub submit_local : Channels → ℕ → Parts → String → ProbeResult → Effect
unfolding submit on_committed
submit_local ch now d node_id r =
    let (aggregator, fired) = submit d.config now node_id r d.aggregator in
    record { aggregator = aggregator; deliveries = on_committed ch d fired }

-- What `sink.Submit` does: it submits here, sends a report to a node at an address, or drops.
pub data Routed : Type 0 where
  here : Effect → Routed
  reported : String → String → Report → Routed
  dropped : Routed

unfoldable pub report_of : String → ProbeResult → Report
unfolding milliseconds
report_of self_id r = record {
  from_node_id = self_id;
  check_id = r.check_id;
  ok = r.ok;
  detail = r.detail;
  latency_ms = milliseconds r.latency;
  at = r.timestamp;
}

-- `sink.Submit`
unfoldable pub sink_submit : Channels → ℕ → Parts → ProbeResult → Routed
unfolding submit_local report_of address_of
sink_submit ch now d r =
    let addr = address_of d.manager.master_id d.config.peers in
    if is_master d.manager
    then here (submit_local ch now d d.manager.self_id r)
    else if d.manager.master_id == ""
    then dropped
    else if addr == ""
    then dropped
    else reported d.manager.master_id addr (report_of d.manager.self_id r)

-- the product of two int64 values, as `time.Duration(ms) * time.Millisecond`
unfoldable pub from_milliseconds : ℤ → ℤ
from_milliseconds (pos n) = to_int64 (n * 1_000_000)
from_milliseconds (negsuc n) = to_int64 (2 ^ 64 - ((n + 1) * 1_000_000) % 2 ^ 64)

-- the ReportResult handler, on a request that decodes
unfoldable pub handle_report : Channels → ℕ → Parts → Report → Effect
unfolding submit_local from_milliseconds
handle_report ch now d req = submit_local ch now d req.from_node_id (record {
  check_id = req.check_id;
  ok = req.ok;
  detail = req.detail;
  latency = from_milliseconds req.latency_ms;
  timestamp = req.at;
})
