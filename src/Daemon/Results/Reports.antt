-- ===== src/Daemon/Results/Reports.antt =====
-- Where a probe result is counted, and who alerts: internal/daemon.
use quptime.Prelude.{
  ℕ, String, true, false, Option, none, some, [], ◌≡◌, ◌≢◌, refl, ◌⊎◌, inl, inr, ◌==◌, eq_iff,
  arith, ap, sym, ◌∙◌, Bool-cases,
}
use quptime.Quorum.Manager.{is_master}
use quptime.Checks.Aggregator.{ProbeResult, Transition, submit, record_result}
use quptime.Alerts.Dispatcher.{Channels}
use quptime.Replicate.Replicator.{address_of}
use quptime.Daemon.Status.{Parts}
use quptime.Daemon.Results.{
  Report, on_committed, submit_local, reported, report_of, sink_submit, handle_report,
}

on_committed-silent :
    (ch : Channels) (d : Parts) (o : Option Transition)
    → is_master d.manager ≡ false
    → on_committed ch d o ≡ []
unfolding on_committed
on_committed-silent ch d none f = refl
on_committed-silent ch d (some t) f = simp f refl

submit_local-silent :
    (ch : Channels) (now : ℕ) (d : Parts) (id : String) (r : ProbeResult)
    → (is_master d.manager ≡ true) ⊎ ((submit_local ch now d id r).deliveries ≡ [])
unfolding submit_local
submit_local-silent ch now d id r = elim (Bool-cases (is_master d.manager)) [
  | inl e ↦ inl e
  | inr e ↦ inr (on_committed-silent ch d (submit d.config now id r d.aggregator).1 e)
]

-- the latency of a report is lost in milliseconds, and the aggregator does not look at it
handled-submitted :
    (ch : Channels) (now : ℕ) (d : Parts) (self_id : String) (r : ProbeResult)
    → handle_report ch now d (report_of self_id r) ≡ submit_local ch now d self_id r
unfolding handle_report report_of submit_local submit record_result
handled-submitted ch now d self_id r = refl

-- the sink sends this report and no other
sent :
    (ch : Channels) (now : ℕ) (d : Parts) (r : ProbeResult) (id addr : String) (req : Report)
    → sink_submit ch now d r ≡ reported id addr req
    → (is_master d.manager ≡ false)
      × (address_of d.manager.master_id d.config.peers ≢ "")
      × (reported d.manager.master_id
            (address_of d.manager.master_id d.config.peers)
            (report_of d.manager.self_id r)
          ≡ reported id addr req)
unfolding sink_submit
sent ch now d r id addr req h =
    let there = address_of d.manager.master_id d.config.peers in
    elim (Bool-cases (is_master d.manager)) [
      | inl e ↦ absurd (cc (simp e at h))
      | inr e ↦ elim (Bool-cases (d.manager.master_id == "")) [
        | inl f ↦ absurd (cc (simp (e, f) at h))
        | inr f ↦ elim (Bool-cases (there == "")) [
          | inl g ↦ absurd (cc (simp (e, f, g) at h))
          | inr g ↦ (e, ground (arith, eq_iff there "", g), simp (e, f, g) at h)
        ]
      ]
    ]

-- A report that a sink sends comes from a node that is not the master, and goes to the node that it
-- takes for the master, at the address of that peer; handled on any node, it leaves there what the
-- result itself leaves when it is submitted under the sender's id, whatever becomes of its latency;
-- and a node that is not the master alerts nobody.
pub handle_report-sink_submit :
    (ch : Channels) (now later : ℕ) (sender receiver : Parts) (r : ProbeResult) (id addr : String)
    (req : Report)
    → sink_submit ch now sender r ≡ reported id addr req
    → (is_master sender.manager ≡ false)
      × (id ≡ sender.manager.master_id)
      × (addr ≡ address_of id sender.config.peers)
      × (addr ≢ "")
      × (handle_report ch later receiver req
          ≡ submit_local ch later receiver sender.manager.self_id r)
      × ((is_master receiver.manager ≡ true)
          ⊎ ((handle_report ch later receiver req).deliveries ≡ []))
handle_report-sink_submit ch now later sender receiver r id addr req h =
    let (follower, full, same) = sent ch now sender r id addr req h in
    let to : sender.manager.master_id ≡ id = cc in
    let at : address_of sender.manager.master_id sender.config.peers ≡ addr = cc in
    let what : report_of sender.manager.self_id r ≡ req = cc in
    let handled : handle_report ch later receiver req
        ≡ submit_local ch later receiver sender.manager.self_id r =
      rw what at (handled-submitted ch later receiver sender.manager.self_id r) in
    (
      follower,
      sym to,
      sym at ∙ ap (λ x. address_of x sender.config.peers) to,
      λ e. full (at ∙ e),
      handled,
      rw handled (submit_local-silent ch later receiver sender.manager.self_id r),
    )
