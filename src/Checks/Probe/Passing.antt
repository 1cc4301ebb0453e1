-- ===== src/Checks/Probe/Passing.antt =====
-- When a round of work passes: `Run` of internal/checks/probe.go.
use quptime.Prelude.{ℕ, ◌≤◌, String, true, Option, none, some, ◌≡◌, ◌≢◌, refl, ◌↔◌}
use quptime.Prelude.Int.{ℤ, pos_part}
use quptime.Config.Types.{
  Check, CheckType, check_http, check_tcp, check_icmp, check_tls, check_dns, other_check,
}
use quptime.Checks.Probe.{
  replies, Network, tcp_probe, tls_dial_addr, record_type, supported, probe, run,
}
use quptime.Checks.Probe.Http.{HttpPasses, http_probe_iff, icmp_probe_iff}
use quptime.Checks.Probe.Tls.{TlsPasses, tls_probe_iff}
use quptime.Checks.Probe.Dns.{DnsPasses, dns_probe_iff}

module _ (net : Network) (c : Check) where
  -- What a check of a type asks of the network.
  unfoldable pub Passes : CheckType → Type 0
  Passes check_http = HttpPasses net c (net.get c)
  Passes check_tcp = net.dial c c.target ≡ none
  Passes check_icmp = (n : ℕ) × (rtt : ℤ) × (net.ping c ≡ replies n rtt) × (1 ≤ n)
  Passes check_tls = TlsPasses net c (tls_dial_addr net c)
  Passes check_dns =
      (net.trim_space c.target ≢ "")
      × (supported net c (record_type net c) ≡ true)
      × DnsPasses net c (net.resolve c (record_type net c) (net.trim_space c.target))
  Passes (other_check name) = ⊥

  tcp_probe_iff : (o : Option String) → ((tcp_probe net c o).ok ≡ true) ↔ (o ≡ none)
  unfolding tcp_probe
  tcp_probe_iff none = (λ h. refl, λ h. refl)
  tcp_probe_iff (some e) = (λ h. cc, λ h. cc)

  probe_iff :
      (type : CheckType)
      → pos_part c.tls_warn_days ≤ 106751
      → ((probe net c type).ok ≡ true) ↔ Passes type
  unfolding probe Passes
  probe_iff check_http l = http_probe_iff net c (net.get c)
  probe_iff check_tcp l = tcp_probe_iff (net.dial c c.target)
  probe_iff check_icmp l = icmp_probe_iff net c (net.ping c)
  probe_iff check_tls l = tls_probe_iff net c (tls_dial_addr net c) l
  probe_iff check_dns l = dns_probe_iff net c
  probe_iff (other_check name) l = (λ h. absurd cc, λ p. absurd p)

  -- A check of at most 106751 days of TLS warning passes exactly where its type's description says:
  -- the expected status and text in the body, a connection, a reply, a certificate that lasts as
  -- many whole days as asked for, or an answer with the text; the result bears the check's id, and
  -- a type that is none of the five never passes.
  pub run_iff :
      (now : ℕ)
      → pos_part c.tls_warn_days ≤ 106751
      → (((run net c now).ok ≡ true) ↔ Passes c.type) × ((run net c now).check_id ≡ c.id)
  unfolding run
  run_iff now l = (probe_iff c.type l, refl)
