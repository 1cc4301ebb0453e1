-- ===== src/Checks/Probe.antt =====
-- `Run` of internal/checks/probe.go and the probes of http.go, tcp.go, icmp.go, tls.go and dns.go: what
-- a round of work says of a check. What comes back from the network, the functions of the Go packages
-- strings, net and net/url, the time that a round takes and the formatted texts are arguments.
pub mod Http
pub mod Tls
pub mod Dns
pub mod Passing
use quptime.Prelude.{
  ℕ, ◌*◌, String, Bool, true, false, not, ◌&&◌, ◌||◌, Option, none, some, List, [], ◌∷◌, ◌==◌, ltb,
  nat_eq, if◌then◌else◌,
}
use quptime.Prelude.Int.{ℤ, pos, int_eq, pos_part, to_int64}
use quptime.Config.Types.{
  Check, CheckType, check_http, check_tcp, check_icmp, check_tls, check_dns, other_check,
}
use quptime.Checks.Aggregator.{ProbeResult}

-- The answer to a GET: no request, no answer, or the status, its text and the first 2 ^ 20 bytes of
-- the body (none where they cannot be read).
pub data Fetched : Type 0 where
  unbuilt unsent : String → Fetched
  response : ℤ → String → Option String → Fetched

-- The end of a handshake: an error, no certificate, or how long the first one is still valid.
pub data Handshake : Type 0 where
  broken : String → Handshake
  no_certificate : Handshake
  leaf : ℤ → Handshake

-- An echo: no address, no time left, or the number of replies and their average time.
pub data Echo : Type 0 where
  unresolved : String → Echo
  timed_out : Echo
  replies : ℕ → ℤ → Echo

-- The answers of a resolver, as texts.
pub data Answers : Type 0 where
  lookup_failed : String → Answers
  found : List String → Answers

pub record Network : Type 0 where
  pub get : Check → Fetched
  pub dial : Check → String → Option String
  pub handshake : String → String → Handshake
  pub ping : Check → Echo
  pub resolve : Check → String → String → Answers
  pub took : Check → ℤ
  pub contains : String → String → Bool
  pub trim_space : String → String
  pub to_lower : String → String
  pub parse_url : String → Option (String × String)
  pub split_host_port : String → Option (String × String)
  pub join_host_port : String → String → String
  pub text : String → String → String

abbrev failed : String → ℤ → ProbeResult
failed detail latency = record {
  check_id = "";
  ok = false;
  detail = detail;
  latency = latency;
  timestamp = 0;
}

abbrev passed : ℤ → ProbeResult
passed latency = record { check_id = ""; ok = true; detail = ""; latency = latency; timestamp = 0 }

module _ (net : Network) (c : Check) where
  abbrev pub expected_status : ℤ
  expected_status = if int_eq c.expect_status (pos 0) then pos 200 else c.expect_status

  body_probe : Option String → ProbeResult
  body_probe none = failed "read body" (net.took c)
  body_probe (some body) =
      if net.contains body c.body_match
      then passed (net.took c)
      else failed "body match miss" (net.took c)

  -- `httpProber.Probe`
  unfoldable pub http_probe : Fetched → ProbeResult
  unfolding body_probe
  http_probe (unbuilt e) = failed (net.text "build request" e) (pos 0)
  http_probe (unsent e) = failed e (net.took c)
  http_probe (response status text body) =
      if not (int_eq status expected_status)
      then failed (net.text "status" text) (net.took c)
      else if not (c.body_match == "")
      then body_probe body
      else passed (net.took c)

  -- `tcpProber.Probe`
  tcp_probe : Option String → ProbeResult
  tcp_probe (some e) = failed e (net.took c)
  tcp_probe none = passed (net.took c)

  -- `icmpProber.Probe`
  unfoldable pub icmp_probe : Echo → ProbeResult
  icmp_probe (unresolved e) = failed (net.text "resolve" e) (pos 0)
  icmp_probe timed_out = failed "timeout" (net.took c)
  icmp_probe (replies received rtt) =
      if nat_eq received 0 then failed "no reply" (net.took c) else passed rtt

  abbrev pub default_tls_warn_days : ℕ
  default_tls_warn_days = 14

  -- `time.Duration(warnDays)*24*time.Hour`, an int64 product
  abbrev pub warn_window : ℤ
  warn_window =
      let days = pos_part c.tls_warn_days in
      to_int64 ((if nat_eq days 0 then default_tls_warn_days else days) * 86_400_000_000_000)

  tls_expiry : Handshake → ProbeResult
  tls_expiry (broken e) = failed e (net.took c)
  tls_expiry no_certificate = failed "peer presented no certificate" (net.took c)
  tls_expiry (leaf remaining) =
      if nat_eq (pos_part remaining) 0
      then failed (net.text "cert expired" "") (net.took c)
      else if ltb (pos_part remaining) (pos_part warn_window)
      then failed (net.text "cert expires" "") (net.took c)
      else passed (net.took c)

  host_and_port : String → Option (String × String) → Option (String × String)
  host_and_port target none = some (target, "")
  host_and_port target (some parts) = some parts

  address_for : Option (String × String) → Option (String × String)
  address_for none = none
  address_for (some (host, port)) =
      if host == ""
      then none
      else some (
        net.join_host_port host (if port == "" then "443" else port),
        if c.tls_server_name == "" then host else c.tls_server_name,
      )

  -- `tlsDialAddr`: the address and the name to present, none for an error
  unfoldable pub tls_dial_addr : Option (String × String)
  unfolding address_for host_and_port
  tls_dial_addr =
      let target = net.trim_space c.target in
      if target == ""
      then none
      else if net.contains target "://"
      then address_for (net.parse_url target)
      else address_for (host_and_port target (net.split_host_port target))

  tls_dialed : String → String → Option String → ProbeResult
  unfolding tls_expiry
  tls_dialed addr sni (some e) = failed e (net.took c)
  tls_dialed addr sni none = tls_expiry (net.handshake addr sni)

  -- `tlsProber.Probe`
  unfoldable pub tls_probe : Option (String × String) → ProbeResult
  unfolding tls_dialed
  tls_probe none = failed (net.text "target" c.target) (pos 0)
  tls_probe (some (addr, sni)) = tls_dialed addr sni (net.dial c addr)

  abbrev pub record_type : String
  record_type =
      let wanted = net.to_lower (net.trim_space c.dns_record) in
      if wanted == "" then "a" else wanted

  -- whether an answer contains the needle
  unfoldable pub any_contains : String → List String → Bool
  any_contains needle [] = false
  any_contains needle (a ∷ rest) = net.contains (net.to_lower a) needle || any_contains needle rest

  -- the record types of `lookupRecord`
  unfoldable pub supported : String → Bool
  supported r = r == "a" || r == "aaaa" || r == "cname" || r == "mx" || r == "txt" || r == "ns"

  dns_answered : Answers → ProbeResult
  unfolding any_contains
  dns_answered (lookup_failed e) = failed e (net.took c)
  dns_answered (found []) = failed (net.text "no records" c.target) (net.took c)
  dns_answered (found (a ∷ rest)) =
      let want = net.trim_space c.dns_expect in
      if not (want == "") && not (any_contains (net.to_lower want) (a ∷ rest))
      then failed (net.text "no answer contains" want) (net.took c)
      else passed (net.took c)

  -- `dnsProber.Probe`
  unfoldable pub dns_probe : ProbeResult
  unfolding dns_answered supported
  dns_probe =
      let host = net.trim_space c.target in
      if host == ""
      then failed "empty target" (pos 0)
      else if supported record_type
      then dns_answered (net.resolve c record_type host)
      else failed (net.text "unsupported record type" record_type) (net.took c)

  probe : CheckType → ProbeResult
  unfolding http_probe tcp_probe icmp_probe tls_probe tls_dial_addr dns_probe
  probe check_http = http_probe (net.get c)
  probe check_tcp = tcp_probe (net.dial c c.target)
  probe check_icmp = icmp_probe (net.ping c)
  probe check_tls = tls_probe tls_dial_addr
  probe check_dns = dns_probe
  probe (other_check name) = failed (net.text "unknown check type" name) (pos 0)

  -- `Run`, at a time
  unfoldable pub run : ℕ → ProbeResult
  unfolding probe
  run now =
      let res = probe c.type in
      record res {
        check_id = c.id;
        timestamp = if nat_eq res.timestamp 0 then now else res.timestamp;
      }
