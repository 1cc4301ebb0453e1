-- ===== src/Checks/Tests/Rounds.antt =====
-- The theorem about a round of work at a concrete input: a certificate that is about to expire.
use quptime.Prelude.{true, false, some, none, [], ◌∷◌, ◌≡◌, ◌↔◌, refl, arith, ◌==◌}
use quptime.Prelude.Int.{pos}
use quptime.Config.Types.{Check, check_tls}
use quptime.Checks.Probe.{Network, response, leaf, replies, found, run}
use quptime.Checks.Probe.Passing.{Passes, run_iff}
use quptime.Samples.{web}

abbrev guarded : Check
guarded = record web { type = check_tls; target = "example.org:443"; tls_warn_days = pos 30 }

-- the certificate is valid for another day
abbrev world : Network
world = record {
  get = λ c. response (pos 200) "200 OK" (some "hello");
  dial = λ c addr. none;
  handshake = λ addr sni. leaf (pos 86_400_000_000_000);
  ping = λ c. replies 1 (pos 5);
  resolve = λ c kind host. found ("10.0.0.1" ∷ []);
  took = λ c. pos 7;
  contains = λ s part. s == part;
  trim_space = λ s. s;
  to_lower = λ s. s;
  parse_url = λ s. none;
  split_host_port = λ s. some ("example.org", "443");
  join_host_port = λ host port. host;
  text = λ what s. what;
}

run_iff_example :
    (((run world guarded 5).ok ≡ true) ↔ Passes world guarded check_tls)
    × ((run world guarded 5).check_id ≡ "c1")
run_iff_example = run_iff world guarded 5 (ground arith)

about_to_expire : (run world guarded 5).ok ≡ false
unfolding run
about_to_expire = refl
