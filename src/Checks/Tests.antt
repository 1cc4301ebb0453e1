-- ===== src/Checks/Tests.antt =====
-- The theorems about internal/checks/aggregator.go at concrete inputs.
mod Rounds
use mathlib.Core.Option.{map as map_option}
use quptime.Prelude.{
  ◌+◌, ◌≤◌, ◌<◌, String, true, false, some, List, [], ◌∷◌, ◌≡◌, ◌↔◌, refl, lookup, insert, differ,
  ℕ, arith, eq_iff,
}
use quptime.Prelude.Int.{pos}
use quptime.Config.Types.{Check}
use quptime.Checks.Aggregator.{
  unknown, up, down, second, ProbeResult, NodeResult, CheckState, Aggregator, tally, no_votes,
  verdict, candidate_for, fresh_state, lookup_check, submit, or_fresh,
}
use quptime.Checks.Aggregator.Votes.{votes, verdict_iff}
use quptime.Checks.Aggregator.Hysteresis.{advance_all, last_pair, committed-advance_all}
use quptime.Checks.Aggregator.Submit.{heard, Submitted, submit-configured}
use quptime.Checks.Aggregator.Ballot.{
  Calls, latest, submit_all, reports, ballot, submit_all-last_words,
}
use quptime.Checks.Scheduler.{
  Net, want_all, reconcile, baked, effective_resolvers, normalise_resolvers,
}
use quptime.Checks.Scheduler.Wanted.{retuned}
use quptime.Checks.Scheduler.Probes.{Probing, reconcile-Probing, reconcile-stale}
use quptime.Samples.{three, web, named_check}

abbrev good : NodeResult
good = record { ok = true; detail = ""; at = 0 }

abbrev bad : NodeResult
bad = record { ok = false; detail = "timeout"; at = 0 }

abbrev results : List (String × NodeResult)
results = ("a", good) ∷ ("b", bad) ∷ ("c", bad) ∷ []

abbrev other_order : List (String × NodeResult)
other_order = ("b", bad) ∷ ("a", good) ∷ ("c", bad) ∷ []

abbrev failing : ProbeResult
failing = record {
  check_id = "c1";
  ok = false;
  detail = "timeout";
  latency = pos 5;
  timestamp = second;
}

-- one failed evaluation has gone before
abbrev suspected : CheckState
suspected = record { latest = ("a", bad) ∷ []; committed = up; candidate = down; consecutive = 1 }

abbrev watched : Aggregator
watched = ("c1", suspected) ∷ ("c9", fresh_state) ∷ []

verdict_iff_example :
    let v = verdict (tally 30 10 results no_votes) in
    let ok = votes true 30 10 results in
    let failed = votes false 30 10 results in
    ((v ≡ unknown) ↔ (ok + failed ≡ 0))
    × ((v ≡ down) ↔ (ok < failed))
    × ((v ≡ up) ↔ ((0 < ok + failed) × (failed ≤ ok)))
verdict_iff_example = verdict_iff 30 10 results

committed-advance_all_example :
    (advance_all (down ∷ down ∷ up ∷ up ∷ []) fresh_state).committed
    ≡ last_pair (down ∷ down ∷ up ∷ up ∷ [])
committed-advance_all_example = committed-advance_all (down ∷ down ∷ up ∷ up ∷ [])

submit-configured_example :
    Submitted three second web "b" failing suspected (submit three second "b" failing watched)
unfolding lookup_check lookup
submit-configured_example =
    submit-configured three second "b" failing watched web (differ "c1" "" refl) refl

abbrev passing : ProbeResult
passing = record failing { ok = true; detail = "" }

-- the last words of two nodes, after an earlier one, and in the other order with one of another check
abbrev changed_mind : Calls
changed_mind = (30, "a", passing) ∷ (20, "b", failing) ∷ (10, "a", failing) ∷ []

abbrev settled : Calls
settled = (9, "a", record failing { check_id = "c2" }) ∷ (7, "b", failing) ∷ (5, "a", passing) ∷ []

submit_all-last_words_example :
    ((n : String)
      → lookup n (latest "c1" (submit_all three changed_mind))
        ≡ map_option heard (lookup n (reports "c1" changed_mind)))
    × (ballot three "c1" changed_mind ≡ ballot three "c1" settled)
    × ((now : ℕ)
        → candidate_for web now (or_fresh (lookup "c1" (submit_all three changed_mind)))
          ≡ candidate_for web now (or_fresh (lookup "c1" (submit_all three settled))))
unfolding lookup_check lookup reports
submit_all-last_words_example =
    submit_all-last_words three "c1" web (differ "c1" "" refl) refl changed_mind settled
      (λ n. ground (arith, differ "a" "b" refl, eq_iff "a" n, eq_iff "b" n))

abbrev plain : Net
plain = record { trim_space = λ s. s; has_port = λ s. true; join_default_port = λ s. s }

-- a worker of a check that is gone, and one of a check with older TLS settings
abbrev before : List (String × Check)
before = ("c9", named_check "c9" "old") ∷ ("c1", retuned (pos 3) "" "" "" web) ∷ []

reconcile-Probing_example : Probing plain three (reconcile plain three before)
reconcile-Probing_example = reconcile-Probing plain three before

reconcile-stale_example :
    lookup "c1" (reconcile plain three before) ≡ some (retuned (pos 3) "" "" "" web)
unfolding want_all lookup insert baked effective_resolvers normalise_resolvers
reconcile-stale_example =
    reconcile-stale plain three before "c1" (retuned (pos 3) "" "" "" web) (pos 0) "" "" "" refl
      refl
