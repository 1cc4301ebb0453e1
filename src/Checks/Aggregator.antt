-- ===== src/Checks/Aggregator.antt =====
-- internal/checks/aggregator.go: the verdict of the cluster on each check. A call reads the clock
-- once, as `now`, and the configuration once.
pub mod Votes
pub mod Hysteresis
pub mod Submit
pub mod Ballot
use quptime.Prelude.{
  ℕ, ◌+◌, ◌*◌, String, Bool, true, false, not, ◌&&◌, Option, none, some, List, [], ◌∷◌, ◌==◌, ltb,
  leb, nat_eq, if◌then◌else◌, lookup, insert, remove,
}
use quptime.Prelude.Int.{ℤ, pos_part, to_int64}
use quptime.Config.Types.{Check, ClusterConfig}

pub data State : Type 0 where
  unknown up down : State

abbrev pub state_eq : State → State → Bool
state_eq unknown unknown = true
state_eq up up = true
state_eq down down = true
state_eq _ _ = false

abbrev pub hysteresis_count : ℕ
hysteresis_count = 2

-- `Result` of internal/checks/probe.go
pub record ProbeResult : Type 0 where
  pub check_id : String
  pub ok : Bool
  pub detail : String
  pub latency : ℤ
  pub timestamp : ℕ

pub record NodeResult : Type 0 where
  pub ok : Bool
  pub detail : String
  pub at : ℕ

-- `latest` is the Go map in one order in which it may be ranged over.
pub record CheckState : Type 0 where
  pub latest : List (String × NodeResult)
  pub committed : State
  pub candidate : State
  pub consecutive : ℕ

pub record Snapshot : Type 0 where
  pub check_id : String
  pub state : State
  pub reports : ℕ
  pub ok_count : ℕ
  pub not_ok : ℕ
  pub detail : String
  pub update_at : ℕ

abbrev pub Aggregator : Type 0
Aggregator = List (String × CheckState)

-- A call of the transition callback.
pub record Transition : Type 0 where
  pub check : Check
  pub from : State
  pub to : State
  pub snapshot : Snapshot

abbrev pub second : ℕ
second = 1_000_000_000

-- `freshWindowFor`: the product is an int64, and wraps.
unfoldable pub fresh_window_for : ℤ → ℕ
fresh_window_for interval =
    if nat_eq (pos_part interval) 0
    then 60 * second
    else let w = pos_part (to_int64 (pos_part interval * 3)) in
      if ltb w (30 * second) then 30 * second else w

-- The counts of fresh results, and the first detail of a failing one that is not blank.
pub record Tally : Type 0 where
  pub ok : ℕ
  pub not_ok : ℕ
  pub detail : String

-- One round of the loops of `evaluate` and `snapshotLocked`.
count_result : ℕ → ℕ → NodeResult → Tally → Tally
count_result window now nr t =
    if ltb (nr.at + window) now
    then t
    else if nr.ok
    then record t { ok = t.ok + 1 }
    else record t { not_ok = t.not_ok + 1; detail = if t.detail == "" then nr.detail else t.detail }

unfoldable pub tally : ℕ → ℕ → List (String × NodeResult) → Tally → Tally
unfolding count_result
tally window now [] t = t
tally window now ((id, nr) ∷ rest) t = tally window now rest (count_result window now nr t)

abbrev pub no_votes : Tally
no_votes = record { ok = 0; not_ok = 0; detail = "" }

-- the switch that chooses the candidate
unfoldable pub verdict : Tally → State
verdict t = if nat_eq (t.ok + t.not_ok) 0 then unknown else if ltb t.ok t.not_ok then down else up

-- the candidate's run, and the commit after `HysteresisCount` evaluations
unfoldable pub hold : State → CheckState → CheckState
hold candidate st =
    if state_eq candidate st.candidate
    then record st { consecutive = st.consecutive + 1 }
    else record st { candidate = candidate; consecutive = 1 }

unfoldable pub fires : State → CheckState → Bool
fires candidate st = not (state_eq candidate st.committed) && leb hysteresis_count st.consecutive

unfoldable pub advance : State → CheckState → CheckState
unfolding hold fires
advance candidate st =
    let held = hold candidate st in
    if fires candidate held then record held { committed = candidate } else held

-- `lookupCheck`
unfoldable pub lookup_check : String → List Check → Option Check
lookup_check id [] = none
lookup_check id (c ∷ rest) = if c.id == id then some c else lookup_check id rest

abbrev window_of : Option Check → ℕ
window_of none = 60 * second
window_of (some check) = fresh_window_for check.interval

-- `snapshotLocked`
unfoldable pub snapshot_locked : ClusterConfig → ℕ → String → CheckState → Snapshot
unfolding tally lookup_check fresh_window_for
snapshot_locked c now check_id st =
    let t = tally (window_of (lookup_check check_id c.checks)) now st.latest no_votes in
    record {
      check_id = check_id;
      state = st.committed;
      reports = t.ok + t.not_ok;
      ok_count = t.ok;
      not_ok = t.not_ok;
      detail = t.detail;
      update_at = now;
    }

-- the candidate of `evaluate`
unfoldable pub candidate_for : Check → ℕ → CheckState → State
unfolding tally verdict fresh_window_for
candidate_for check now st =
    verdict (tally (fresh_window_for check.interval) now st.latest no_votes)

evaluate_state :
    ClusterConfig
    → ℕ
    → String
    → Check
    → Option CheckState
    → Aggregator
    → Aggregator × Option Transition
evaluate_state c now check_id check none a = (a, none)
evaluate_state c now check_id check (some st) a =
    let candidate = candidate_for check now st in
    let st' = advance candidate st in
    (
      insert check_id st' a,
      if fires candidate (hold candidate st)
          then some (record {
            check = check;
            from = st.committed;
            to = candidate;
            snapshot = snapshot_locked c now check_id st';
          })
          else none,
    )

evaluate_check :
    ClusterConfig → ℕ → String → Option Check → Aggregator → Aggregator × Option Transition
unfolding evaluate_state
evaluate_check c now check_id none a = (remove check_id a, none)
evaluate_check c now check_id (some check) a =
    evaluate_state c now check_id check (lookup check_id a) a

-- `evaluate`: the new state, and the call of the callback that it makes
unfoldable pub evaluate : ClusterConfig → ℕ → String → Aggregator → Aggregator × Option Transition
unfolding evaluate_check lookup_check
evaluate c now check_id a = evaluate_check c now check_id (lookup_check check_id c.checks) a

abbrev pub fresh_state : CheckState
fresh_state = record { latest = []; committed = unknown; candidate = unknown; consecutive = 0 }

abbrev pub or_fresh : Option CheckState → CheckState
or_fresh none = fresh_state
or_fresh (some st) = st

-- the write of `Submit`, before it evaluates
unfoldable pub record_result : String → ProbeResult → CheckState → CheckState
record_result node_id r st = record st {
  latest = insert node_id (record { ok = r.ok; detail = r.detail; at = r.timestamp }) st.latest;
}

-- `Submit`
unfoldable pub submit :
    ClusterConfig → ℕ → String → ProbeResult → Aggregator → Aggregator × Option Transition
unfolding evaluate
submit c now node_id r a =
    if r.check_id == ""
    then (a, none)
    else evaluate c now r.check_id
        (insert r.check_id (record_result node_id r (or_fresh (lookup r.check_id a))) a)

-- `SnapshotFor`
unfoldable pub snapshot_for : ClusterConfig → ℕ → String → Aggregator → Option Snapshot
unfolding snapshot_locked
snapshot_for c now check_id a = elim (lookup check_id a) [
  | none ↦ none
  | some st ↦ some (snapshot_locked c now check_id st)
]
