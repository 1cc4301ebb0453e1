-- ===== src/Quorum/Manager.antt =====
-- internal/quorum/manager.go: the state of `Manager`, liveness and the election.
-- A call reads the clock once, as `now`. The empty string is "no master".
pub mod Live
pub mod Election
pub mod Streak
pub mod Cooldown
pub mod Invariant
pub mod Majority
use quptime.Prelude.Sort.{sort_strings}
use quptime.Prelude.{
  ℕ, ◌+◌, ◌%◌, ◌^◌, String, Bool, true, false, ◌||◌, Option, none, some, List, [], ◌∷◌, ◌==◌, ltb,
  leb, if◌then◌else◌, length, lookup, insert, str_leb,
}

-- Durations are in nanoseconds and not negative, as the defaults are.
pub record Manager : Type 0 where
  pub self_id : String
  pub self_advertise : String
  pub heartbeat_interval : ℕ
  pub dead_after : ℕ
  pub master_cooldown : ℕ
  pub term : ℕ
  pub master_id : String
  pub last_seen : List (String × ℕ)
  pub live_since : List (String × ℕ)
  pub addr_of : List (String × String)

abbrev pub default_heartbeat_interval : ℕ
default_heartbeat_interval = 1_000_000_000

abbrev pub default_dead_after : ℕ
default_dead_after = 4_000_000_000

abbrev pub default_master_cooldown : ℕ
default_master_cooldown = 120_000_000_000

-- `New`
abbrev pub new_manager : String → Manager
new_manager self_id = record {
  self_id = self_id;
  self_advertise = "";
  heartbeat_interval = default_heartbeat_interval;
  dead_after = default_dead_after;
  master_cooldown = default_master_cooldown;
  term = 0;
  master_id = "";
  last_seen = [];
  live_since = [];
  addr_of = [];
}

-- `SetSelfAdvertise`
unfoldable pub set_self_advertise : String → Manager → Manager
set_self_advertise addr m = record m { self_advertise = addr }

-- `ts.After(now.Add(-deadAfter)) || id == selfID`
unfoldable pub is_live : Manager → ℕ → String → ℕ → Bool
is_live m now id ts = ltb now (ts + m.dead_after) || id == m.self_id

live_ids : Manager → ℕ → List (String × ℕ) → List String
unfolding is_live
live_ids m now [] = []
live_ids m now ((id, ts) ∷ rest) =
    let ids = live_ids m now rest in if is_live m now id ts then id ∷ ids else ids

-- `LiveSet`
unfoldable pub live_set : Manager → ℕ → List String
unfolding live_ids sort_strings
live_set m now = sort_strings (live_ids m now m.last_seen)

-- `HasQuorum`
unfoldable pub has_quorum : ℕ → Manager → ℕ → Bool
unfolding live_set
has_quorum quorum m now = leb quorum (length (live_set m now))

-- `Master`, `IsMaster`
abbrev pub is_master : Manager → Bool
is_master m = m.master_id == m.self_id

-- the condition of `markLive` that starts a new streak: `!ok || now.Sub(prev) > deadAfter`
unfoldable pub starts_streak : Manager → ℕ → Option ℕ → Bool
starts_streak m now none = true
starts_streak m now (some prev) = ltb (prev + m.dead_after) now

-- `markLive`
unfoldable pub mark_live : String → ℕ → Manager → Manager
unfolding starts_streak
mark_live id now m = record m {
  live_since =
      if starts_streak m now (lookup id m.last_seen)
      then insert id now m.live_since
      else m.live_since;
  last_seen = insert id now m.last_seen;
}

-- the loop that looks for the incumbent among the live
unfoldable pub member : String → List String → Bool
member s [] = false
member s (id ∷ rest) = id == s || member s rest

-- `since, ok := m.liveSince[id]; ok && now.Sub(since) >= m.masterCooldown`
unfoldable pub cooled : Manager → ℕ → String → Bool
cooled m now id = elim (lookup id m.live_since) [
  | none ↦ false
  | some since ↦ leb (since + m.master_cooldown) now
]

-- the loop over the live peers below the incumbent
unfoldable pub challenger : Manager → ℕ → List String → String
unfolding cooled
challenger m now [] = m.master_id
challenger m now (id ∷ rest) =
    let next = challenger m now rest in
    if str_leb m.master_id id then m.master_id else if cooled m now id then id else next

-- `newMaster` of `recomputeMaster`, for the live set and the quorum that it has read
elect : Manager → ℕ → List String → String
unfolding challenger member
elect m now [] = ""
elect m now (first ∷ rest) =
    if m.master_id == ""
    then first
    else if member m.master_id (first ∷ rest)
    then challenger m now (first ∷ rest)
    else first

unfoldable pub new_master : ℕ → Manager → ℕ → List String → String
unfolding elect
new_master quorum m now live = if leb quorum (length live) then elect m now live else ""

install : String → Manager → Manager
install master m =
    if master == m.master_id
    then m
    else record m { term = (m.term + 1) % 2 ^ 64; master_id = master }

-- `recomputeMaster`
unfoldable pub recompute_master : ℕ → ℕ → Manager → Manager
unfolding install new_master live_set
recompute_master quorum now m = install (new_master quorum m now (live_set m now)) m
