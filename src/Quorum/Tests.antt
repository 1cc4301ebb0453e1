-- ===== src/Quorum/Tests.antt =====
-- Runs of the election, and the theorems of this component at concrete inputs.
use quptime.Prelude.{
  ℕ, ◌≤◌, ◌+◌, ◌*◌, true, false, none, some, [], ◌∷◌, ◌≡◌, ◌↔◌, refl, sym, ◌∙◌, differ, inl, inr,
  arith, In, Distinct, lookup, insert, keys, str_leb,
}
use quptime.Config.Cluster.{quorum_size}
use quptime.Quorum.Manager.{Manager, new_manager, mark_live, live_set, has_quorum, recompute_master}
use quptime.Quorum.Manager.Election.{Elects, recompute_master_iff}
use quptime.Quorum.Manager.Streak.{History, mark_all, times_of, streak_start}
use quptime.Quorum.Manager.Cooldown.{displaced-after_cooldown}
use quptime.Quorum.Manager.Majority.{peer_ids, has_quorum_exclusive}
use quptime.Quorum.Manager.Invariant.{IsValid}
use quptime.Quorum.Node.{Node, HeartbeatRequest, handle_heartbeat, start}
use quptime.Quorum.Node.Runs.{begin, next, starts, receives, Reach-IsValid}
use quptime.Quorum.Node.Outsider.{outsider_elected}
use quptime.Samples.{three}

abbrev at_b : Node
at_b = record { manager = new_manager "b"; cluster = three }

abbrev second : ℕ
second = 1_000_000_000

abbrev from_a : HeartbeatRequest
from_a = record {
  from_node_id = "a";
  advertise = "host:9901";
  term = 0;
  master_id = "";
  version = 1;
}

-- b alone has no quorum of three; a's heartbeat makes a the master.
alone : (start second at_b).manager.master_id ≡ ""
unfolding start recompute_master live_set quorum_size mark_live lookup insert str_leb
alone = refl

joined : (handle_heartbeat none (2 * second) from_a (start second at_b)).0.manager.master_id ≡ "a"
unfolding start handle_heartbeat recompute_master live_set quorum_size mark_live lookup insert
    str_leb
joined = refl

-- b hears of itself and of a.
abbrev two : Manager
two = record (new_manager "b") {
  last_seen = ("b", second) ∷ ("a", 2 * second) ∷ [];
  live_since = ("b", second) ∷ ("a", 2 * second) ∷ [];
}

two-Distinct : Distinct (keys two.last_seen)
two-Distinct = (λ m. elim m [ inl e ↦ differ "b" "a" refl e | inr n ↦ n ], ((λ n. n), tt))

zero_outside : ¬ In "0" (peer_ids three)
zero_outside m = elim m [
  | inl e ↦ differ "0" "a" refl e
  | inr (inl e) ↦ differ "0" "b" refl e
  | inr (inr (inl e)) ↦ differ "0" "c" refl e
  | inr (inr (inr n)) ↦ n
]

recompute_master_iff_example :
    Elects 2 two (2 * second) (live_set two (2 * second)) "a"
    ↔ ((recompute_master 2 (2 * second) two).master_id ≡ "a")
recompute_master_iff_example = recompute_master_iff 2 (2 * second) two "a"

-- a rejoins below the incumbent b, and beats once a second for the cooldown of ten.
abbrev steady : Manager
steady = record (new_manager "b") { dead_after = 4; master_cooldown = 10; master_id = "b" }

abbrev contacts : History
contacts =
    ("b", 12) ∷ ("a", 12) ∷ ("a", 9) ∷ ("b", 8) ∷ ("a", 6) ∷ ("a", 3) ∷ ("a", 0) ∷ ("b", 0) ∷ []

displaced-after_cooldown_example :
    In "a" (live_set (mark_all contacts steady) 12)
    × (str_leb "b" "a" ≡ false)
    × ((since : ℕ) × (streak_start 4 (times_of "a" contacts) ≡ some since) × (since + 10 ≤ 12))
unfolding live_set mark_all recompute_master mark_live lookup insert str_leb
displaced-after_cooldown_example =
    displaced-after_cooldown steady refl refl contacts 2 12 "a" (inr (inl refl))
      (differ "b" "" refl) refl (differ "a" "" refl) (differ "a" "b" refl)

-- c is cut off from a and b.
abbrev cut_off : Manager
cut_off = record (new_manager "c") { last_seen = ("c", 0) ∷ [] }

has_quorum_exclusive_example : ¬ (
    (has_quorum (quorum_size three) two (2 * second) ≡ true)
    × (has_quorum (quorum_size three) cut_off (3 * second) ≡ true))
unfolding live_set str_leb
has_quorum_exclusive_example =
    has_quorum_exclusive three two cut_off (2 * second) (3 * second) two-Distinct ((λ n. n), tt)
      (λ a m. elim m [ inl e ↦ inl e | inr (inl e) ↦ inr (inl e) | inr (inr n) ↦ absurd n ])
      (λ a m. elim m [ inl e ↦ inr (inr (inl e)) | inr n ↦ absurd n ])
      (λ a m n. elim n [
        | inr k ↦ k
        | inl e ↦ elim m [
          | inl f ↦ differ "c" "a" refl (sym e ∙ f)
          | inr (inl f) ↦ differ "c" "b" refl (sym e ∙ f)
          | inr (inr k) ↦ k
        ]
      ])

Reach-IsValid_example :
    IsValid (2 * second) (handle_heartbeat none (2 * second) from_a (start second at_b)).0.manager
Reach-IsValid_example =
    Reach-IsValid (next (next begin (starts (omega arith))) (receives none from_a (omega arith)))

-- b has heard of itself only, and 0 is no peer
abbrev lonely : Node
lonely = record {
  manager = record (new_manager "b") { last_seen = ("b", second) ∷ [] };
  cluster = three;
}

abbrev from_outside : HeartbeatRequest
from_outside = record from_a { from_node_id = "0" }

outsider_elected_example :
    let after = (handle_heartbeat none second from_outside lonely).0 in
    (after.manager.master_id ≡ "0") × (¬ In after.manager.master_id (peer_ids after.cluster))
unfolding live_set lookup insert str_leb quorum_size
outsider_elected_example =
    outsider_elected none second from_outside lonely zero_outside (differ "0" "" refl)
      (differ "0" "b" refl) (omega arith) ((λ n. n), tt) (omega arith) refl
      (λ m. elim m [ inl e ↦ differ "0" "b" refl e | inr k ↦ k ]) (omega arith)
      (λ x m. elim m [ inl e ↦ rw e refl | inr k ↦ absurd k ])
