-- ===== src/Quorum/Manager/Cooldown.antt =====
-- The master cooldown of internal/quorum/manager.go over a history of contacts.
use quptime.Prelude.{
  ℕ, ◌+◌, ◌≤◌, String, true, false, some, List, [], ◌≡◌, ◌≢◌, sym, ◌∙◌, inl, inr, arith, In, lookup,
  Option-cases, str_leb,
}
use quptime.Quorum.Manager.{Manager, cooled, live_set, recompute_master}
use quptime.Quorum.Manager.Election.{
  Elects, without_quorum, takes_over, stays, displaces, recompute_master_iff,
}
use quptime.Quorum.Manager.Streak.{
  History, mark_all, times_of, streak_start, mark_all-live_since, mark_all-kept,
}

cooled-since :
    (m : Manager) (now : ℕ) (id : String)
    → cooled m now id ≡ true
    → (since : ℕ) × (lookup id m.live_since ≡ some since) × (since + m.master_cooldown ≤ now)
unfolding cooled
cooled-since m now id h = elim (Option-cases (lookup id m.live_since)) [
  | inl e ↦ absurd (ground arith)
  | inr (s, e) ↦ (s, e, ground arith)
]

Elects-displaced :
    (quorum : ℕ) (m : Manager) (now : ℕ) (live : List String) (w : String)
    → Elects quorum m now live w
    → In m.master_id live
    → m.master_id ≢ ""
    → w ≢ ""
    → w ≢ m.master_id
    → In w live × (str_leb m.master_id w ≡ false) × (cooled m now w ≡ true)
Elects-displaced quorum m now live w (without_quorum a e) i real some_w other = absurd (some_w e)
Elects-displaced quorum m now live w (takes_over q (inl v) j l) i real some_w other =
    absurd (real v)
Elects-displaced quorum m now live w (takes_over q (inr v) j l) i real some_w other = absurd (v i)
Elects-displaced quorum m now live w (stays q n e b) i real some_w other = absurd (other e)
Elects-displaced quorum m now live w (displaces q n j c l b) i real some_w other =
    (j, ground arith, c)

module _ (m : Manager) (unseen : m.last_seen ≡ []) (no_streaks : m.live_since ≡ [])
    (h : History) where
  -- If the election replaces an incumbent that is still live by another node, then that node is
  -- live too, has the lower id, and its contacts have come without a gap over `deadAfter` for at
  -- least `masterCooldown`.
  pub displaced-after_cooldown :
      (quorum now : ℕ) (w : String)
      → In m.master_id (live_set (mark_all h m) now)
      → m.master_id ≢ ""
      → (recompute_master quorum now (mark_all h m)).master_id ≡ w
      → w ≢ ""
      → w ≢ m.master_id
      → In w (live_set (mark_all h m) now)
        × (str_leb m.master_id w ≡ false)
        × ((since : ℕ) × (streak_start m.dead_after (times_of w h) ≡ some since)
            × (since + m.master_cooldown ≤ now))
  displaced-after_cooldown quorum now w live real won some_w other =
      let m' = mark_all h m in
      let kept = mark_all-kept h m in
      let (alive, lower, cool) =
        Elects-displaced quorum m' now (live_set m' now) w
          ((recompute_master_iff quorum now m' w).1 won) (simp kept.0 live) (rw kept.0 real) some_w
          (rw kept.0 other) in
      let (since, found, long) = cooled-since m' now w cool in
      (
        alive,
        rw kept.0 at lower,
        (since, sym (mark_all-live_since m unseen no_streaks w h) ∙ found, rw kept.2 at long),
      )
