-- ===== src/Checks/Aggregator/Votes.antt =====
-- The votes that internal/checks/aggregator.go counts, and the window in which they count.
use mathlib.Core.List.{Permᴰ}
use quptime.Prelude.{
  ℕ, ◌+◌, ◌*◌, ◌<◌, ◌≤◌, ◌^◌, String, Bool, true, false, not, ◌&&◌, List, [], ◌∷◌, ◌≡◌, refl, ◌∙◌,
  ◌↔◌, ◌⊎◌, arith, ltb, if◌then◌else◌,
}
use quptime.Prelude.Int.{ℤ, pos_part}
use quptime.Checks.Aggregator.{
  unknown, up, down, NodeResult, Tally, no_votes, tally, verdict, count_result, fresh_window_for,
  second,
}

-- A window is never under 30 seconds; for an interval whose triple fits an int64 it is the triple
-- of the interval or 30 seconds, whichever is more; and without an interval it is 60 seconds.
pub fresh_window_for_bounds :
    (interval : ℤ)
    → (30 * second ≤ fresh_window_for interval)
      × (pos_part interval ≡ 0 → fresh_window_for interval ≡ 60 * second)
      × (0 < pos_part interval
          → pos_part interval * 3 < 2 ^ 63
          → (pos_part interval * 3 ≤ fresh_window_for interval)
            × ((fresh_window_for interval ≡ 30 * second)
                ⊎ (fresh_window_for interval ≡ pos_part interval * 3)))
unfolding fresh_window_for
fresh_window_for_bounds interval = ground arith

-- A fresh result that reports `ok`.
abbrev pub is_vote : Bool → ℕ → ℕ → NodeResult → Bool
is_vote ok window now nr = not (ltb (nr.at + window) now) && (if ok then nr.ok else not nr.ok)

abbrev pub votes : Bool → ℕ → ℕ → List (String × NodeResult) → ℕ
votes ok window now [] = 0
votes ok window now ((id, nr) ∷ rest) =
    (if is_vote ok window now nr then 1 else 0) + votes ok window now rest

pub tally-votes :
    (window now : ℕ) (results : List (String × NodeResult)) (t : Tally)
    → ((tally window now results t).ok ≡ t.ok + votes true window now results)
      × ((tally window now results t).not_ok ≡ t.not_ok + votes false window now results)
unfolding tally
tally-votes window now [] t = omega arith
tally-votes window now ((id, nr) ∷ rest) t =
    ground (arith, tally-votes window now rest (count_result window now nr t))

-- The number of votes does not depend on the order in which Go ranges over the map.
votes-Perm :
    (ok : Bool) (window now : ℕ) {xs ys : List (String × NodeResult)}
    → Permᴰ xs ys
    → votes ok window now xs ≡ votes ok window now ys
votes-Perm ok window now Permᴰ.nil = refl
votes-Perm ok window now (Permᴰ.cons e p) = ground (arith, e, votes-Perm ok window now p)
votes-Perm ok window now (Permᴰ.swap e f) = ground (arith, e, f)
votes-Perm ok window now (Permᴰ.trans p q) = votes-Perm ok window now p ∙ votes-Perm ok window now q

-- The verdict is unknown if there is no fresh result, down if more of the fresh results fail than
-- succeed, and up otherwise, so also on a tie.
pub verdict_iff :
    (window now : ℕ) (results : List (String × NodeResult))
    → let v = verdict (tally window now results no_votes) in
      let good = votes true window now results in
      let bad = votes false window now results in
      ((v ≡ unknown) ↔ (good + bad ≡ 0))
      × ((v ≡ down) ↔ (good < bad))
      × ((v ≡ up) ↔ ((0 < good + bad) × (bad ≤ good)))
unfolding verdict
verdict_iff window now results = ground (arith, tally-votes window now results no_votes)

-- The verdict does not depend on the order in which Go ranges over the results.
pub verdict-Perm :
    (window now : ℕ) (xs ys : List (String × NodeResult))
    → Permᴰ xs ys
    → verdict (tally window now xs no_votes) ≡ verdict (tally window now ys no_votes)
unfolding verdict
verdict-Perm window now xs ys p = ground (
  arith,
  tally-votes window now xs no_votes,
  tally-votes window now ys no_votes,
  votes-Perm true window now p,
  votes-Perm false window now p,
)
