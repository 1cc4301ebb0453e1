-- ===== src/Checks/Aggregator/Hysteresis.antt =====
-- Hysteresis in internal/checks/aggregator.go against the whole history of evaluations.
use quptime.Prelude.{
  ℕ, suc, ◌≤◌, true, false, List, [], ◌∷◌, ◌≡◌, ◌≢◌, refl, ◌↔◌, arith, if◌then◌else◌,
}
use quptime.Checks.Aggregator.{
  State, unknown, state_eq, CheckState, fresh_state, hold, fires, advance,
}

pub state_eq_iff : (a b : State) → (state_eq a b ≡ true) ↔ (a ≡ b)
state_eq_iff unknown b = ground arith
state_eq_iff a b = ground arith

-- the state of a check after the verdicts of its evaluations, newest first
unfoldable pub advance_all : List State → CheckState → CheckState
advance_all [] st = st
advance_all (c ∷ before) st = advance c (advance_all before st)

-- The latest verdict that two evaluations in a row have given; unknown if there is none.
abbrev pub last_pair : List State → State
last_pair [] = unknown
last_pair (a ∷ before) = elim before [
  | [] ↦ unknown
  | b ∷ more ↦ if state_eq a b then a else last_pair before
]

-- how often the latest verdict has been given in a row
abbrev run_length : List State → ℕ
run_length [] = 0
run_length (a ∷ before) = elim before [
  | [] ↦ 1
  | b ∷ more ↦ if state_eq a b then suc (run_length before) else 1
]

abbrev latest_of : List State → State
latest_of [] = unknown
latest_of (a ∷ before) = a

record Follows (history : List State) (st : CheckState) : Type 0 where
  announced : st.committed ≡ last_pair history
  tried : st.candidate ≡ latest_of history
  counted : st.consecutive ≡ run_length history

run_length-pos : (a : State) (before : List State) → 1 ≤ run_length (a ∷ before)
run_length-pos a [] = omega arith
run_length-pos a (b ∷ more) = ground arith

advance-Follows :
    (a : State) (history : List State) (st : CheckState)
    → Follows history st
    → Follows (a ∷ history) (advance a st)
unfolding advance
advance-Follows unknown [] st v = ground arith
advance-Follows a [] st v = ground arith
advance-Follows a (b ∷ more) st v = ground (
  arith,
  run_length-pos b more,
  state_eq_iff a st.candidate,
  state_eq_iff a st.committed,
  state_eq_iff a b,
)

advance_all-Follows : (history : List State) → Follows history (advance_all history fresh_state)
unfolding advance_all
advance_all-Follows [] = record { announced = refl; tried = refl; counted = refl }
advance_all-Follows (a ∷ before) =
    advance-Follows a before (advance_all before fresh_state) (advance_all-Follows before)

-- After any history of evaluations of a new check, the announced state is the latest verdict that
-- two evaluations in a row have given, and unknown if there has been none.
pub committed-advance_all :
    (history : List State) → (advance_all history fresh_state).committed ≡ last_pair history
committed-advance_all history = (advance_all-Follows history).announced

-- An evaluation fires the transition callback exactly if it changes the announced state, and then
-- the new announced state is its verdict.
pub fires_iff :
    (a : State) (st : CheckState)
    → ((fires a (hold a st) ≡ true) ↔ ((advance a st).committed ≢ st.committed))
      × (fires a (hold a st) ≡ true → (advance a st).committed ≡ a)
      × (fires a (hold a st) ≡ false → (advance a st).committed ≡ st.committed)
unfolding advance
fires_iff a st = ground (arith, state_eq_iff a st.committed, state_eq_iff a st.candidate)
