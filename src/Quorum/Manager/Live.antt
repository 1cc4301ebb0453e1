-- ===== src/Quorum/Manager/Live.antt =====
-- The live set of internal/quorum/manager.go: what it holds, and its order.
use quptime.Prelude.{
  ℕ, ◌<◌, ◌+◌, String, true, none, some, List, [], ◌∷◌, ◌≡◌, ◌↔◌, ◌⊎◌, inl, inr, eq_iff, arith, In,
  Distinct, lookup, keys, Option-cases, ◌≢◌,
}
use quptime.Prelude.Sort.{
  IsSorted, sort_strings-IsSorted, In-sort_strings, sort_strings-In, sort_strings-Distinct,
}
use quptime.Quorum.Manager.{Manager, is_live, live_ids, live_set}

In-live_ids :
    (m : Manager) (now : ℕ) (id : String) (seen : List (String × ℕ))
    → In id (live_ids m now seen)
    → In id (keys seen)
unfolding live_ids
In-live_ids m now id [] h = h
In-live_ids m now id ((j, ts) ∷ rest) h = ground (arith, In-live_ids m now id rest)

Distinct-live_ids :
    (m : Manager) (now : ℕ) (seen : List (String × ℕ))
    → Distinct (keys seen)
    → Distinct (live_ids m now seen)
unfolding live_ids
Distinct-live_ids m now [] d = tt
Distinct-live_ids m now ((j, ts) ∷ rest) d =
    ground (arith, Distinct-live_ids m now rest d.1, In-live_ids m now j rest)

is_live_cases :
    (m : Manager) (now : ℕ) (id : String) (ts : ℕ)
    → (is_live m now id ts ≡ true) ↔ ((now < ts + m.dead_after) ⊎ (id ≡ m.self_id))
unfolding is_live
is_live_cases m now id ts = ground (arith, eq_iff id m.self_id)

-- An id is reported live if the entry of its last contact is fresh, or it is the node itself.
abbrev pub Fresh : Manager → ℕ → String → Type 0
Fresh m now id =
    (ts : ℕ) × (lookup id m.last_seen ≡ some ts) × ((now < ts + m.dead_after) ⊎ (id ≡ m.self_id))

module _ (m : Manager) (now : ℕ) (id : String) where
  live_ids-present :
      (seen : List (String × ℕ)) → In id (live_ids m now seen) → lookup id seen ≢ none
  unfolding live_ids lookup
  live_ids-present [] h = λ e. absurd h
  live_ids-present ((j, ts) ∷ rest) h = λ e. ground (arith, eq_iff j id, live_ids-present rest)

  live_ids-value :
      (ts : ℕ) (seen : List (String × ℕ))
      → Distinct (keys seen)
      → In id (live_ids m now seen)
      → lookup id seen ≡ some ts
      → is_live m now id ts ≡ true
  unfolding live_ids lookup
  live_ids-value ts [] d h e = absurd h
  live_ids-value ts ((j, u) ∷ rest) d h e =
      ground (arith, eq_iff j id, live_ids-value ts rest d.1, In-live_ids m now id rest)

  lookup-live_ids :
      (ts : ℕ) (seen : List (String × ℕ))
      → lookup id seen ≡ some ts
      → is_live m now id ts ≡ true
      → In id (live_ids m now seen)
  unfolding live_ids lookup
  lookup-live_ids ts [] h k = cc
  lookup-live_ids ts ((j, u) ∷ rest) h k = ground (arith, eq_iff j id, lookup-live_ids ts rest)

  -- With one contact entry for each peer, the live set holds exactly the peers whose last contact is
  -- less than `deadAfter` ago, and the node itself once it has an entry.
  pub live_set_iff : Distinct (keys m.last_seen) → In id (live_set m now) ↔ Fresh m now id
  unfolding live_set
  live_set_iff d = (
    λ h. found (In-sort_strings id (live_ids m now m.last_seen) h),
    λ h.
        sort_strings-In id (live_ids m now m.last_seen)
          (lookup-live_ids h.0 m.last_seen h.1 ((is_live_cases m now id h.0).1 h.2)),
  )
    where
      found : In id (live_ids m now m.last_seen) → Fresh m now id
      found h = elim (Option-cases (lookup id m.last_seen)) [
        | inl e ↦ absurd (live_ids-present m.last_seen h e)
        | inr (ts, e) ↦ (ts, e, (is_live_cases m now id ts).0 (live_ids-value ts m.last_seen d h e))
      ]

pub live_set-IsSorted : (m : Manager) (now : ℕ) → IsSorted (live_set m now)
unfolding live_set
live_set-IsSorted m now = sort_strings-IsSorted (live_ids m now m.last_seen)

pub live_set-Distinct :
    (m : Manager) (now : ℕ) → Distinct (keys m.last_seen) → Distinct (live_set m now)
unfolding live_set
live_set-Distinct m now d =
    sort_strings-Distinct (live_ids m now m.last_seen) (Distinct-live_ids m now m.last_seen d)
