-- ===== src/Quorum/Manager/Invariant.antt =====
-- The invariant of the `Manager` of internal/quorum/manager.go, at `markLive` and at
-- `recomputeMaster`.
use quptime.Prelude.{
  ℕ, ◌<◌, ◌^◌, ◌≤◌, String, none, some, ◌≡◌, ◌≢◌, refl, ◌⊎◌, inl, inr, ◌==◌, eq_iff, arith,
  Distinct, lookup, keys, lookup-insert, Distinct-keys-insert, Option-cases, Bool-cases,
}
use quptime.Quorum.Manager.{
  Manager, new_manager, mark_live, live_set, starts_streak, recompute_master,
}
use quptime.Quorum.Manager.Live.{live_set_iff}
use quptime.Quorum.Manager.Election.{Elects-In, recompute_master_iff, recompute_master-term}

-- Every contact is in the past and inside a streak, the keys of the map are distinct, the elected
-- master has been heard of, and the term is a uint64.
pub record IsValid (clock : ℕ) (m : Manager) : Type 0 where
  pub distinct : Distinct (keys m.last_seen)
  pub past : (id : String) (ts : ℕ) → lookup id m.last_seen ≡ some ts → ts ≤ clock
  pub streak :
      (id : String) (ts : ℕ)
      → lookup id m.last_seen ≡ some ts
      → (since : ℕ) × (lookup id m.live_since ≡ some since) × (since ≤ ts)
  pub heard : (m.master_id ≡ "") ⊎ (lookup m.master_id m.last_seen ≢ none)
  pub term_fits : m.term < 2 ^ 64

pub new_manager-IsValid : (self_id : String) → IsValid 0 (new_manager self_id)
unfolding lookup
new_manager-IsValid self_id = record {
  distinct = tt;
  past = λ id ts e. cc;
  streak = λ id ts e. absurd (ground arith);
  heard = inl refl;
  term_fits = omega arith;
}

module _ (clock now : ℕ) (m : Manager) (later : clock ≤ now) (v : IsValid clock m)
    (j : String) where
  mark_live-past :
      (id : String) (ts : ℕ) → lookup id (mark_live j now m).last_seen ≡ some ts → ts ≤ now
  unfolding mark_live
  mark_live-past id ts e = ground (arith, lookup-insert j id now m.last_seen, v.past id ts)

  streak_at :
      (id : String) (ts : ℕ)
      → lookup id (mark_live j now m).last_seen ≡ some ts
      → lookup id (mark_live j now m).live_since ≢ none
  unfolding mark_live starts_streak
  streak_at id ts e = λ h. elim (Option-cases (lookup id m.last_seen)) [
    | inl n ↦ ground (
      arith,
      eq_iff j id,
      lookup-insert j id now m.last_seen,
      lookup-insert j id now m.live_since,
    )
    | inr (u, s) ↦
        let (since, found, _) = v.streak id u s in
        ground (
          arith,
          eq_iff j id,
          lookup-insert j id now m.last_seen,
          lookup-insert j id now m.live_since,
          found,
        )
  ]

  mark_live-since :
      (id : String) (ts since : ℕ)
      → lookup id (mark_live j now m).last_seen ≡ some ts
      → lookup id (mark_live j now m).live_since ≡ some since
      → since ≤ ts
  unfolding mark_live starts_streak
  mark_live-since id ts since e f = elim (Option-cases (lookup id m.last_seen)) [
    | inl n ↦ ground (
      arith,
      eq_iff j id,
      lookup-insert j id now m.last_seen,
      lookup-insert j id now m.live_since,
    )
    | inr (u, s) ↦
        let (since', found, small) = v.streak id u s in
        ground (
          arith,
          eq_iff j id,
          lookup-insert j id now m.last_seen,
          lookup-insert j id now m.live_since,
          found,
          small,
          v.past id u s,
        )
  ]

  mark_live-heard : (m.master_id ≡ "") ⊎ (lookup m.master_id (mark_live j now m).last_seen ≢ none)
  unfolding mark_live
  mark_live-heard = elim v.heard [
    | inl e ↦ inl e
    | inr h ↦
        inr (λ e. ground (arith, eq_iff j m.master_id, lookup-insert j m.master_id now m.last_seen))
  ]

  pub mark_live-IsValid : IsValid now (mark_live j now m)
  unfolding mark_live
  mark_live-IsValid = record {
    distinct = Distinct-keys-insert j now m.last_seen v.distinct;
    past = mark_live-past;
    streak = λ id ts e. elim (Option-cases (lookup id (mark_live j now m).live_since)) [
      | inl n ↦ absurd (streak_at id ts e n)
      | inr (s, f) ↦ (s, f, mark_live-since id ts s e f)
    ];
    heard = mark_live-heard;
    term_fits = v.term_fits;
  }

pub IsValid-later : {clock now : ℕ} {m : Manager} → clock ≤ now → IsValid clock m → IsValid now m
IsValid-later later v = record {
  distinct = v.distinct;
  past = λ id ts e. omega (arith, v.past id ts e);
  streak = v.streak;
  heard = v.heard;
  term_fits = v.term_fits;
}

-- the elected master has been heard of
elected-heard :
    (quorum clock now : ℕ) (m : Manager)
    → IsValid clock m
    → let w = (recompute_master quorum now m).master_id in (w ≡ "") ⊎ (lookup w m.last_seen ≢ none)
elected-heard quorum clock now m v =
    let w = (recompute_master quorum now m).master_id in
    elim (Elects-In quorum m now (live_set m now) w
      ((recompute_master_iff quorum now m w).1 refl)) [
        | inl e ↦ inl e
        | inr i ↦ let (ts, e, _) = (live_set_iff m now w v.distinct).0 i in inr (λ h. cc)
      ]

pub recompute_master-IsValid :
    (quorum clock now : ℕ) (m : Manager)
    → IsValid clock m
    → IsValid clock (recompute_master quorum now m)
recompute_master-IsValid quorum clock now m v =
    let w = (recompute_master quorum now m).master_id in
    let moves = recompute_master-term quorum now m in
    elim (Bool-cases (w == m.master_id)) [
      | inl e ↦ rw (moves.0 ((eq_iff w m.master_id).0 e)) v
      | inr e ↦ rw (moves.1 (λ q. ground (arith, eq_iff w m.master_id))) (record {
        distinct = v.distinct;
        past = v.past;
        streak = v.streak;
        heard = elected-heard quorum clock now m v;
        term_fits = omega arith;
      })
    ]
