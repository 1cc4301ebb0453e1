-- ===== src/Quorum/Manager/Streak.antt =====
-- The streaks of `markLive` against the whole history of contacts.
use quptime.Prelude.{
  ℕ, ◌+◌, String, Option, none, some, List, [], ◌∷◌, ◌≡◌, refl, ◌==◌, eq_iff, arith, lookup,
  lookup-insert, if◌then◌else◌, ltb,
}
use quptime.Quorum.Manager.{Manager, starts_streak, mark_live}

-- The history of contacts, newest first.
abbrev pub History : Type 0
History = List (String × ℕ)

-- the manager after the contacts of a history
unfoldable pub mark_all : History → Manager → Manager
mark_all [] m = m
mark_all ((id, now) ∷ before) m = mark_live id now (mark_all before m)

abbrev pub times_of : String → History → List ℕ
times_of id [] = []
times_of id ((j, t) ∷ before) = if j == id then t ∷ times_of id before else times_of id before

-- Where the last streak of some contacts began: the gaps in a streak are at most `dead_after`.
abbrev pub streak_start : ℕ → List ℕ → Option ℕ
streak_start dead_after [] = none
streak_start dead_after (t ∷ before) = elim before [
  | [] ↦ some t
  | u ∷ more ↦ if ltb (u + dead_after) t then some t else streak_start dead_after before
]

abbrev last_contact : List ℕ → Option ℕ
last_contact [] = none
last_contact (t ∷ before) = some t

mark_all-dead_after : (h : History) (m : Manager) → (mark_all h m).dead_after ≡ m.dead_after
unfolding mark_all mark_live
mark_all-dead_after [] m = refl
mark_all-dead_after ((id, t) ∷ before) m = mark_all-dead_after before m

mark_live-live_since :
    (j id : String) (t : ℕ) (m : Manager)
    → lookup id (mark_live j t m).live_since ≡ (
        if j == id
        then if starts_streak m t (lookup id m.last_seen) then some t else lookup id m.live_since
        else lookup id m.live_since)
unfolding mark_live
mark_live-live_since j id t m = ground (arith, eq_iff j id, lookup-insert j id t m.live_since)

starts_streak-dead_after :
    (m n : Manager) (t : ℕ) (o : Option ℕ)
    → m.dead_after ≡ n.dead_after
    → starts_streak m t o ≡ starts_streak n t o
unfolding starts_streak
starts_streak-dead_after m n t none e = refl
starts_streak-dead_after m n t (some p) e = rw e

module _ (m : Manager) (unseen : m.last_seen ≡ []) (no_streaks : m.live_since ≡ [])
    (id : String) where
  mark_all-last_seen :
      (h : History) → lookup id (mark_all h m).last_seen ≡ last_contact (times_of id h)
  unfolding mark_all mark_live lookup
  mark_all-last_seen [] = rw unseen
  mark_all-last_seen ((j, t) ∷ before) =
      rw (lookup-insert j id t (mark_all before m).last_seen)
        (ground (arith, mark_all-last_seen before))

  streak_step :
      (t : ℕ) (times : List ℕ)
      → streak_start m.dead_after (t ∷ times) ≡ (
          if starts_streak m t (last_contact times)
          then some t
          else streak_start m.dead_after times)
  unfolding starts_streak
  streak_step t [] = refl
  streak_step t (u ∷ more) = refl

  -- After any history of contacts, `liveSince` is where the last streak of the peer's contacts
  -- began, and it is missing just if there was no contact.
  pub mark_all-live_since :
      (h : History)
      → lookup id (mark_all h m).live_since ≡ streak_start m.dead_after (times_of id h)
  unfolding mark_all lookup
  mark_all-live_since [] = rw no_streaks
  mark_all-live_since ((j, t) ∷ before) =
      let m' = mark_all before m in
      rw (mark_live-live_since j id t m') (
        ground (
          arith,
          mark_all-last_seen before,
          mark_all-live_since before,
          mark_all-dead_after before m,
          starts_streak-dead_after m' m t (last_contact (times_of id before)),
          streak_step t (times_of id before),
        ))

-- Contacts change neither the master nor the settings.
pub mark_all-kept :
    (h : History) (m : Manager)
    → ((mark_all h m).master_id ≡ m.master_id)
      × ((mark_all h m).dead_after ≡ m.dead_after)
      × ((mark_all h m).master_cooldown ≡ m.master_cooldown)
unfolding mark_all mark_live
mark_all-kept [] m = (refl, refl, refl)
mark_all-kept ((id, t) ∷ before) m = mark_all-kept before m
