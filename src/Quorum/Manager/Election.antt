-- ===== src/Quorum/Manager/Election.antt =====
-- Who is elected: `recomputeMaster` of internal/quorum/manager.go against a description of the
-- winner that has no loop.
use quptime.Prelude.{
  ℕ, ◌<◌, ◌+◌, ◌%◌, ◌^◌, ◌≤◌, String, true, false, List, [], ◌∷◌, ◌≡◌, ◌≢◌, refl, ◌∙◌, ◌↔◌, ◌⊎◌,
  inl, inr, ◌==◌, eq_iff, arith, In, length, Bool-cases, str_leb, str_leb_refl, str_leb_trans,
  str_leb_antisym, leb, leb→le,
}
use quptime.Prelude.Sort.{AtMost, IsSorted, head_least}
use quptime.Quorum.Manager.{
  Manager, cooled, challenger, member, elect, new_master, recompute_master, live_set,
}
use quptime.Quorum.Manager.Live.{live_set-IsSorted}

member_iff : (s : String) (xs : List String) → (member s xs ≡ true) ↔ In s xs
unfolding member
member_iff s [] = (λ h. cc, λ h. absurd h)
member_iff s (x ∷ xs) = ground (arith, eq_iff x s, member_iff s xs)

-- No incumbent is there to protect.
abbrev Vacant : Manager → List String → Type 0
Vacant m live = (m.master_id ≡ "") ⊎ (¬ In m.master_id live)

-- A live incumbent is there.
abbrev Incumbent : Manager → List String → Type 0
Incumbent m live = (m.master_id ≢ "") × In m.master_id live

-- `w` is at most every live peer that has served its cooldown.
abbrev BelowCooled : Manager → ℕ → List String → String → Type 0
BelowCooled m now live w = (id : String) → In id live → cooled m now id ≡ true → AtMost w id

pub data Elects (quorum : ℕ) (m : Manager) (now : ℕ) (live : List String) (w : String)
    : Type 0 where
  without_quorum : (length live < quorum) ⊎ (live ≡ []) → w ≡ "" → Elects quorum m now live w
  takes_over :
      quorum ≤ length live
      → Vacant m live
      → In w live
      → ((id : String) → In id live → AtMost w id)
      → Elects quorum m now live w
  stays :
      quorum ≤ length live
      → Incumbent m live
      → w ≡ m.master_id
      → BelowCooled m now live m.master_id
      → Elects quorum m now live w
  displaces :
      quorum ≤ length live
      → Incumbent m live
      → In w live
      → cooled m now w ≡ true
      → ¬ AtMost m.master_id w
      → BelowCooled m now live w
      → Elects quorum m now live w

-- the loop over the live peers below the incumbent
data Challenged (m : Manager) (now : ℕ) (live : List String) (w : String) : Type 0 where
  nobody : w ≡ m.master_id → BelowCooled m now live m.master_id → Challenged m now live w
  somebody :
      In w live
      → cooled m now w ≡ true
      → ¬ AtMost m.master_id w
      → BelowCooled m now live w
      → Challenged m now live w

module _ (m : Manager) (now : ℕ) where
  Challenged-cons :
      (x : String) (xs : List String) (w : String)
      → IsSorted (x ∷ xs)
      → str_leb m.master_id x ≡ false
      → cooled m now x ≡ false
      → Challenged m now xs w
      → Challenged m now (x ∷ xs) w
  Challenged-cons x xs w s lt h (nobody e below) =
      nobody e (λ id mem c. elim mem [ inl q ↦ cc | inr r ↦ below id r c ])
  Challenged-cons x xs w s lt h (somebody i c l below) =
      somebody (inr i) c l (λ id mem k. elim mem [ inl q ↦ cc | inr r ↦ below id r k ])

  challenger-Challenged :
      (live : List String) → IsSorted live → Challenged m now live (challenger m now live)
  unfolding challenger
  challenger-Challenged [] s = nobody refl (λ id h c. absurd h)
  challenger-Challenged (x ∷ xs) s = elim (Bool-cases (str_leb m.master_id x)) [
    | inl e ↦
        rw (e, challenger)
          (nobody refl (λ id h c. elim h [
            | inl q ↦ rw q e
            | inr r ↦ str_leb_trans m.master_id x id e (head_least x id xs s r)
          ]))
    | inr e ↦ elim (Bool-cases (cooled m now x)) [
      | inl c ↦
          rw (e, c)
            (somebody (inl refl) c (λ h. cc)
              (λ id h k. elim h [ inl q ↦ rw q (str_leb_refl x) | inr r ↦ head_least x id xs s r ]))
      | inr c ↦
          rw (e, c)
            (Challenged-cons x xs (challenger m now xs) s e c (challenger-Challenged xs s.1))
    ]
  ]

Vacant-cases : (m : Manager) (live : List String) → Vacant m live ⊎ Incumbent m live
Vacant-cases m live = elim (Bool-cases (m.master_id == "")) [
  | inl e ↦ inl (inl ((eq_iff m.master_id "").0 e))
  | inr e ↦ elim (Bool-cases (member m.master_id live)) [
    | inl k ↦ inr (λ q. ground (arith, eq_iff m.master_id ""), (member_iff m.master_id live).0 k)
    | inr k ↦ inl (inr (λ i. ground (arith, member_iff m.master_id live)))
  ]
]

elect-Vacant :
    (m : Manager) (now : ℕ) (x : String) (xs : List String)
    → Vacant m (x ∷ xs)
    → elect m now (x ∷ xs) ≡ x
unfolding elect
elect-Vacant m now x xs v = ground (arith, eq_iff m.master_id "", member_iff m.master_id (x ∷ xs))

elect-Incumbent :
    (m : Manager) (now : ℕ) (x : String) (xs : List String)
    → Incumbent m (x ∷ xs)
    → elect m now (x ∷ xs) ≡ challenger m now (x ∷ xs)
unfolding elect
elect-Incumbent m now x xs v =
    ground (arith, eq_iff m.master_id "", member_iff m.master_id (x ∷ xs))

module _ (quorum : ℕ) (m : Manager) (now : ℕ) where
  Challenged-Elects :
      (live : List String) (w : String)
      → quorum ≤ length live
      → Incumbent m live
      → Challenged m now live w
      → Elects quorum m now live w
  Challenged-Elects live w q v (nobody e below) = stays q v e below
  Challenged-Elects live w q v (somebody i c l below) = displaces q v i c l below

  elect-Elects :
      (x : String) (xs : List String)
      → IsSorted (x ∷ xs)
      → quorum ≤ length (x ∷ xs)
      → Elects quorum m now (x ∷ xs) (elect m now (x ∷ xs))
  elect-Elects x xs s q = elim (Vacant-cases m (x ∷ xs)) [
    | inl v ↦ rw (elect-Vacant m now x xs v) (
        takes_over q v (inl refl)
          (λ id h. elim h [ inl e ↦ rw e (str_leb_refl x) | inr r ↦ head_least x id xs s r ]))
    | inr v ↦ rw (elect-Incumbent m now x xs v) (
        Challenged-Elects (x ∷ xs) (challenger m now (x ∷ xs)) q v
          (challenger-Challenged m now (x ∷ xs) s))
  ]

  -- On every branch the master that `recomputeMaster` chooses, for any sorted live set, is a winner
  -- by the description `Elects`: nobody without a quorum, the least live peer where no live
  -- incumbent is there, and else the least of the incumbent and the lower live peers that have
  -- served their cooldown.
  pub new_master-Elects :
      (live : List String) → IsSorted live → Elects quorum m now live (new_master quorum m now live)
  unfolding new_master elect
  new_master-Elects [] s = without_quorum (inr refl) (ground arith)
  new_master-Elects (x ∷ xs) s = elim (Bool-cases (leb quorum (length (x ∷ xs)))) [
    | inl e ↦ rw e (elect-Elects x xs s (leb→le quorum (length (x ∷ xs)) e))
    | inr e ↦ rw e (without_quorum (inl (ground arith)) refl)
  ]

  without_quorum_absurd :
      (live : List String) (x : String)
      → (length live < quorum) ⊎ (live ≡ [])
      → quorum ≤ length live
      → In x live
      → ⊥
  without_quorum_absurd [] x h q i = i
  without_quorum_absurd (y ∷ ys) x (inl h) q i = omega arith
  without_quorum_absurd (y ∷ ys) x (inr h) q i = cc

  Vacant-absurd : (live : List String) → Vacant m live → Incumbent m live → ⊥
  Vacant-absurd live (inl e) h = h.0 e
  Vacant-absurd live (inr n) h = n h.1

  -- The description determines the winner: two nodes that see the same live set, incumbent and
  -- streaks, with a sorted live set, agree on the master.
  pub Elects-unique :
      (live : List String) (v w : String)
      → Elects quorum m now live v
      → Elects quorum m now live w
      → v ≡ w
  Elects-unique live v w (without_quorum a e) (without_quorum b f) = cc
  Elects-unique live v w (without_quorum a e) (takes_over q n i l) =
      absurd (without_quorum_absurd live w a q i)
  Elects-unique live v w (without_quorum a e) (stays q n f l) =
      absurd (without_quorum_absurd live m.master_id a q n.1)
  Elects-unique live v w (without_quorum a e) (displaces q n i c l b) =
      absurd (without_quorum_absurd live w a q i)
  Elects-unique live v w (takes_over q n i l) (without_quorum a e) =
      absurd (without_quorum_absurd live v a q i)
  Elects-unique live v w (takes_over q n i l) (takes_over q' n' i' l') =
      str_leb_antisym v w (l w i') (l' v i)
  Elects-unique live v w (takes_over q n i l) (stays q' n' f b) = absurd (Vacant-absurd live n n')
  Elects-unique live v w (takes_over q n i l) (displaces q' n' i' c a b) =
      absurd (Vacant-absurd live n n')
  Elects-unique live v w (stays q n e b) (without_quorum a f) =
      absurd (without_quorum_absurd live m.master_id a q n.1)
  Elects-unique live v w (stays q n e b) (takes_over q' n' i l) = absurd (Vacant-absurd live n' n)
  Elects-unique live v w (stays q n e b) (stays q' n' f b') = cc
  Elects-unique live v w (stays q n e b) (displaces q' n' i c l b') = absurd (l (b w i c))
  Elects-unique live v w (displaces q n i c l b) (without_quorum a e) =
      absurd (without_quorum_absurd live v a q i)
  Elects-unique live v w (displaces q n i c l b) (takes_over q' n' i' l') =
      absurd (Vacant-absurd live n' n)
  Elects-unique live v w (displaces q n i c l b) (stays q' n' f b') = absurd (l (b' v i c))
  Elects-unique live v w (displaces q n i c l b) (displaces q' n' i' c' l' b') =
      str_leb_antisym v w (b w i' c') (b' v i c)

-- A winner is live, or there is none.
pub Elects-In :
    (quorum : ℕ) (m : Manager) (now : ℕ) (live : List String) (w : String)
    → Elects quorum m now live w
    → (w ≡ "") ⊎ In w live
Elects-In quorum m now live w (without_quorum a e) = inl e
Elects-In quorum m now live w (takes_over q n i l) = inr i
Elects-In quorum m now live w (stays q n e b) = inr (rw e n.1)
Elects-In quorum m now live w (displaces q n i c l b) = inr i

module _ (quorum now : ℕ) (m : Manager) where
  recompute_master-new_master :
      (recompute_master quorum now m).master_id ≡ new_master quorum m now (live_set m now)
  unfolding recompute_master
  recompute_master-new_master =
      ground (arith, eq_iff (new_master quorum m now (live_set m now)) m.master_id)

  -- `recomputeMaster` installs `w` exactly if the description `Elects` allows `w` for the current
  -- live set, quorum, incumbent and streaks.
  pub recompute_master_iff :
      (w : String)
      → Elects quorum m now (live_set m now) w ↔ ((recompute_master quorum now m).master_id ≡ w)
  recompute_master_iff w =
      let chosen = new_master-Elects quorum m now (live_set m now) (live_set-IsSorted m now) in
      (
        λ e.
            recompute_master-new_master
            ∙ Elects-unique quorum m now (live_set m now) (new_master quorum m now (live_set m now))
                w chosen e,
        λ e. rw (← e, recompute_master-new_master) chosen,
      )

  -- The term moves by one, as a uint64, if the elected master changes, transitions to and from
  -- no master included, and else stays; nothing but the term and the master changes.
  pub recompute_master-term :
      let m' = recompute_master quorum now m in
      (m'.master_id ≡ m.master_id → m' ≡ m)
      × (m'.master_id ≢ m.master_id
          → m' ≡ record m { term = (m.term + 1) % 2 ^ 64; master_id = m'.master_id })
  unfolding recompute_master
  recompute_master-term = (
    λ e. ground (arith, eq_iff (new_master quorum m now (live_set m now)) m.master_id),
    λ e. ground (arith, eq_iff (new_master quorum m now (live_set m now)) m.master_id),
  )
