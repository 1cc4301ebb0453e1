-- ===== src/Config/Cluster/Settling.antt =====
-- How often a node adopts a snapshot: `Replace` of internal/config/cluster.go.
use quptime.Prelude.{
  ℕ, ◌+◌, ◌≤◌, ◌<◌, Bool, true, false, ◌||◌, Option, none, some, List, [], ◌∷◌, ◌≡◌, refl, ◌⊎◌, inl,
  inr, arith, In, leb, if◌then◌else◌, Bool-cases,
}
use quptime.Config.Types.{ClusterConfig}
use quptime.Config.Cluster.{Error, Disk, Replaced, replace}
use quptime.Config.Cluster.Versions.{version-replace}

abbrev failing : Option Error → Bool
failing none = false
failing (some e) = true

-- `Replace` adopted the snapshot: it says so, or has fired the callbacks, or has failed to write.
abbrev pub adopted : Replaced → Bool
adopted r = r.applied || r.notified || failing r.error

-- how many of the snapshots, received one after the other, are adopted
unfoldable pub adoptions : Disk → List ClusterConfig → ClusterConfig → ℕ
adoptions d [] c = 0
adoptions d (x ∷ xs) c =
    let r = replace d x c in (if adopted r then 1 else 0) + adoptions d xs r.config

stale :
    (d : Disk) (x c : ClusterConfig)
    → leb x.version c.version ≡ true
    → adopted (replace d x c) ≡ false
unfolding replace
stale d x c e = ground arith

-- an adopted snapshot is newer than what the node had
adopted-newer :
    (d : Disk) (x c : ClusterConfig)
    → (adopted (replace d x c) ≡ false) ⊎ (c.version < (replace d x c).config.version)
adopted-newer d x c = elim (Bool-cases (leb x.version c.version)) [
  | inl e ↦ inl (stale d x c e)
  | inr e ↦ inr (ground (arith, version-replace d x c, e))
]

-- While nobody makes a version above a bound, a node adopts at most as many snapshots as there are
-- versions between its own and the bound, however many arrive, and in whatever order, also where a
-- write fails; so the exchange of snapshots comes to rest.
pub adoptions-le :
    (d : Disk) (xs : List ClusterConfig) (c : ClusterConfig) (bound : ℕ)
    → ((x : ClusterConfig) → In x xs → x.version ≤ bound)
    → c.version ≤ bound
    → c.version + adoptions d xs c ≤ bound
unfolding adoptions
adoptions-le d [] c bound all l = omega arith
adoptions-le d (x ∷ xs) c bound all l =
    let v = version-replace d x c in
    let here = all x (inl refl) in
    let rest =
      adoptions-le d xs (replace d x c).config bound (λ y m. all y (inr m)) (omega (arith, v)) in
    elim (adopted-newer d x c) [
      | inl e ↦ simp e (omega (arith, v, rest))
      | inr e ↦ ground (arith, e, rest)
    ]
