-- ===== src/Config/Cluster/Convergence.antt =====
-- Snapshots that a node receives one after the other: `Replace` of internal/config/cluster.go.
use quptime.Prelude.{
  ◌≤◌, List, [], ◌∷◌, ◌≡◌, refl, inl, inr, arith, In, map, leb, leb→le, if◌then◌else◌, Bool-cases,
}
use quptime.Config.Types.{ClusterConfig}
use quptime.Config.Cluster.{Disk, snapshot, replace}
use quptime.Config.Cluster.Versions.{snapshot-replace}

-- the snapshots that a node receives one after the other
unfoldable pub replace_all : Disk → List ClusterConfig → ClusterConfig → ClusterConfig
replace_all d [] c = c
replace_all d (x ∷ xs) c = replace_all d xs (replace d x c).config

-- `s` is one of the snapshots, and none has a greater version.
abbrev pub Newest : ClusterConfig → List ClusterConfig → Type 0
Newest s all = In s all × ((x : ClusterConfig) → In x all → x.version ≤ s.version)

Newest-join :
    (s a b : ClusterConfig) (rest : List ClusterConfig)
    → Newest s ((if leb b.version a.version then a else b) ∷ rest)
    → Newest s (a ∷ b ∷ rest)
Newest-join s a b rest h = elim (Bool-cases (leb b.version a.version)) [
  | inl e ↦
      let k : Newest s (a ∷ rest) = rw e at h in
      (
        elim k.0 [ inl q ↦ inl q | inr r ↦ inr (inr r) ],
        λ x m. elim m [
          | inl q ↦ k.1 x (inl q)
          | inr (inl q) ↦ rw q (omega (arith, k.1 a (inl refl), leb→le b.version a.version e))
          | inr (inr r) ↦ k.1 x (inr r)
        ],
      )
  | inr e ↦
      let k : Newest s (b ∷ rest) = rw e at h in
      (inr k.0, λ x m. elim m [ inl q ↦ rw q (ground (arith, k.1 b (inl refl))) | inr r ↦ k.1 x r ])
]

-- The content of a node after its snapshots is the newest of its own and theirs.
replace_all-Newest :
    (d : Disk) (xs : List ClusterConfig) (c : ClusterConfig)
    → Newest (snapshot (replace_all d xs c)) (map snapshot (c ∷ xs))
unfolding replace_all snapshot
replace_all-Newest d [] c =
    (inl refl, λ x m. elim m [ inl e ↦ rw e (omega arith) | inr r ↦ absurd r ])
replace_all-Newest d (y ∷ xs) c =
    Newest-join (snapshot (replace_all d (y ∷ xs) c)) (snapshot c) (snapshot y) (map snapshot xs)
      (rw (snapshot-replace d y c) at (replace_all-Newest d xs (replace d y c).config))

-- Equal versions mean equal content.
abbrev pub VersionsAgree : List ClusterConfig → Type 0
VersionsAgree all = (x y : ClusterConfig) → In x all → In y all → x.version ≡ y.version → x ≡ y

-- Two nodes that between them know the same snapshots, their own contents counted in, end with the
-- same content, in whatever order and however often each received them, and whatever their
-- disks do, if equal versions mean equal content.
pub replace_all-converges :
    (d d' : Disk) (xs ys : List ClusterConfig) (c c' : ClusterConfig)
    → ((x : ClusterConfig) → In x (map snapshot (c ∷ xs)) → In x (map snapshot (c' ∷ ys)))
    → ((x : ClusterConfig) → In x (map snapshot (c' ∷ ys)) → In x (map snapshot (c ∷ xs)))
    → VersionsAgree (map snapshot (c ∷ xs))
    → snapshot (replace_all d xs c) ≡ snapshot (replace_all d' ys c')
replace_all-converges d d' xs ys c c' to from agree =
    let s = replace_all-Newest d xs c in
    let t = replace_all-Newest d' ys c' in
    agree (snapshot (replace_all d xs c)) (snapshot (replace_all d' ys c')) s.0
      (from (snapshot (replace_all d' ys c')) t.0)
      (omega (
        arith,
        s.1 (snapshot (replace_all d' ys c')) (from (snapshot (replace_all d' ys c')) t.0),
        t.1 (snapshot (replace_all d xs c)) (to (snapshot (replace_all d xs c)) s.0),
      ))
