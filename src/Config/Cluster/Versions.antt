-- ===== src/Config/Cluster/Versions.antt =====
-- `Mutate` and `Replace` of internal/config/cluster.go: versions, contents and failing writes.
use Prim.Native.Nat.{max}
use quptime.Prelude.{
  ℕ, ◌+◌, ◌%◌, ◌^◌, String, true, false, Option, none, some, ◌≡◌, refl, ◌↔◌, ◌⊎◌, inl, inr, arith,
  leb, if◌then◌else◌, Bool-cases,
}
use quptime.Config.Types.{ClusterConfig}
use quptime.Config.Cluster.{
  Error, Disk, Outcome, snapshot, persist, mutate, replace, after_marshal, after_write, adopt,
  bump_version, save, load_cluster_config, contents, last_saved_sum,
}

-- What `persist` returns: the configuration as it was given, but for the checksum, which is that
-- of the bytes on disk exactly if there is no error; and then the callbacks fire.
pub record Persisted (d : Disk) (c : ClusterConfig) (o : Outcome) : Type 0 where
  pub content : snapshot o.config ≡ snapshot c
  pub version : o.config.version ≡ c.version
  pub notifies : (o.notified ≡ true) ↔ (o.error ≡ none)
  pub on_disk :
      o.error ≡ none
      → (out : String) × (d.marshal c ≡ some out)
        × (d.write out ≡ none)
        × (o.config.last_sum ≡ d.sum256 out)

module _ (d : Disk) (c : ClusterConfig) where
  after_write-Persisted :
      (out : String) (r : Option Error)
      → d.marshal c ≡ some out
      → d.write out ≡ r
      → Persisted d c (after_write d c out r)
  unfolding after_write snapshot
  after_write-Persisted out none m w = record {
    content = refl;
    version = refl;
    notifies = (λ h. refl, λ h. refl);
    on_disk = λ h. (out, m, w, refl);
  }
  after_write-Persisted out (some e) m w = record {
    content = refl;
    version = refl;
    notifies = (λ h. cc, λ h. cc);
    on_disk = λ h. absurd (ground arith);
  }

  after_marshal-Persisted :
      (r : Option String) → d.marshal c ≡ r → Persisted d c (after_marshal d c r)
  unfolding after_marshal snapshot
  after_marshal-Persisted none m = record {
    content = refl;
    version = refl;
    notifies = (λ h. cc, λ h. cc);
    on_disk = λ h. absurd (ground arith);
  }
  after_marshal-Persisted (some out) m = after_write-Persisted out (d.write out) m refl

  persist-Persisted : Persisted d c (persist d c)
  unfolding persist
  persist-Persisted = after_marshal-Persisted (d.marshal c) refl

abbrev pub bumped : ℕ → String → ClusterConfig → ClusterConfig
bumped now by_node c = record c {
  version = (c.version + 1) % 2 ^ 64;
  updated_at = now;
  updated_by = by_node;
}

-- How `Mutate` ends, after `fn` has left `p`.
abbrev pub Mutated : Disk → ℕ → String → ClusterConfig × Option Error → Outcome → Type 0
Mutated d now by_node p o =
    ((e : Error) × (p.1 ≡ some e) × (o ≡ record { config = p.0; error = some e; notified = false }))
    ⊎ ((p.1 ≡ none) × Persisted d (bumped now by_node p.0) o)

bump_version-Mutated :
    (d : Disk) (now : ℕ) (by_node : String) (p : ClusterConfig × Option Error)
    → Mutated d now by_node p (bump_version d now by_node p)
unfolding bump_version
bump_version-Mutated d now by_node (c, some e) = inl (e, refl, refl)
bump_version-Mutated d now by_node (c, none) =
    inr (refl, persist-Persisted d (bumped now by_node c))

-- `Mutate` on both branches. If `fn` fails, what it leaves stays, its error is returned, and no
-- callback fires. If not, the content is what `fn` leaves with the next version (a uint64), the time
-- and the author, whether or not the write succeeds; and the callbacks fire exactly if there is no
-- error, which means that the bytes were taken by the disk.
pub mutate-Mutated :
    (d : Disk) (now : ℕ) (by_node : String) (fn : ClusterConfig → ClusterConfig × Option Error)
    (c : ClusterConfig)
    → Mutated d now by_node (fn c) (mutate d now by_node fn c)
unfolding mutate
mutate-Mutated d now by_node fn c = bump_version-Mutated d now by_node (fn c)

written :
    (d : Disk) (now : ℕ) (by_node out : String) (p : ClusterConfig × Option Error)
    → p.1 ≡ none
    → d.marshal (bumped now by_node p.0) ≡ some out
    → d.write out ≡ none
    → ((bump_version d now by_node p).error ≡ none)
      × ((bump_version d now by_node p).config.version ≡ (p.0.version + 1) % 2 ^ 64)
unfolding bump_version persist after_marshal after_write
written d now by_node out (c, some e) accepted m w = cc
written d now by_node out (c, none) accepted m w = simp (m, w) (refl, refl)

-- Where `fn` succeeds and the bytes reach the disk, `Mutate` has no error and the next version.
pub mutate-written :
    (d : Disk) (now : ℕ) (by_node out : String) (fn : ClusterConfig → ClusterConfig × Option Error)
    (c : ClusterConfig)
    → (fn c).1 ≡ none
    → d.marshal (bumped now by_node (fn c).0) ≡ some out
    → d.write out ≡ none
    → ((mutate d now by_node fn c).error ≡ none)
      × ((mutate d now by_node fn c).config.version ≡ ((fn c).0.version + 1) % 2 ^ 64)
unfolding mutate
mutate-written d now by_node out fn c = written d now by_node out (fn c)

written_sum :
    (d : Disk) (now : ℕ) (by_node out : String) (p : ClusterConfig × Option Error)
    → p.1 ≡ none
    → d.marshal (bumped now by_node p.0) ≡ some out
    → d.write out ≡ none
    → (bump_version d now by_node p).config.last_sum ≡ d.sum256 out
unfolding bump_version persist after_marshal after_write
written_sum d now by_node out (c, some e) accepted m w = cc
written_sum d now by_node out (c, none) accepted m w = simp (m, w) refl

-- and it remembers the checksum of those bytes
pub mutate-sum :
    (d : Disk) (now : ℕ) (by_node out : String) (fn : ClusterConfig → ClusterConfig × Option Error)
    (c : ClusterConfig)
    → (fn c).1 ≡ none
    → d.marshal (bumped now by_node (fn c).0) ≡ some out
    → d.write out ≡ none
    → (mutate d now by_node fn c).config.last_sum ≡ d.sum256 out
unfolding mutate
mutate-sum d now by_node out fn c = written_sum d now by_node out (fn c)

-- Whatever the disk does, `Replace` leaves the content of the incoming snapshot if its version is
-- strictly greater, and else its own.
pub snapshot-replace :
    (d : Disk) (incoming c : ClusterConfig)
    → snapshot (replace d incoming c).config
      ≡ (if leb incoming.version c.version then snapshot c else snapshot incoming)
unfolding replace snapshot
snapshot-replace d incoming c =
    let p = persist-Persisted d (adopt incoming c) in
    elim (Bool-cases (leb incoming.version c.version)) [ inl e ↦ rw e | inr e ↦ rw e p.content ]

-- The version never falls under `Replace`: it becomes the greater of the two.
pub version-replace :
    (d : Disk) (incoming c : ClusterConfig)
    → (replace d incoming c).config.version ≡ max incoming.version c.version
unfolding replace
version-replace d incoming c =
    let p = persist-Persisted d (adopt incoming c) in
    elim (Bool-cases (leb incoming.version c.version)) [
      | inl e ↦ rw e (ground arith)
      | inr e ↦ rw e (ground (arith, p.version))
    ]

-- Where the state is marshalled and the write succeeds, `Save` has no error, `LoadClusterConfig` of
-- that file gives back the saved state with its checksum, if the parser gives back what was
-- marshalled, and the remembered checksum is that of the bytes on disk.
pub load_cluster_config-save :
    (d : Disk) (parse : String → Option ClusterConfig) (c : ClusterConfig) (out : String)
    → d.marshal c ≡ some out
    → d.write out ≡ none
    → parse out ≡ some (snapshot c)
    → ((save d c).error ≡ none)
      × (load_cluster_config d parse (contents out) ≡ some (save d c).config)
      × (last_saved_sum (save d c).config ≡ d.sum256 out)
unfolding save persist after_marshal after_write load_cluster_config snapshot
load_cluster_config-save d parse c out m w p =
    simp (m, w) (refl, rw (p, load_cluster_config) refl, refl)
