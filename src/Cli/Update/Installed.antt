-- ===== src/Cli/Update/Installed.antt =====
-- The whole of `runUpdate`, internal/cli/update.go.
use quptime.Prelude.{
  String, Bool, not, ◌&&◌, Option, none, some, List, [], ◌∷◌, ◌≡◌, ◌≢◌, refl, sym, ap, ◌⊎◌, inl,
  inr, ◌==◌, eq_iff, arith, Bool-cases, In, if◌then◌else◌,
}
use quptime.Config.Paths.{Files, put, cleaned, temp_mode}
use quptime.Cli.Update.{
  Source, UpdateWorld, Options, no_release, no_self, no_directory, not_writable, unknown_source,
  not_linux, unsupported_arch, Updated, installed, up_to_date, available, failed, pick_sources,
  source_tag, fetch_latest_release, same_version, with_probe, with_self, with_release, with_sources,
  run_update, update_arch, release_from,
}
use quptime.Config.Paths.Swap.{Staged-put, removed_back}
use quptime.Cli.Update.Verified.{Chosen, Fresh, Ends, Near, refused, download-Ends}

release_from-tag :
    (s : Source) (o : Option String) (rest : Option (String × Source)) (rel : String × Source)
    → release_from s o rest ≡ some rel
    → ((rel.1 ≡ s) × (o ≡ some rel.0)) ⊎ (rest ≡ some rel)
unfolding release_from
release_from-tag s none rest rel h = inr h
release_from-tag s (some tag) rest rel h =
    let e : (tag, s) ≡ rel = cc in inl (ap (λ r. r.1) (sym e), ap (λ r. some r.0) e)

-- the release is that of a source, with the tag that this source gave
fetch_latest_release-tag :
    (w : UpdateWorld) (beta : Bool) (sources : List Source) (rel : String × Source)
    → fetch_latest_release w beta sources ≡ some rel
    → In rel.1 sources × (source_tag w beta rel.1 ≡ some rel.0)
unfolding fetch_latest_release
fetch_latest_release-tag w beta [] rel h = absurd (ground arith)
fetch_latest_release-tag w beta (s ∷ rest) rel h =
    elim (release_from-tag s (source_tag w beta s) (fetch_latest_release w beta rest) rel h) [
      | inl (e, t) ↦ (inl e, rw e t)
      | inr later ↦ let (m, t) = fetch_latest_release-tag w beta rest rel later in (inr m, t)
    ]

module _ (w : UpdateWorld) (opts : Options) (dir : Files) (fresh : Fresh w dir) where
  nothing_done : (u : Updated) → ((t x : String) → u ≢ installed t x) → Ends w opts dir (dir, u)
  nothing_done u n = refused w opts dir fresh dir u (λ m. inl refl) n

  with_probe-Ends :
      (rel : String × Source) (exe : String) (o : Option String)
      → Chosen w opts rel exe
      → w.probe ≡ o
      → Ends w opts dir (with_probe w rel exe dir o)
  unfolding with_probe
  with_probe-Ends rel exe none c p = nothing_done (failed not_writable) (λ t x h. cc)
  with_probe-Ends rel exe (some name) c p =
      let made = put name "" temp_mode dir in
      let staged = Staged-put name dir _ dir (λ n d. refl) in
      let near : Near w dir (cleaned w.probe_removed name made) =
        elim (Bool-cases w.probe_removed) [
          | inl k ↦ simp k (λ n. inl (removed_back name dir made (fresh.probe name p) staged n))
          | inr k ↦ simp k (λ n. elim (Bool-cases (n == name)) [
            | inl e ↦ inr (rw ((eq_iff n name).0 e) (p, refl))
            | inr e ↦ inl (staged n (ground (arith, eq_iff n name)))
          ])
        ] in
      download-Ends w opts dir fresh rel exe (cleaned w.probe_removed name made) near c

  with_self-Ends :
      (rel : String × Source) (o : Option String)
      → w.self ≡ o
      → ((exe : String) → o ≡ some exe → Chosen w opts rel exe)
      → Ends w opts dir (with_self w rel dir o)
  unfolding with_self
  with_self-Ends rel none s c = nothing_done (failed no_self) (λ t x h. cc)
  with_self-Ends rel (some exe) s c = elim (Bool-cases w.dir_exists) [
    | inl e ↦ simp e (with_probe-Ends rel exe w.probe (c exe refl) refl)
    | inr e ↦ simp e (nothing_done (failed no_directory) (λ t x h. cc))
  ]

  with_release-Ends :
      (sources : List Source) (o : Option (String × Source))
      → w.os ≡ "linux"
      → pick_sources w opts.source ≡ some sources
      → fetch_latest_release w opts.beta sources ≡ o
      → Ends w opts dir (with_release w opts dir o)
  unfolding with_release
  with_release-Ends sources none l p f = nothing_done (failed no_release) (λ t x h. cc)
  with_release-Ends sources (some rel) l p f =
      let version = if w.version == "" then "dev" else w.version in
      let (offered, tagged) = fetch_latest_release-tag w opts.beta sources rel f in
      elim (Bool-cases (not opts.force && same_version w version rel.0)) [
        | inl e ↦ simp e (nothing_done up_to_date (λ t x h. cc))
        | inr e ↦ elim (Bool-cases opts.check_only) [
          | inl k ↦ simp (e, k) (nothing_done available (λ t x h. cc))
          | inr k ↦
              simp (e, k)
                (with_self-Ends rel w.self refl (λ exe s. record {
                  linux = l;
                  sources = sources;
                  allowed = p;
                  offered = offered;
                  tagged = tagged;
                  asked = k;
                  self = s;
                }))
        ]
      ]

  with_sources-Ends :
      (o : Option (List Source))
      → w.os ≡ "linux"
      → pick_sources w opts.source ≡ o
      → Ends w opts dir (with_sources w opts dir o)
  unfolding with_sources
  with_sources-Ends none l p = nothing_done (failed unknown_source) (λ t x h. cc)
  with_sources-Ends (some sources) l p =
      with_release-Ends sources (fetch_latest_release w opts.beta sources) l p refl

  -- `qu update`, whichever call fails, ends in one of two ways, if temporary files get fresh names:
  -- on Linux it has installed, over its own binary and nothing else, the download of a release whose
  -- tag an allowed source gave, with a checksum that the release's SHA256SUMS lists for this very
  -- file, and was not run with --check; or it installed nothing and its own binary and every other file
  -- are as before. A temporary file stays only where it could not be removed: the probe of the
  -- directory, or, after an error, the new binary.
  pub run_update-Ends : Ends w opts dir (run_update w opts dir)
  unfolding run_update
  run_update-Ends = elim (Bool-cases (w.os == "linux")) [
    | inr e ↦ simp e (nothing_done (failed not_linux) (λ t x h. cc))
    | inl e ↦ elim (Bool-cases (update_arch w.arch)) [
      | inr a ↦ simp (e, a) (nothing_done (failed unsupported_arch) (λ t x h. cc))
      | inl a ↦
          simp (e, a)
            (with_sources-Ends (pick_sources w opts.source) ((eq_iff w.os "linux").0 e) refl)
    ]
  ]
