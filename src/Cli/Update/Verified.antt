-- ===== src/Cli/Update/Verified.antt =====
-- What `runUpdate` of internal/cli/update.go installs.
use quptime.Prelude.{
  String, false, Option, none, some, List, ◌≡◌, ◌≢◌, refl, sym, ◌∙◌, ◌⊎◌, inl, inr, ◌==◌, eq_iff,
  arith, Bool-cases, Option-cases, In, lookup,
}
use quptime.Config.Paths.{temp_failed, Files, FileError}
use quptime.Cli.Update.Sums.{Listed, first_sum-Listed}
use quptime.Cli.Update.Replacing.{binary, ReplacedBinary, replace_binary-ReplacedBinary}
use quptime.Cli.Update.{
  Source, UpdateWorld, Options, UpdateError, not_replaced, no_entry, mismatch, no_sums, no_binary,
  replace_temp, Updated, installed, failed, pick_sources, source_tag, expected_sum, replace_binary,
  binary_name, release_url, replaced, install_checked, with_sums, with_binary, download,
}

-- A release whose tag an allowed source gave, and an installation that was asked for.
pub record Chosen (w : UpdateWorld) (opts : Options) (rel : String × Source) (exe : String)
    : Type 0 where
  pub linux : w.os ≡ "linux"
  pub sources : List Source
  pub allowed : pick_sources w opts.source ≡ some sources
  pub offered : In rel.1 sources
  pub tagged : source_tag w opts.beta rel.1 ≡ some rel.0
  pub asked : opts.check_only ≡ false
  pub self : w.self ≡ some exe

-- What was installed: the binary of a chosen release, with a checksum that the checksum file of that
-- release lists for it.
pub record Verified (w : UpdateWorld) (opts : Options) (rel : String × Source)
    (exe payload : String) : Type 0 where
  pub chosen : Chosen w opts rel exe
  pub fetched : w.http_get (release_url w rel (binary_name w rel.0)) ≡ some payload
  pub sums : String
  pub fetched_sums : w.http_get (release_url w rel "SHA256SUMS") ≡ some sums
  pub checked : Listed w (binary_name w rel.0) (w.sha256 payload) (w.lines sums)

-- What `os.CreateTemp` promises: names that no file has, of the two patterns.
pub record Fresh (w : UpdateWorld) (dir : Files) : Type 0 where
  pub temp : (tmp : String) → w.calls.temp ≡ some tmp → lookup tmp dir ≡ none
  pub probe : (p : String) → w.probe ≡ some p → lookup p dir ≡ none
  pub apart : (tmp exe : String) → w.calls.temp ≡ some tmp → w.self ≡ some exe → tmp ≢ exe
  pub probe_apart : (p exe : String) → w.probe ≡ some p → w.self ≡ some exe → p ≢ exe
  pub other : (tmp p : String) → w.calls.temp ≡ some tmp → w.probe ≡ some p → tmp ≢ p

-- a file that the command has made and could not remove: the probe, or the temporary binary
abbrev pub ProbeLeft : UpdateWorld → String → Type 0
ProbeLeft w n = (w.probe ≡ some n) × (w.probe_removed ≡ false)

abbrev pub TempLeft : UpdateWorld → String → Type 0
TempLeft w n = (w.calls.temp ≡ some n) × (w.calls.remove ≡ false)

-- no file differs, but for a probe that could not be removed
abbrev pub Near : UpdateWorld → Files → Files → Type 0
Near w dir after = (n : String) → (lookup n after ≡ lookup n dir) ⊎ ProbeLeft w n

-- no file differs, but for files that could not be removed
abbrev pub Intact : UpdateWorld → Files → Files → Type 0
Intact w dir after = (n : String) → (lookup n after ≡ lookup n dir) ⊎ (ProbeLeft w n ⊎ TempLeft w n)

-- The command installed a verified binary over its own and nothing else, or left its own and every
-- other file; what it has made and could not remove stays.
pub data Ends (w : UpdateWorld) (opts : Options) (dir : Files) (r : Files × Updated) : Type 0 where
  not_installed :
      Intact w dir r.0
      → ((exe : String) → w.self ≡ some exe → lookup exe r.0 ≡ lookup exe dir)
      → ((tag exe : String) → r.1 ≢ installed tag exe)
      → Ends w opts dir r
  did_install :
      (rel : String × Source) (exe payload : String)
      → r.1 ≡ installed rel.0 exe
      → Verified w opts rel exe payload
      → lookup exe r.0 ≡ some (binary payload)
      → ((n : String) → n ≢ exe → (lookup n r.0 ≡ lookup n dir) ⊎ ProbeLeft w n)
      → Ends w opts dir r

module _ (w : UpdateWorld) (opts : Options) (dir : Files) (fresh : Fresh w dir) where
  -- the own binary is none of the files that stay
  own_kept :
      (after : Files)
      → Intact w dir after
      → (exe : String) → w.self ≡ some exe
      → lookup exe after ≡ lookup exe dir
  own_kept after i exe s = elim (i exe) [
    | inl e ↦ e
    | inr (inl (p, c)) ↦ absurd (fresh.probe_apart exe exe p s refl)
    | inr (inr (t, c)) ↦ absurd (fresh.apart exe exe t s refl)
  ]

  pub refused :
      (d : Files) (u : Updated)
      → Near w dir d
      → ((t x : String) → u ≢ installed t x)
      → Ends w opts dir (d, u)
  refused d u i n =
      let intact : Intact w dir d = λ m. elim (i m) [ inl e ↦ inl e | inr l ↦ inr (inl l) ] in
      not_installed intact (own_kept d intact) n

  failing : (d : Files) (e : UpdateError) → Near w dir d → Ends w opts dir (d, failed e)
  failing d e i = refused d (failed e) i (λ t x h. cc)

  through :
      (n : String) (d after : Files)
      → Near w dir d
      → lookup n after ≡ lookup n d
      → (lookup n after ≡ lookup n dir) ⊎ ProbeLeft w n
  through n d after i e = elim (i n) [ inl q ↦ inl (e ∙ q) | inr l ↦ inr l ]

  module _ (rel : String × Source) (exe tmp payload : String) (d : Files) (i : Near w dir d)
      (v : Verified w opts rel exe payload) (t : w.calls.temp ≡ some tmp) where
    gone : lookup tmp d ≡ none
    gone = elim (i tmp) [
      | inl e ↦ e ∙ fresh.temp tmp t
      | inr (p, c) ↦ absurd (fresh.other tmp tmp t p refl)
    ]

    abbrev apart : tmp ≢ exe
    apart = fresh.apart tmp exe t v.chosen.self

    -- after the replacement, whatever its end
    settled :
        (r : Files × Option FileError)
        → ReplacedBinary w.calls exe tmp payload d apart gone r
        → Ends w opts dir (replaced rel.0 exe r)
    unfolding replaced
    settled (after, some e) (s, clean) =
        let near : (n : String) → n ≢ tmp → (lookup n after ≡ lookup n dir) ⊎ ProbeLeft w n = λ n a.
          elim (Bool-cases (n == exe)) [
            | inl q ↦ rw ((eq_iff n exe).0 q) (through exe d after i (s.kept (λ h. cc)))
            | inr q ↦ through n d after i (s.others n (ground (arith, eq_iff n exe)) a)
          ] in
        let intact : Intact w dir after = λ n. elim (Bool-cases (n == tmp)) [
          | inl u ↦ elim clean [
            | inl k ↦ rw ((eq_iff n tmp).0 u) (inl (k ∙ sym (fresh.temp tmp t)))
            | inr (_, c) ↦ rw ((eq_iff n tmp).0 u) (inr (inr (t, c)))
          ]
          | inr u ↦ elim (near n (ground (arith, eq_iff n tmp))) [
            | inl k ↦ inl k
            | inr l ↦ inr (inl l)
          ]
        ] in
        not_installed intact (own_kept after intact) (λ t x h. cc)
    settled (after, none) (s, clean) = did_install rel exe payload refl v (s.written refl) (λ n a.
        elim (Bool-cases (n == tmp)) [
          | inl u ↦ elim clean [
            | inl k ↦ rw ((eq_iff n tmp).0 u) (inl (k ∙ sym (fresh.temp tmp t)))
            | inr (h, _) ↦ absurd (h refl)
          ]
          | inr u ↦ through n d after i (s.others n a (ground (arith, eq_iff n tmp)))
        ])

  replaced-Ends :
      (rel : String × Source) (exe payload : String) (d : Files)
      → Near w dir d
      → Verified w opts rel exe payload
      → Ends w opts dir (replaced rel.0 exe (replace_binary w.calls exe payload d))
  unfolding replaced replace_binary replace_temp
  replaced-Ends rel exe payload d i v = elim (Option-cases w.calls.temp) [
    | inl t ↦ simp t (failing d (not_replaced temp_failed) i)
    | inr (tmp, t) ↦ settled rel exe tmp payload d i v t (replace_binary w.calls exe payload d) (
        replace_binary-ReplacedBinary w.calls exe tmp payload d (apart rel exe tmp payload d i v t)
          (gone rel exe tmp payload d i v t) t)
  ]

  module _ (rel : String × Source) (exe : String) (d : Files) (i : Near w dir d)
      (c : Chosen w opts rel exe) where
    install_checked-Ends :
        (payload sums : String) (o : Option String)
        → w.http_get (release_url w rel (binary_name w rel.0)) ≡ some payload
        → w.http_get (release_url w rel "SHA256SUMS") ≡ some sums
        → expected_sum w sums (binary_name w rel.0) ≡ o
        → Ends w opts dir (install_checked w rel exe d payload o)
    unfolding install_checked
    install_checked-Ends payload sums none p q h = failing d no_entry i
    install_checked-Ends payload sums (some want) p q h =
        elim (Bool-cases (w.sha256 payload == want)) [
          | inr e ↦ simp e (failing d mismatch i)
          | inl e ↦
              let found = first_sum-Listed w (binary_name w rel.0) want (w.lines sums) h in
              simp e (
                replaced-Ends rel exe payload d i (record {
                  chosen = c;
                  fetched = p;
                  sums = sums;
                  fetched_sums = q;
                  checked = rw (← (eq_iff (w.sha256 payload) want).0 e) at found;
                }))
        ]

    with_sums-Ends :
        (payload : String) (o : Option String)
        → w.http_get (release_url w rel (binary_name w rel.0)) ≡ some payload
        → w.http_get (release_url w rel "SHA256SUMS") ≡ o
        → Ends w opts dir (with_sums w rel exe d payload o)
    unfolding with_sums
    with_sums-Ends payload none p q = failing d no_sums i
    with_sums-Ends payload (some sums) p q =
        install_checked-Ends payload sums (expected_sum w sums (binary_name w rel.0)) p q refl

    with_binary-Ends :
        (o : Option String)
        → w.http_get (release_url w rel (binary_name w rel.0)) ≡ o
        → Ends w opts dir (with_binary w rel exe d o)
    unfolding with_binary
    with_binary-Ends none p = failing d no_binary i
    with_binary-Ends (some payload) p =
        with_sums-Ends payload (w.http_get (release_url w rel "SHA256SUMS")) p refl

    pub download-Ends : Ends w opts dir (download w rel exe d)
    unfolding download
    download-Ends = with_binary-Ends (w.http_get (release_url w rel (binary_name w rel.0))) refl
