-- ===== src/Config/Paths/Swap.antt =====
-- `AtomicWrite` of internal/config/paths.go: all or nothing.
use quptime.Prelude.{
  ℕ, String, false, Option, none, some, ◌≡◌, ◌≢◌, refl, sym, ◌∙◌, ◌⊎◌, inl, inr, ◌==◌, eq_iff,
  eq_refl, arith, Bool-cases, if◌then◌else◌, lookup, insert, remove, lookup-insert, lookup-remove,
  lookup-insert_self,
}
use quptime.Config.Paths.{
  File, Files, FileError, Syscalls, put, cleaned, rename_to, moved, write_temp, atomic_write,
  temp_mode, write_failed, chmod_failed, close_failed, rename_failed, empty_path, mkdir_failed,
}

-- Only the file of this name differs.
abbrev pub Staged : String → Files → Files → Type 0
Staged tmp dir after = (n : String) → n ≢ tmp → lookup n after ≡ lookup n dir

off : (a b : String) → a ≢ b → (b == a) ≡ false
off a b n = ground (arith, eq_iff b a, n)

module _ (tmp : String) (dir : Files) where
  pub Staged-put : (f : File) (x : Files) → Staged tmp dir x → Staged tmp dir (insert tmp f x)
  Staged-put f x s n d = lookup-insert tmp n f x ∙ rw (off n tmp d) (s n d)

  -- the file of this name removed, everything is as before, if there was none
  pub removed_back :
      (x : Files)
      → lookup tmp dir ≡ none
      → Staged tmp dir x
      → (n : String) → lookup n (remove tmp x) ≡ lookup n dir
  removed_back x fresh s n = elim (Bool-cases (tmp == n)) [
    | inl e ↦
        let same : tmp ≡ n = (eq_iff tmp n).0 e in
        lookup-remove tmp n x ∙ rw e (sym (rw same at fresh))
    | inr e ↦ lookup-remove tmp n x ∙ rw e (s n (λ q. ground (arith, eq_iff tmp n, q, e)))
  ]

  pub lookup-rename_to :
      (path : String) (f : File) (x : Files)
      → lookup tmp x ≡ some f
      → (n : String)
      → lookup n (rename_to tmp path x)
        ≡ (if path == n then some f else if tmp == n then none else lookup n x)
  unfolding rename_to moved
  lookup-rename_to path f x h n =
      rw h (lookup-insert path n f (remove tmp x) ∙ rw (lookup-remove tmp n x) refl)

-- How a write through a temporary file ends: without an error the path has the new file; with one it
-- has what it had. No other file changes, and the temporary one is gone, unless there is an error and
-- the rename failed or the file could not be removed.
pub record Swapped (o : Syscalls) (path tmp : String) (f : File) (dir : Files)
    (r : Files × Option FileError) : Type 0 where
  pub written : r.1 ≡ none → lookup path r.0 ≡ some f
  pub kept : r.1 ≢ none → lookup path r.0 ≡ lookup path dir
  pub others : (n : String) → n ≢ path → n ≢ tmp → lookup n r.0 ≡ lookup n dir
  pub temp :
      (lookup tmp r.0 ≡ none) ⊎ (r.1 ≡ some rename_failed) ⊎ ((r.1 ≢ none) × (o.remove ≡ false))

module _ (o : Syscalls) (path tmp : String) (f : File) (dir : Files) (apart : tmp ≢ path)
    (fresh : lookup tmp dir ≡ none) where
  -- an error before the path was touched
  failed-Swapped :
      (x : Files) (e : FileError)
      → Staged tmp dir x
      → (lookup tmp x ≡ none)
        ⊎ (some e ≡ some rename_failed)
        ⊎ ((some e ≢ none) × (o.remove ≡ false))
      → Swapped o path tmp f dir (x, some e)
  failed-Swapped x e s left = record {
    written = λ h. cc;
    kept = λ h. s path (λ q. apart (sym q));
    others = λ n a b. s n b;
    temp = left;
  }

  pub aborted-Swapped :
      (x : Files) (e : FileError)
      → Staged tmp dir x
      → Swapped o path tmp f dir (cleaned o.remove tmp x, some e)
  aborted-Swapped x e s = elim (Bool-cases o.remove) [
    | inl c ↦
        let back = removed_back tmp dir x fresh s in
        simp c (failed-Swapped (remove tmp x) e (λ n d. back n) (inl (back tmp ∙ fresh)))
    | inr c ↦ simp c (failed-Swapped x e s (inr (inr ((λ h. cc), c))))
  ]

  pub left-Swapped :
      (x : Files) → Staged tmp dir x → Swapped o path tmp f dir (x, some rename_failed)
  left-Swapped x s = failed-Swapped x rename_failed s (inr (inl refl))

  pub renamed-Swapped :
      (x : Files)
      → Staged tmp dir x
      → lookup tmp x ≡ some f
      → Swapped o path tmp f dir (rename_to tmp path x, none)
  renamed-Swapped x s h =
      let at = lookup-rename_to tmp dir path f x h in
      record {
        written = λ e. at path ∙ rw (eq_refl path) refl;
        kept = λ n. absurd (n refl);
        others = λ n a b. at n ∙ rw (off n path a, off n tmp b) (s n b);
        temp = inl (at tmp ∙ rw (off tmp path apart, eq_refl tmp) refl);
      }

  -- the calls after the temporary file is there
  write_temp-Swapped : Swapped o path tmp f dir (write_temp o path f.content f.mode dir (some tmp))
  unfolding write_temp
  write_temp-Swapped =
      let created = put tmp "" temp_mode dir in
      let written = put tmp f.content temp_mode created in
      let moded = put tmp f.content f.mode written in
      let staged_created = Staged-put tmp dir _ dir (λ n d. refl) in
      let staged_written = Staged-put tmp dir _ created staged_created in
      let staged_moded = Staged-put tmp dir _ written staged_written in
      elim (Bool-cases o.write) [
        | inr w ↦ simp w (
            aborted-Swapped (put tmp o.partial temp_mode created) write_failed
              (Staged-put tmp dir _ created staged_created))
        | inl w ↦ elim (Bool-cases o.chmod) [
          | inr k ↦ simp (w, k) (aborted-Swapped written chmod_failed staged_written)
          | inl k ↦ elim (Bool-cases o.close) [
            | inr l ↦ simp (w, k, l) (aborted-Swapped moded close_failed staged_moded)
            | inl l ↦ elim (Bool-cases o.rename) [
              | inr r ↦ simp (w, k, l, r) (left-Swapped moded staged_moded)
              | inl r ↦
                  simp (w, k, l, r)
                    (renamed-Swapped moded staged_moded (lookup-insert_self tmp f written))
            ]
          ]
        ]
      ]

  not_begun-Swapped : (e : FileError) → Swapped o path tmp f dir (dir, some e)
  not_begun-Swapped e = record {
    written = λ h. cc;
    kept = λ h. refl;
    others = λ n a b. refl;
    temp = inl fresh;
  }

-- Where the temporary file has a fresh name, `AtomicWrite` without an error leaves the path with the
-- data and the mode; with an error, whichever call fails, the path keeps what it had; no other file
-- changes, and the temporary file only stays after an error, where the rename failed or the file could
-- not be removed.
pub atomic_write-Swapped :
    (o : Syscalls) (path tmp text : String) (perm : ℕ) (dir : Files)
    → o.temp ≡ some tmp
    → tmp ≢ path
    → lookup tmp dir ≡ none
    → Swapped o path tmp
        (record { content = text; mode = perm })
        dir
        (atomic_write o path text perm dir)
unfolding atomic_write
atomic_write-Swapped o path tmp text perm dir t apart fresh =
    let f : File = record { content = text; mode = perm } in
    elim (Bool-cases (path == "")) [
      | inl b ↦ simp b (not_begun-Swapped o path tmp f dir apart fresh empty_path)
      | inr b ↦ elim (Bool-cases o.mkdir) [
        | inr m ↦ simp (b, m) (not_begun-Swapped o path tmp f dir apart fresh mkdir_failed)
        | inl m ↦ simp (b, m, t) (write_temp-Swapped o path tmp f dir apart fresh)
      ]
    ]
