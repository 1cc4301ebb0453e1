-- ===== src/Cli/Update/Replacing.antt =====
-- `replaceBinary` of internal/cli/update.go: all or nothing.
use quptime.Prelude.{
  String, Option, none, some, ◌≡◌, ◌≢◌, refl, ◌⊎◌, false, inl, inr, ◌∙◌, arith, Bool-cases, lookup,
  lookup-insert_self,
}
use quptime.Config.Paths.{
  File, Files, FileError, Syscalls, put, cleaned, rename_to, temp_mode, write_failed, sync_failed,
  close_failed, chmod_failed, rename_failed,
}
use quptime.Config.Paths.Swap.{
  Staged, Staged-put, Swapped, removed_back, aborted-Swapped, renamed-Swapped,
}
use quptime.Cli.Update.{replace_binary, replace_temp}

-- The new binary is there and executable, and without an error only.
abbrev pub binary : String → File
binary payload = record { content = payload; mode = 0x1ed }

module _ (o : Syscalls) (exe tmp payload : String) (dir : Files) (apart : tmp ≢ exe)
    (fresh : lookup tmp dir ≡ none) where
  -- all or nothing, and without a trace, unless the temporary file could not be removed
  abbrev pub ReplacedBinary : Files × Option FileError → Type 0
  ReplacedBinary r =
      Swapped o exe tmp (binary payload) dir r
      × ((lookup tmp r.0 ≡ none) ⊎ ((r.1 ≢ none) × (o.remove ≡ false)))

  aborted-ReplacedBinary :
      (x : Files) (e : FileError)
      → Staged tmp dir x
      → ReplacedBinary (cleaned o.remove tmp x, some e)
  aborted-ReplacedBinary x e s = (
    aborted-Swapped o exe tmp (binary payload) dir apart fresh x e s,
    elim (Bool-cases o.remove) [
      | inl c ↦ simp c (inl (removed_back tmp dir x fresh s tmp ∙ fresh))
      | inr c ↦ inr ((λ h. cc), c)
    ],
  )

  renamed-ReplacedBinary :
      (x : Files)
      → Staged tmp dir x
      → lookup tmp x ≡ some (binary payload)
      → ReplacedBinary (rename_to tmp exe x, none)
  renamed-ReplacedBinary x s h =
      let swapped = renamed-Swapped o exe tmp (binary payload) dir apart fresh x s h in
      (
        swapped,
        elim swapped.temp [
          | inl e ↦ inl e
          | inr (inl e) ↦ absurd (ground arith)
          | inr (inr e) ↦ inr e
        ],
      )

  -- Where the temporary file has a fresh name, `replaceBinary` without an error leaves the path with
  -- the new binary, executable; with an error, whichever call fails, the path keeps the old one; no
  -- other file changes, and the temporary file is gone, unless there is an error and it could not be
  -- removed.
  pub replace_binary-ReplacedBinary :
      o.temp ≡ some tmp → ReplacedBinary (replace_binary o exe payload dir)
  unfolding replace_binary replace_temp
  replace_binary-ReplacedBinary t =
      let created = put tmp "" temp_mode dir in
      let written = put tmp payload temp_mode created in
      let moded = put tmp payload 0x1ed written in
      let staged_created = Staged-put tmp dir _ dir (λ n d. refl) in
      let staged_written = Staged-put tmp dir _ created staged_created in
      let staged_moded = Staged-put tmp dir _ written staged_written in
      elim (Bool-cases o.write) [
        | inr w ↦
            simp (t, w)
              (aborted-ReplacedBinary (put tmp o.partial temp_mode created) write_failed
                (Staged-put tmp dir _ created staged_created))
        | inl w ↦ elim (Bool-cases o.sync) [
          | inr k ↦ simp (t, w, k) (aborted-ReplacedBinary written sync_failed staged_written)
          | inl k ↦ elim (Bool-cases o.close) [
            | inr l ↦ simp (t, w, k, l) (aborted-ReplacedBinary written close_failed staged_written)
            | inl l ↦ elim (Bool-cases o.chmod) [
              | inr m ↦
                  simp (t, w, k, l, m) (aborted-ReplacedBinary written chmod_failed staged_written)
              | inl m ↦ elim (Bool-cases o.rename) [
                | inr r ↦
                    simp (t, w, k, l, m, r)
                      (aborted-ReplacedBinary moded rename_failed staged_moded)
                | inl r ↦
                    simp (t, w, k, l, m, r)
                      (renamed-ReplacedBinary moded staged_moded
                        (lookup-insert_self tmp (binary payload) written))
              ]
            ]
          ]
        ]
      ]
