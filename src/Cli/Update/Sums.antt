-- ===== src/Cli/Update/Sums.antt =====
-- What `expectedSum` of internal/cli/update.go finds.
use quptime.Prelude.{
  String, some, List, [], ◌∷◌, ◌≡◌, refl, ◌∙◌, inl, inr, ◌==◌, eq_iff, arith, Bool-cases,
  Option-cases, In,
}
use quptime.Cli.Update.{UpdateWorld, first_sum, sum_of_line, sum_for, or_later}

-- A line of the checksum file that names the binary with this checksum.
pub record Listed (w : UpdateWorld) (name want : String) (lines : List String) : Type 0 where
  pub line : String
  pub listed : In line lines
  pub sum : String
  pub file : String
  pub fields : w.fields (w.trim_space line) ≡ sum ∷ file ∷ []
  pub named : w.trim_prefix file "*" ≡ name
  pub lower : want ≡ w.to_lower sum

sum_for-Listed :
    (w : UpdateWorld) (name want : String) (fields : List String)
    → sum_for w name fields ≡ some want
    → (sum : String) × (file : String) × (fields ≡ sum ∷ file ∷ [])
      × (w.trim_prefix file "*" ≡ name)
      × (want ≡ w.to_lower sum)
unfolding sum_for
sum_for-Listed w name want [] h = absurd (ground arith)
sum_for-Listed w name want (a ∷ []) h = absurd (ground arith)
sum_for-Listed w name want (a ∷ b ∷ c ∷ rest) h = absurd (ground arith)
sum_for-Listed w name want (sum ∷ file ∷ []) h =
    elim (Bool-cases (w.trim_prefix file "*" == name)) [
      | inl e ↦
          let q : some (w.to_lower sum) ≡ some want = simp e at h in
          (sum, file, refl, (eq_iff (w.trim_prefix file "*") name).0 e, cc)
      | inr e ↦ absurd (ground (arith, simp e at h))
    ]

sum_of_line-Listed :
    (w : UpdateWorld) (name want line : String)
    → sum_of_line w name line ≡ some want
    → Listed w name want (line ∷ [])
unfolding sum_of_line
sum_of_line-Listed w name want line h = elim (Bool-cases (w.trim_space line == "")) [
  | inl e ↦ absurd (ground (arith, simp e at h))
  | inr e ↦
      let (sum, file, f, n, l) =
        sum_for-Listed w name want (w.fields (w.trim_space line)) (simp e at h) in
      record {
        line = line;
        listed = inl refl;
        sum = sum;
        file = file;
        fields = f;
        named = n;
        lower = l;
      }
]

-- a checksum that is found is listed
pub first_sum-Listed :
    (w : UpdateWorld) (name want : String) (lines : List String)
    → first_sum w name lines ≡ some want
    → Listed w name want lines
unfolding first_sum or_later
first_sum-Listed w name want [] h = absurd (ground arith)
first_sum-Listed w name want (line ∷ rest) h = elim (Option-cases (sum_of_line w name line)) [
  | inl e ↦
      let l = first_sum-Listed w name want rest (simp e at h) in
      record {
        line = l.line;
        listed = inr l.listed;
        sum = l.sum;
        file = l.file;
        fields = l.fields;
        named = l.named;
        lower = l.lower;
      }
  | inr (found, e) ↦
      let q : some found ≡ some want = simp e at h in
      let l = sum_of_line-Listed w name found line e in
      record {
        line = line;
        listed = inl refl;
        sum = l.sum;
        file = l.file;
        fields = elim l.listed [ inl k ↦ rw k at l.fields | inr n ↦ absurd n ];
        named = l.named;
        lower = (let k : want ≡ found = cc in k ∙ l.lower);
      }
]
