-- ===== src/Cli/Checks/Numbers.antt =====
-- `parsePositiveInt` of internal/cli/check.go against a decimal reader without a word size.
use Prim.Native.Char.{code}
use quptime.Prelude.{
  ℕ, ◌+◌, ◌*◌, ◌-◌, ◌%◌, ◌^◌, ◌<◌, ◌≤◌, String, true, false, ◌||◌, Option, none, some, inl, inr,
  ◌≡◌, ◌≢◌, refl, ◌==◌, ltb, eq_iff, arith, Bool-cases, if◌then◌else◌,
}
use quptime.Prelude.Int.{pos}
use quptime.Cli.Checks.{scan_digits, signed, parse_positive_int}

-- the number that decimal digits name, after the digits before them
unfoldable pub decimal : String → ℕ → Option ℕ
decimal String.[] n = some n
decimal (String.◌∷◌ r s) n =
    if ltb (code r) 48 || ltb 57 (code r) then none else decimal s (n * 10 + (code r - 48))

decimal-le : (s : String) (m n : ℕ) → decimal s m ≡ some n → m ≤ n
unfolding decimal
decimal-le String.[] m n h = ground arith
decimal-le (String.◌∷◌ r s) m n h = elim (Bool-cases (ltb (code r) 48 || ltb 57 (code r))) [
  | inl e ↦ absurd (ground (arith, simp e at h))
  | inr e ↦ omega (arith, decimal-le s (m * 10 + (code r - 48)) n (simp e at h))
]

-- where no prefix reaches 2 ^ 64, nothing wraps
scan_digits-decimal :
    (s : String) (m n : ℕ) → decimal s m ≡ some n → n < 2 ^ 64 → scan_digits s m ≡ some n
unfolding decimal scan_digits
scan_digits-decimal String.[] m n h l = h
scan_digits-decimal (String.◌∷◌ r s) m n h l =
    elim (Bool-cases (ltb (code r) 48 || ltb 57 (code r))) [
      | inl e ↦ absurd (ground (arith, simp e at h))
      | inr e ↦
          let k : decimal s (m * 10 + (code r - 48)) ≡ some n = simp e at h in
          let small : (m * 10 + (code r - 48)) % 2 ^ 64 ≡ m * 10 + (code r - 48) =
            omega (arith, decimal-le s (m * 10 + (code r - 48)) n k) in
          simp (e, small) (scan_digits-decimal s (m * 10 + (code r - 48)) n k l)
    ]

-- and a text that is no number is none on both sides
scan_digits-none : (s : String) (m k : ℕ) → decimal s m ≡ none → scan_digits s k ≡ none
unfolding decimal scan_digits
scan_digits-none String.[] m k h = absurd (ground arith)
scan_digits-none (String.◌∷◌ r s) m k h = elim (Bool-cases (ltb (code r) 48 || ltb 57 (code r))) [
  | inl e ↦ simp e refl
  | inr e ↦ simp e (
      scan_digits-none s (m * 10 + (code r - 48)) ((k * 10 + (code r - 48)) % 2 ^ 64) (simp e at h))
]

-- `parsePositiveInt` of a text that is not blank reads the number that its digits name, if that is
-- below 2 ^ 63, and fails on any text with a character that is no digit.
pub parse_positive_int-decimal :
    (trim : String → String) (s : String)
    → trim s ≢ ""
    → ((n : ℕ)
        → decimal (trim s) 0 ≡ some n
        → n < 2 ^ 63
        → parse_positive_int trim s ≡ some (pos n))
      × (decimal (trim s) 0 ≡ none → parse_positive_int trim s ≡ none)
unfolding parse_positive_int signed
parse_positive_int-decimal trim s full =
    let blank : (trim s == "") ≡ false = ground (arith, eq_iff (trim s) "", full) in
    (
      λ n h l.
          let read = scan_digits-decimal (trim s) 0 n h (omega arith) in
          let whole : n % 2 ^ 64 ≡ n = omega arith in
          let below : ltb n (2 ^ 63) ≡ true = ground arith in simp (blank, read, whole, below) refl,
      λ h. let read = scan_digits-none (trim s) 0 0 h in simp (blank, read) refl,
    )
