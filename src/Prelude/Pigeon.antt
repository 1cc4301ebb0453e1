-- ===== src/Prelude/Pigeon.antt =====
-- Counting distinct strings.
use Prim.Native.Nat.{suc, ◌+◌, ◌≤◌}
use Prim.Native.String.{String}
use mathlib.Core.Path.{◌≡◌, refl}
use mathlib.Core.Logic.{◌≢◌, inl, inr}
use mathlib.Core.List.{List, [], ◌∷◌, ◌++◌}
use native.Mathlib.Omega.{arith}
use text.Mathlib.Text.{◌==◌}
use text.Mathlib.TextEquality.{eq_iff}
use quptime.Prelude.Tests.{if◌then◌else◌}
use quptime.Prelude.Lists.{length, length-append, In, In-append, Distinct}

-- `ys` with the first `x` left out
without : String → List String → List String
without x [] = []
without x (y ∷ ys) = if y == x then ys else y ∷ without x ys

length-without : (x : String) (ys : List String) → In x ys → suc (length (without x ys)) ≡ length ys
unfolding without
length-without x [] h = absurd h
length-without x (y ∷ ys) h = ground (arith, eq_iff y x, length-without x ys)

In-without : (x a : String) (ys : List String) → a ≢ x → In a ys → In a (without x ys)
unfolding without
In-without x a [] n h = h
In-without x a (y ∷ ys) n h = ground (arith, eq_iff y x, In-without x a ys n)

abbrev pub Subset : List String → List String → Type 0
Subset xs ys = (a : String) → In a xs → In a ys

pub length-le_of_subset : (xs ys : List String) → Distinct xs → Subset xs ys → length xs ≤ length ys
length-le_of_subset [] ys d s = omega arith
length-le_of_subset (x ∷ xs) ys d s = omega (
  arith,
  length-without x ys (s x (inl refl)),
  length-le_of_subset xs (without x ys) d.1
      (λ a m. In-without x a ys (λ e. d.0 (rw e at m)) (s a (inr m))),
)

abbrev pub Disjoint : List String → List String → Type 0
Disjoint xs ys = (a : String) → In a xs → ¬ In a ys

Distinct-append :
    (xs ys : List String) → Distinct xs → Distinct ys → Disjoint xs ys → Distinct (xs ++ ys)
Distinct-append [] ys d e s = e
Distinct-append (x ∷ xs) ys d e s = (
  λ m. elim (In-append x xs ys m) [ inl h ↦ d.0 h | inr h ↦ s x (inl refl) h ],
  Distinct-append xs ys d.1 e (λ a m. s a (inr m)),
)

-- Two disjoint lists of distinct members of a third are together no longer than it.
pub length-Disjoint_le :
    (xs ys zs : List String)
    → Distinct xs
    → Distinct ys
    → Disjoint xs ys
    → Subset xs zs
    → Subset ys zs
    → length xs + length ys ≤ length zs
length-Disjoint_le xs ys zs d e s p q = omega (
  arith,
  length-append xs ys,
  length-le_of_subset (xs ++ ys) zs (Distinct-append xs ys d e s)
      (λ a m. elim (In-append a xs ys m) [ inl h ↦ p a h | inr h ↦ q a h ]),
)
