-- ===== src/Prelude/Sort.antt =====
-- sort.Strings: the sorted list of some strings, and what it holds.
use Prim.Native.Nat.{suc}
use Prim.Native.String.{String}
use mathlib.Core.Path.{◌≡◌, refl, ap, ◌∙◌}
use mathlib.Core.Logic.{◌⊎◌, inl, inr}
use mathlib.Core.Bool.{true}
use mathlib.Core.List.{List, [], ◌∷◌}
use native.Mathlib.Omega.{arith}
use quptime.Prelude.Tests.{if◌then◌else◌, Bool-cases}
use quptime.Prelude.Lists.{length, All, In, Distinct}
use quptime.Prelude.Order.{str_leb, str_leb_trans, str_leb_total}

abbrev pub AtMost : String → String → Type 0
AtMost a b = str_leb a b ≡ true

abbrev pub IsSorted : List String → Type 0
IsSorted [] = Unit
IsSorted (x ∷ xs) = All (AtMost x) xs × IsSorted xs

insert_sorted : String → List String → List String
insert_sorted s [] = s ∷ []
insert_sorted s (x ∷ xs) =
    let rest = insert_sorted s xs in if str_leb s x then s ∷ x ∷ xs else x ∷ rest

unfoldable pub sort_strings : List String → List String
unfolding insert_sorted
sort_strings [] = []
sort_strings (x ∷ xs) = insert_sorted x (sort_strings xs)

All-AtMost_trans :
    (a b : String) (xs : List String) → AtMost a b → All (AtMost b) xs → All (AtMost a) xs
All-AtMost_trans a b [] h k = tt
All-AtMost_trans a b (x ∷ xs) h k = (str_leb_trans a b x h k.0, All-AtMost_trans a b xs h k.1)

All-insert_sorted :
    (a s : String) (xs : List String)
    → AtMost a s
    → All (AtMost a) xs
    → All (AtMost a) (insert_sorted s xs)
unfolding insert_sorted
All-insert_sorted a s [] h k = (h, tt)
All-insert_sorted a s (x ∷ xs) h k = ground (arith, All-insert_sorted a s xs h k.1)

insert_sorted-IsSorted :
    (s : String) (xs : List String) → IsSorted xs → IsSorted (insert_sorted s xs)
unfolding insert_sorted
insert_sorted-IsSorted s [] h = (tt, tt)
insert_sorted-IsSorted s (x ∷ xs) h = elim (Bool-cases (str_leb s x)) [
  | inl e ↦ rw e ((e, All-AtMost_trans s x xs e h.0), h)
  | inr e ↦
      rw e (All-insert_sorted x s xs (str_leb_total s x e) h.0, insert_sorted-IsSorted s xs h.1)
]

pub sort_strings-IsSorted : (xs : List String) → IsSorted (sort_strings xs)
unfolding sort_strings
sort_strings-IsSorted [] = tt
sort_strings-IsSorted (x ∷ xs) =
    insert_sorted-IsSorted x (sort_strings xs) (sort_strings-IsSorted xs)

In-insert_sorted : (a s : String) (xs : List String) → In a (insert_sorted s xs) → (a ≡ s) ⊎ In a xs
unfolding insert_sorted
In-insert_sorted a s [] h = h
In-insert_sorted a s (x ∷ xs) h = ground (arith, In-insert_sorted a s xs)

insert_sorted-In : (a s : String) (xs : List String) → (a ≡ s) ⊎ In a xs → In a (insert_sorted s xs)
unfolding insert_sorted
insert_sorted-In a s [] h = h
insert_sorted-In a s (x ∷ xs) h = ground (arith, insert_sorted-In a s xs)

pub In-sort_strings : (a : String) (xs : List String) → In a (sort_strings xs) → In a xs
unfolding sort_strings
In-sort_strings a [] h = h
In-sort_strings a (x ∷ xs) h =
    ground (arith, In-insert_sorted a x (sort_strings xs) h, In-sort_strings a xs)

pub sort_strings-In : (a : String) (xs : List String) → In a xs → In a (sort_strings xs)
unfolding sort_strings
sort_strings-In a [] h = h
sort_strings-In a (x ∷ xs) h =
    ground (arith, insert_sorted-In a x (sort_strings xs), sort_strings-In a xs)

length-insert_sorted :
    (s : String) (xs : List String) → length (insert_sorted s xs) ≡ suc (length xs)
unfolding insert_sorted
length-insert_sorted s [] = refl
length-insert_sorted s (x ∷ xs) = ground (arith, length-insert_sorted s xs)

pub length-sort_strings : (xs : List String) → length (sort_strings xs) ≡ length xs
unfolding sort_strings
length-sort_strings [] = refl
length-sort_strings (x ∷ xs) =
    length-insert_sorted x (sort_strings xs) ∙ ap suc (length-sort_strings xs)

Distinct-insert_sorted :
    (s : String) (xs : List String) → ¬ In s xs → Distinct xs → Distinct (insert_sorted s xs)
unfolding insert_sorted
Distinct-insert_sorted s [] h d = (h, tt)
Distinct-insert_sorted s (x ∷ xs) h d = elim (Bool-cases (str_leb s x)) [
  | inl e ↦ rw e (h, d)
  | inr e ↦ rw e (
    λ m. ground (arith, In-insert_sorted x s xs m),
    Distinct-insert_sorted s xs (λ m. h (inr m)) d.1,
  )
]

pub sort_strings-Distinct : (xs : List String) → Distinct xs → Distinct (sort_strings xs)
unfolding sort_strings
sort_strings-Distinct [] d = tt
sort_strings-Distinct (x ∷ xs) d =
    Distinct-insert_sorted x (sort_strings xs) (λ m. d.0 (In-sort_strings x xs m))
      (sort_strings-Distinct xs d.1)

-- The head of a sorted list is at most every element.
pub head_least : (x a : String) (xs : List String) → IsSorted (x ∷ xs) → In a xs → AtMost x a
head_least x a [] h m = absurd m
head_least x a (y ∷ ys) h m = elim m [
  | inl e ↦ rw e h.0.0
  | inr r ↦ head_least x a ys (h.0.1, h.1.1) r
]
