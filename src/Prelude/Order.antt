-- ===== src/Prelude/Order.antt =====
-- The order of Go strings, character by character. (The order of code points is the order of the
-- UTF-8 bytes.)
use Prim.Native.Nat.{compare, Ordering}
use Prim.Native.Char.{code}
use Prim.Native.String.{String}
use mathlib.Core.Path.{◌≡◌, refl}
use mathlib.Core.Bool.{Bool, true, false}
use native.Mathlib.Omega.{arith}
use mathlib.Core.Logic.{◌≢◌}
use text.Mathlib.Text.{◌==◌}
use text.Mathlib.TextEquality.{Char-path, eq_iff}

unfoldable pub str_leb : String → String → Bool
str_leb String.[] t = true
str_leb (String.◌∷◌ c s) String.[] = false
str_leb (String.◌∷◌ c s) (String.◌∷◌ d t) = elim (compare (code c) (code d)) [
  | Ordering.lt ↦ true
  | Ordering.eq ↦ str_leb s t
  | Ordering.gt ↦ false
]

pub str_leb_refl : (s : String) → str_leb s s ≡ true
unfolding str_leb
str_leb_refl String.[] = refl
str_leb_refl (String.◌∷◌ c s) = ground (arith, str_leb_refl s)

pub str_leb_trans : (s t u : String) → str_leb s t ≡ true → str_leb t u ≡ true → str_leb s u ≡ true
unfolding str_leb
str_leb_trans String.[] t u h k = refl
str_leb_trans (String.◌∷◌ c s) String.[] u h k = ground arith
str_leb_trans (String.◌∷◌ c s) (String.◌∷◌ d t) String.[] h k = ground arith
str_leb_trans (String.◌∷◌ c s) (String.◌∷◌ d t) (String.◌∷◌ e u) h k =
    ground (arith, str_leb_trans s t u)

pub str_leb_total : (s t : String) → str_leb s t ≡ false → str_leb t s ≡ true
unfolding str_leb
str_leb_total String.[] t h = ground arith
str_leb_total (String.◌∷◌ c s) String.[] h = refl
str_leb_total (String.◌∷◌ c s) (String.◌∷◌ d t) h = ground (arith, str_leb_total s t)

pub str_leb_antisym : (s t : String) → str_leb s t ≡ true → str_leb t s ≡ true → s ≡ t
unfolding str_leb
str_leb_antisym String.[] String.[] h k = refl
str_leb_antisym String.[] (String.◌∷◌ d t) h k = ground arith
str_leb_antisym (String.◌∷◌ c s) String.[] h k = ground arith
str_leb_antisym (String.◌∷◌ c s) (String.◌∷◌ d t) h k =
    ground (arith, str_leb_antisym s t, Char-path c d)

-- Strings that the test tells apart are different.
pub differ : (a b : String) → (a == b) ≡ false → a ≢ b
differ a b h e = ground (arith, eq_iff a b)
