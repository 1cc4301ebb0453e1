-- ===== src/Prelude/Assoc.antt =====
-- Go maps with string keys, as association lists. The order of the list is one order in which Go
-- may range over the map.
use Prim.Native.String.{String}
use mathlib.Core.Path.{◌≡◌, refl}
use mathlib.Core.Option.{Option, none, some}
use mathlib.Core.List.{List, [], ◌∷◌, map}
use native.Mathlib.Omega.{arith}
use text.Mathlib.Text.{◌==◌}
use text.Mathlib.TextEquality.{eq_iff}
use text.Mathlib.TextPositions.{eq_refl}
use mathlib.Core.Logic.{◌⊎◌, ◌≢◌}
use quptime.Prelude.Tests.{if◌then◌else◌}
use quptime.Prelude.Lists.{In, Distinct}

module _ {ℓ} {V : Type ℓ} where
  abbrev pub keys : List (String × V) → List String
  keys = map (λ e. e.0)

  -- v, ok := m[key]
  unfoldable pub lookup : String → List (String × V) → Option V
  lookup key [] = none
  lookup key ((name, item) ∷ rest) =
      let later = lookup key rest in if name == key then some item else later

  -- m[key] = item
  unfoldable pub insert : String → V → List (String × V) → List (String × V)
  insert key item [] = (key, item) ∷ []
  insert key item ((name, old) ∷ rest) =
      let later = insert key item rest in
      if name == key then (key, item) ∷ rest else (name, old) ∷ later

  -- delete(m, key)
  unfoldable pub remove : String → List (String × V) → List (String × V)
  remove key [] = []
  remove key ((name, item) ∷ rest) =
      let later = remove key rest in if name == key then later else (name, item) ∷ later

  pub lookup-insert :
      (key other : String) (item : V) (rest : List (String × V))
      → lookup other (insert key item rest)
        ≡ (if key == other then some item else lookup other rest)
  unfolding lookup insert
  lookup-insert key other item [] = refl
  lookup-insert key other item ((name, old) ∷ rest) = ground (
    arith,
    lookup-insert key other item rest,
    eq_iff name key,
    eq_iff name other,
    eq_iff key other,
  )

  pub lookup-remove :
      (k j : String) (m : List (String × V))
      → lookup j (remove k m) ≡ (if k == j then none else lookup j m)
  unfolding lookup remove
  lookup-remove k j [] = ground arith
  lookup-remove k j ((i, v) ∷ m) =
      ground (arith, eq_iff k j, eq_iff i k, eq_iff i j, lookup-remove k j m)

  pub lookup-insert_self :
      (k : String) (v : V) (m : List (String × V)) → lookup k (insert k v m) ≡ some v
  lookup-insert_self k v m = simp (lookup-insert, eq_refl)

  pub In-keys-insert :
      (k a : String) (v : V) (m : List (String × V))
      → In a (keys (insert k v m))
      → (a ≡ k) ⊎ In a (keys m)
  unfolding insert
  In-keys-insert k a v [] h = h
  In-keys-insert k a v ((j, w) ∷ m) h = ground (arith, eq_iff j k, In-keys-insert k a v m)

  pub Distinct-keys-insert :
      (k : String) (v : V) (m : List (String × V))
      → Distinct (keys m)
      → Distinct (keys (insert k v m))
  unfolding insert
  Distinct-keys-insert k v [] d = (λ h. h, tt)
  Distinct-keys-insert k v ((j, w) ∷ m) d =
      ground (arith, eq_iff j k, Distinct-keys-insert k v m d.1, In-keys-insert k j v m)

  pub lookup-In-keys :
      (k : String) (v : V) (m : List (String × V)) → lookup k m ≡ some v → In k (keys m)
  unfolding lookup
  lookup-In-keys k v [] h = cc
  lookup-In-keys k v ((j, w) ∷ m) h = ground (arith, eq_iff j k, lookup-In-keys k v m)

  pub In-keys-lookup : (k : String) (m : List (String × V)) → In k (keys m) → lookup k m ≢ none
  unfolding lookup
  In-keys-lookup k [] h = λ e. absurd h
  In-keys-lookup k ((j, w) ∷ m) h = λ e. ground (arith, eq_iff j k, In-keys-lookup k m)

  pub In-keys-remove :
      (id a : String) (list : List (String × V)) → In a (keys (remove id list)) → In a (keys list)
  unfolding remove
  In-keys-remove id a [] h = h
  In-keys-remove id a ((k, x) ∷ rest) h = ground (arith, In-keys-remove id a rest)

  pub Distinct-keys-remove :
      (id : String) (list : List (String × V))
      → Distinct (keys list)
      → Distinct (keys (remove id list))
  unfolding remove
  Distinct-keys-remove id [] d = d
  Distinct-keys-remove id ((k, x) ∷ rest) (d, ds) =
      ground (arith, Distinct-keys-remove id rest ds, In-keys-remove id k rest)

  pub remove-absent : (k : String) (m : List (String × V)) → ¬ In k (keys m) → remove k m ≡ m
  unfolding remove
  remove-absent k [] n = refl
  remove-absent k ((j, w) ∷ m) n = ground (arith, eq_iff j k, remove-absent k m)

  pub lookup-absent : (k : String) (m : List (String × V)) → ¬ In k (keys m) → lookup k m ≡ none
  unfolding lookup
  lookup-absent k [] n = refl
  lookup-absent k ((j, w) ∷ m) n = ground (arith, eq_iff j k, lookup-absent k m)
