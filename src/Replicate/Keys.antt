-- ===== src/Replicate/Keys.antt =====
-- The loops of internal/replicate/replicator.go that replace, append or drop an element by its key.
use quptime.Prelude.{
  String, Bool, List, [], ◌∷◌, ◌≡◌, refl, ◌⊎◌, inl, ◌==◌, eq_iff, arith, In, Distinct, map,
}
use quptime.Replicate.Mutation.{upsert, delete_first, update_first}

module _ {A : Type 0} (key : A → String) where
  In-key-upsert :
      (p : A → Bool) (a : A) (xs : List A) (k : String)
      → In k (map key (upsert p a xs))
      → (k ≡ key a) ⊎ In k (map key xs)
  unfolding upsert
  In-key-upsert p a [] k h = h
  In-key-upsert p a (x ∷ xs) k h = ground (arith, In-key-upsert p a xs k)

  pub Distinct-key-upsert :
      (a : A) (xs : List A)
      → Distinct (map key xs)
      → Distinct (map key (upsert (λ x. key x == key a) a xs))
  unfolding upsert
  Distinct-key-upsert a [] d = (λ h. h, tt)
  Distinct-key-upsert a (x ∷ xs) d = ground (
    arith,
    eq_iff (key x) (key a),
    Distinct-key-upsert a xs d.1,
    In-key-upsert (λ y. key y == key a) a xs (key x),
  )

  In-key-delete_first :
      (p : A → Bool) (xs : List A) (k : String)
      → In k (map key (delete_first p xs))
      → In k (map key xs)
  unfolding delete_first
  In-key-delete_first p [] k h = h
  In-key-delete_first p (x ∷ xs) k h = ground (arith, In-key-delete_first p xs k)

  pub Distinct-key-delete_first :
      (p : A → Bool) (xs : List A) → Distinct (map key xs) → Distinct (map key (delete_first p xs))
  unfolding delete_first
  Distinct-key-delete_first p [] d = tt
  Distinct-key-delete_first p (x ∷ xs) d =
      ground (arith, Distinct-key-delete_first p xs d.1, In-key-delete_first p xs (key x))

  -- the deleted key is gone, if it stood once
  pub delete_first-gone :
      (k : String) (xs : List A)
      → Distinct (map key xs)
      → ¬ In k (map key (delete_first (λ x. key x == k) xs))
  unfolding delete_first
  delete_first-gone k [] d = λ h. h
  delete_first-gone k (x ∷ xs) d = λ h. ground (arith, eq_iff (key x) k, delete_first-gone k xs d.1)

  -- a change that keeps the keys
  pub key-update_first :
      (p : A → Bool) (f : A → A) (xs : List A)
      → ((x : A) → key (f x) ≡ key x)
      → map key (update_first p f xs) ≡ map key xs
  unfolding update_first
  key-update_first p f [] h = refl
  key-update_first p f (x ∷ xs) h = ground (arith, h x, key-update_first p f xs h)

module _ {A : Type 0} where
  -- an upserted element is there
  pub upsert-In : (p : A → Bool) (a : A) (xs : List A) → In a (upsert p a xs)
  unfolding upsert
  upsert-In p a [] = inl refl
  upsert-In p a (x ∷ xs) = ground (arith, upsert-In p a xs)
