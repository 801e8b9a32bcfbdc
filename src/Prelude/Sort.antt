-- ===== src/Prelude/Sort.antt =====
-- The stable `sort_by` of a list by a byte string of each element.
use file_local.Prelude.{
  ℕ, ◌≡◌, refl, ◌∙◌, Bool, true, List, [], ◌∷◌, arith, if◌then◌else◌, keep, any, ◌||◌, Bool-cases,
  inl, inr,
}
use file_local.Prelude.Order.{cmp_bytes, cmp_bytes-IsOrder as O, is_le}

module _ {A : Type 0} (key : A → List ℕ) where
  unfoldable pub insert_by : A → List A → List A
  insert_by x [] = x ∷ []
  insert_by x (y ∷ ys) =
      let rest = insert_by x ys in
      if is_le (cmp_bytes (key x) (key y)) then x ∷ y ∷ ys else y ∷ rest

  unfoldable pub sort_by : List A → List A
  unfolding insert_by
  sort_by [] = []
  sort_by (x ∷ xs) = insert_by x (sort_by xs)

  any-insert_by : (f : A → Bool) (x : A) (xs : List A) → any f (insert_by x xs) ≡ (f x || any f xs)
  unfolding insert_by
  any-insert_by f x [] = refl
  any-insert_by f x (y ∷ ys) = ground (arith, any-insert_by f x ys)

  pub any-sort_by : (f : A → Bool) (xs : List A) → any f (sort_by xs) ≡ any f xs
  unfolding sort_by
  any-sort_by f [] = refl
  any-sort_by f (x ∷ xs) = ground (arith, any-insert_by f x (sort_by xs), any-sort_by f xs)

  -- The elements with a key keep their order.
  keep-insert_by :
      (f : A → Bool) (k : List ℕ) (x : A) (xs : List A)
      → ((y : A) → f y ≡ true → key y ≡ k)
      → keep f (insert_by x xs) ≡ keep f (x ∷ xs)
  unfolding insert_by keep
  keep-insert_by f k x [] h = refl
  keep-insert_by f k x (y ∷ ys) h = elim (Bool-cases (is_le (cmp_bytes (key x) (key y)))) [
    | inl e ↦ rw (e, insert_by) refl
    | inr e ↦ ground (arith, keep-insert_by f k x ys h, h x, h y, O.cmp_self k)
  ]

  pub keep-sort_by :
      (f : A → Bool) (k : List ℕ) (xs : List A)
      → ((y : A) → f y ≡ true → key y ≡ k)
      → keep f (sort_by xs) ≡ keep f xs
  unfolding sort_by keep
  keep-sort_by f k [] h = refl
  keep-sort_by f k (x ∷ xs) h =
      keep-insert_by f k x (sort_by xs) h ∙ ground (arith, keep-sort_by f k xs h)
