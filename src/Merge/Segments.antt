-- ===== src/Merge/Segments.antt =====
-- src/merge.rs: the slices `&base[i..j]` and `&side[i..j]`, as lists that are cut and put together.
use mathlib.Core.List.{append_assoc}
use file_local.Prelude.{
  ℕ, zero, suc, ◌+◌, ◌-◌, ◌≤◌, ◌≡◌, refl, sym, ◌∙◌, ap, Option, none, some, List, [], ◌∷◌, ◌++◌,
  arith, length, take, drop, get_elem?, length-drop, take-append-drop,
}
use file_local.Model.{Bytes}
use file_local.Merge.Lines.{concat}

module _ {ℓ} {A : Type ℓ} where
  abbrev pub segment : ℕ → ℕ → List A → List A
  segment i j xs = take (j - i) (drop i xs)

  take_none : (n : ℕ) → Path (List A) (take n []) []
  take_none zero = refl
  take_none (suc n) = refl

  drop_none : (n : ℕ) → Path (List A) (drop n []) []
  drop_none zero = refl
  drop_none (suc n) = refl

  take_add : (m n : ℕ) (xs : List A) → take (m + n) xs ≡ take m xs ++ take n (drop m xs)
  take_add zero n xs = let e : 0 + n ≡ n = omega arith in ap (λ k. take k xs) e
  take_add (suc m) n [] = take_none (suc m + n) ∙ sym (take_none n)
  take_add (suc m) n (x ∷ xs) =
      let e : suc m + n ≡ suc (m + n) = omega arith in
      ap (λ k. take k (x ∷ xs)) e ∙ ap (λ (t : List A). x ∷ t) (take_add m n xs)

  drop_add : (m n : ℕ) (xs : List A) → drop (m + n) xs ≡ drop n (drop m xs)
  drop_add zero n xs = let e : 0 + n ≡ n = omega arith in ap (λ k. drop k xs) e
  drop_add (suc m) n [] = drop_none (suc m + n) ∙ sym (drop_none n)
  drop_add (suc m) n (x ∷ xs) =
      let e : suc m + n ≡ suc (m + n) = omega arith in ap (λ k. drop k (x ∷ xs)) e ∙ drop_add m n xs

  take_all : (n : ℕ) (xs : List A) → length xs ≤ n → take n xs ≡ xs
  take_all zero [] h = refl
  take_all zero (x ∷ xs) h = absurd (omega arith)
  take_all (suc n) [] h = refl
  take_all (suc n) (x ∷ xs) h = ap (λ (t : List A). x ∷ t) (take_all n xs (omega arith))

  pub segment-split :
      (i j k : ℕ) (xs : List A) → i ≤ j → j ≤ k → segment i k xs ≡ segment i j xs ++ segment j k xs
  segment-split i j k xs h l =
      let whole : k - i ≡ (j - i) + (k - j) = omega arith in
      let there : j ≡ i + (j - i) = omega arith in
      ap (λ n. take n (drop i xs)) whole
      ∙ take_add (j - i) (k - j) (drop i xs)
      ∙ ap (λ (t : List A). segment i j xs ++ take (k - j) t)
          (sym (ap (λ n. drop n xs) there ∙ drop_add i (j - i) xs))

  pub segment-drop : (j k : ℕ) (xs : List A) → j ≤ k → drop j xs ≡ segment j k xs ++ drop k xs
  segment-drop j k xs h =
      let there : k ≡ j + (k - j) = omega arith in
      sym (take-append-drop (k - j) (drop j xs))
      ∙ ap (λ (t : List A). segment j k xs ++ t)
          (sym (ap (λ n. drop n xs) there ∙ drop_add j (k - j) xs))

  pub segment_self : (i : ℕ) (xs : List A) → segment i i xs ≡ []
  segment_self i xs =
      let none_left : i - i ≡ 0 = omega arith in ap (λ n. take n (drop i xs)) none_left

  pub segment-end : (i : ℕ) (xs : List A) → segment i (length xs) xs ≡ drop i xs
  segment-end i xs = take_all (length xs - i) (drop i xs) (omega (arith, length-drop i xs))

  pub drop-end : (xs : List A) → drop (length xs) xs ≡ []
  drop-end [] = refl
  drop-end (x ∷ xs) = drop-end xs

  abbrev singleton : Option A → List A
  singleton none = []
  singleton (some x) = x ∷ []

  take_one : (i : ℕ) (xs : List A) → take 1 (drop i xs) ≡ singleton (get_elem? xs i)
  take_one zero [] = refl
  take_one zero (x ∷ xs) = refl
  take_one (suc i) [] = refl
  take_one (suc i) (x ∷ xs) = take_one i xs

  pub segment-one :
      (i j : ℕ) (xs ys : List A)
      → get_elem? xs i ≡ get_elem? ys j
      → segment i (suc i) xs ≡ segment j (suc j) ys
  segment-one i j xs ys h =
      let p : suc i - i ≡ 1 = omega arith in
      let q : 1 ≡ suc j - j = omega arith in
      ap (λ n. take n (drop i xs)) p
      ∙ take_one i xs
      ∙ ap singleton h
      ∙ sym (take_one j ys)
      ∙ ap (λ n. take n (drop j ys)) q

pub concat-append : (xs ys : List Bytes) → concat (xs ++ ys) ≡ concat xs ++ concat ys
concat-append [] ys = refl
concat-append (x ∷ xs) ys =
    ap (◌++◌ x) (concat-append xs ys) ∙ sym (append_assoc x (concat xs) (concat ys))
