-- ===== src/Sync/Chunks.antt =====
-- src/sync.rs: `bounded_chunks`, which cuts a list of items into the frames of a message. What
-- serde_json makes of an item is a parameter: the length of its encoding, or `none` if it fails.
use file_local.Prelude.{
  saturating_add, ℕ, zero, suc, ◌+◌, ◌*◌, ◌≤◌, ◌<◌, ◌≡◌, refl, subst, ◌∙◌, ap, Bool, true, false,
  Option, none, some, List, [], ◌∷◌, ◌++◌, arith, length, length-append, is_empty, ltb,
  if◌then◌else◌, All, Any, inl, inr, Bool-cases, Option-cases, Any-append_right,
}
use file_local.Prelude.Results.{Result, ok, err, ◌>>=◌, ok_or}

abbrev pub max_frame : ℕ
max_frame = 2 * 1024 * 1024

pub data ChunkError : Type 0 where
  not_serialized too_large out_of_fuel : ChunkError

-- One byte for the comma in front of an item that is not the frame's first.
abbrev pub separator : Bool → ℕ
separator is_first = if is_first then 0 else 1

module _ {A : Type 0} (encoded_len : A → Option ℕ) where
  -- The inner loop: the items that fit into the frame, and those left over.
  unfoldable pub fill : ℕ → Bool → List A → Result (List A × List A) ChunkError
  fill frame_size is_first [] = ok ([], [])
  fill frame_size is_first (x ∷ xs) = do
    len ← ok_or (encoded_len x) not_serialized
    let next_size = saturating_add (saturating_add frame_size (separator is_first)) len
    let more = fill next_size false xs
    if ltb max_frame next_size then ok ([], x ∷ xs) else (do r ← more; ok (x ∷ r.0, r.1))

  -- The outer loop.
  unfoldable pub chunks_loop : ℕ → ℕ → List A → Result (List (List A)) ChunkError
  chunks_loop fuel envelope [] = ok []
  chunks_loop zero envelope (x ∷ xs) = err out_of_fuel
  chunks_loop (suc fuel) envelope (x ∷ xs) = do
    r ← fill envelope true (x ∷ xs)
    if is_empty r.0
        then err too_large
        else (do more ← chunks_loop fuel envelope r.1; ok (r.0 ∷ more))

  unfoldable pub bounded_chunks : List A → ℕ → Result (List (List A)) ChunkError
  bounded_chunks items envelope = chunks_loop (length items) envelope items

  -- The items fit into a frame that is `size` long already.
  abbrev pub Fits : ℕ → Bool → List A → Type 0
  Fits size is_first [] = Unit
  Fits size is_first (x ∷ xs) =
      (n : ℕ) × (encoded_len x ≡ some n)
      × (size + separator is_first + n ≤ max_frame)
      × Fits (size + separator is_first + n) false xs

  -- The item does not fit into a frame that is `size` long already.
  abbrev pub Overflows : ℕ → Bool → A → Type 0
  Overflows size is_first x =
      (n : ℕ) × (encoded_len x ≡ some n) × (max_frame < size + separator is_first + n)

  -- Nothing was taken because the next item overflows.
  abbrev Stuck : ℕ → Bool → List A → List A → Type 0
  Stuck size is_first (x ∷ xs) rest = Unit
  Stuck size is_first [] [] = Unit
  Stuck size is_first [] (x ∷ rest) = Overflows size is_first x

  abbrev Filled : ℕ → Bool → List A → Result (List A × List A) ChunkError → Type 0
  Filled size is_first items (ok (taken, rest)) =
      (taken ++ rest ≡ items) × Fits size is_first taken × Stuck size is_first taken rest
  Filled size is_first items (err not_serialized) = Any (λ x. encoded_len x ≡ none) items
  Filled size is_first items (err too_large) = ⊥
  Filled size is_first items (err out_of_fuel) = ⊥

  Filled-cons :
      (size n : ℕ) (is_first : Bool) (x : A) (xs : List A) (r : Result (List A × List A) ChunkError)
      → encoded_len x ≡ some n
      → size + separator is_first + n ≤ max_frame
      → Filled (size + separator is_first + n) false xs r
      → Filled size is_first (x ∷ xs) (r >>= λ r'. ok (x ∷ r'.0, r'.1))
  Filled-cons size n is_first x xs (ok (taken, rest)) e le h =
      (ap (λ (t : List A). x ∷ t) h.0, (n, e, le, h.1), tt)
  Filled-cons size n is_first x xs (err not_serialized) e le h = inr h
  Filled-cons size n is_first x xs (err too_large) e le h = absurd h
  Filled-cons size n is_first x xs (err out_of_fuel) e le h = absurd h

  fill-Filled :
      (size : ℕ) (is_first : Bool) (items : List A)
      → Filled size is_first items (fill size is_first items)
  unfolding fill
  fill-Filled size is_first [] = (refl, tt, tt)
  fill-Filled size is_first (x ∷ xs) = elim (Option-cases (encoded_len x)) [
    | inl e ↦ rw e (inl e)
    | inr (n, e) ↦
        let total = size + separator is_first + n in
        let next = saturating_add (saturating_add size (separator is_first)) n in
        elim (Bool-cases (ltb max_frame next)) [
          | inl over ↦ rw (e, over) (refl, tt, (n, e, ground arith))
          | inr fits ↦
              let le : total ≤ max_frame = ground arith in
              let same : next ≡ total = ground arith in
              rw (e, fits, same)
                (Filled-cons size n is_first x xs _ e le (fill-Filled total false xs))
        ]
  ]

  abbrev pub concat : List (List A) → List A
  concat [] = []
  concat (c ∷ cs) = c ++ concat cs

  abbrev pub IsFrame : ℕ → List A → Type 0
  IsFrame envelope chunk = (is_empty chunk ≡ false) × Fits envelope true chunk

  -- What becomes of a list of items.
  abbrev pub IsChunked : ℕ → List A → Result (List (List A)) ChunkError → Type 0
  IsChunked envelope items (ok chunks) = (concat chunks ≡ items) × All (IsFrame envelope) chunks
  IsChunked envelope items (err not_serialized) = Any (λ x. encoded_len x ≡ none) items
  IsChunked envelope items (err too_large) = Any (Overflows envelope true) items
  IsChunked envelope items (err out_of_fuel) = ⊥

  IsChunked-cons :
      (envelope : ℕ) (taken rest items : List A) (m : Result (List (List A)) ChunkError)
      → taken ++ rest ≡ items
      → IsFrame envelope taken
      → IsChunked envelope rest m
      → IsChunked envelope items (m >>= λ more. ok (taken ∷ more))
  IsChunked-cons envelope taken rest items (ok chunks) e f h = (ap (◌++◌ taken) h.0 ∙ e, (f, h.1))
  IsChunked-cons envelope taken rest items (err not_serialized) e f h =
      rw e at (Any-append_right (λ x. encoded_len x ≡ none) taken rest h)
  IsChunked-cons envelope taken rest items (err too_large) e f h =
      rw e at (Any-append_right (Overflows envelope true) taken rest h)
  IsChunked-cons envelope taken rest items (err out_of_fuel) e f h = absurd h

  -- A round of the outer loop, after `fill`, if the rounds after it are right.
  round-IsChunked :
      (fuel envelope : ℕ) (x : A) (xs : List A) (r : Result (List A × List A) ChunkError)
      → ((rest : List A)
          → length rest ≤ fuel
          → IsChunked envelope rest (chunks_loop fuel envelope rest))
      → length xs ≤ fuel
      → Filled envelope true (x ∷ xs) r
      → IsChunked envelope (x ∷ xs) (
          r >>= λ r'.
          if is_empty r'.0
          then err too_large
          else (chunks_loop fuel envelope r'.1 >>= λ more. ok (r'.0 ∷ more)))
  round-IsChunked fuel envelope x xs (ok ([], [])) ih le h = cc
  round-IsChunked fuel envelope x xs (ok ([], y ∷ rest)) ih le h =
      subst (λ (l : List A). Any (Overflows envelope true) l) h.0 (inl h.2)
  round-IsChunked fuel envelope x xs (ok (y ∷ taken, rest)) ih le h =
      IsChunked-cons envelope (y ∷ taken) rest (x ∷ xs) _ h.0 (refl, h.1)
        (ih rest (omega (arith, ap length h.0, length-append taken rest)))
  round-IsChunked fuel envelope x xs (err not_serialized) ih le h = h
  round-IsChunked fuel envelope x xs (err too_large) ih le h = absurd h
  round-IsChunked fuel envelope x xs (err out_of_fuel) ih le h = absurd h

  chunks_loop-IsChunked :
      (fuel envelope : ℕ) (items : List A)
      → length items ≤ fuel
      → IsChunked envelope items (chunks_loop fuel envelope items)
  unfolding chunks_loop
  chunks_loop-IsChunked fuel envelope [] h = (refl, tt)
  chunks_loop-IsChunked zero envelope (x ∷ xs) h = absurd (omega arith)
  chunks_loop-IsChunked (suc fuel) envelope (x ∷ xs) h =
      round-IsChunked fuel envelope x xs (fill envelope true (x ∷ xs))
        (λ rest le. chunks_loop-IsChunked fuel envelope rest le) (omega arith)
        (fill-Filled envelope true (x ∷ xs))

  -- The chunks of a list, put together, are the list; none is empty, and each with its envelope
  -- and commas fits into a frame. There is no result only if an item cannot be encoded or does not
  -- fit into a frame alone; the loops always end.
  pub bounded_chunks-IsChunked :
      (items : List A) (envelope : ℕ) → IsChunked envelope items (bounded_chunks items envelope)
  unfolding bounded_chunks
  bounded_chunks-IsChunked items envelope =
      chunks_loop-IsChunked (length items) envelope items (omega arith)
