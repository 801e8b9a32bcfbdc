-- ===== src/Merge/Lines.antt =====
-- src/merge.rs: the lines that `lines` makes of a text.
use mathlib.Core.List.{append_assoc}
use file_local.Prelude.{
  ℕ, ◌≡◌, refl, ap, ◌∙◌, Bool, false, List, [], ◌∷◌, ◌++◌, arith, ◌==◌, any, is_empty, ◌⊎◌, inl,
  inr, Bool-cases,
}
use file_local.Model.{Bytes}
use file_local.Merge.Text.{lines, lines_loop, newline}

-- The bytes of a list of lines.
abbrev pub concat : List Bytes → Bytes
concat [] = []
concat (l ∷ ls) = l ++ concat ls

abbrev pub has_newline : Bytes → Bool
has_newline = any (λ c. c == newline)

-- A newline ends the line and stands nowhere else in it.
pub record IsTerminated (line : Bytes) : Type 0 where
  pub body : Bytes
  pub no_newline : has_newline body ≡ false
  pub shape : line ≡ body ++ newline ∷ []

-- Every line but the last is terminated; the last is terminated, or not empty and free of newlines.
abbrev pub AreLines : List Bytes → Type 0
AreLines [] = Unit {0}
AreLines (l ∷ []) = IsTerminated l ⊎ ((has_newline l ≡ false) × (is_empty l ≡ false))
AreLines (l ∷ m ∷ ls) = IsTerminated l × AreLines (m ∷ ls)

AreLines-cons : (l : Bytes) (ls : List Bytes) → IsTerminated l → AreLines ls → AreLines (l ∷ ls)
AreLines-cons l [] t h = inl t
AreLines-cons l (m ∷ ls) t h = (t, h)

has_newline-append :
    (xs : Bytes) (c : ℕ)
    → has_newline xs ≡ false
    → (c == newline) ≡ false
    → has_newline (xs ++ c ∷ []) ≡ false
has_newline-append [] c h e = ground arith
has_newline-append (x ∷ xs) c h e = ground (arith, has_newline-append xs c)

lines_loop-AreLines : (line cs : Bytes) → has_newline line ≡ false → AreLines (lines_loop line cs)
unfolding lines_loop
lines_loop-AreLines [] [] h = tt
lines_loop-AreLines (c ∷ line) [] h = inr (h, refl)
lines_loop-AreLines line (c ∷ cs) h = elim (Bool-cases (c == newline)) [
  | inl e ↦
      let c_is : c ≡ newline = ground arith in
      rw (e, lines_loop)
        (AreLines-cons _ _ (record { body = line; no_newline = h; shape = rw c_is refl })
          (lines_loop-AreLines [] cs refl))
  | inr e ↦
      rw (e, lines_loop) (lines_loop-AreLines (line ++ c ∷ []) cs (has_newline-append line c h e))
]

concat-lines_loop : (line cs : Bytes) → concat (lines_loop line cs) ≡ line ++ cs
unfolding lines_loop
concat-lines_loop [] [] = refl
concat-lines_loop (c ∷ line) [] = refl
concat-lines_loop line (c ∷ cs) = elim (Bool-cases (c == newline)) [
  | inl e ↦
      rw (e, lines_loop)
        (ap (◌++◌ (line ++ c ∷ [])) (concat-lines_loop [] cs) ∙ append_assoc line (c ∷ []) cs)
  | inr e ↦
      rw (e, lines_loop) (concat-lines_loop (line ++ c ∷ []) cs ∙ append_assoc line (c ∷ []) cs)
]

-- The lines of a text, put together again, are the text; each ends in its only newline, but the
-- last, which may instead be a non-empty rest without one.
pub concat-lines : (bytes : Bytes) → (concat (lines bytes) ≡ bytes) × AreLines (lines bytes)
unfolding lines
concat-lines bytes = (concat-lines_loop [] bytes, lines_loop-AreLines [] bytes refl)
