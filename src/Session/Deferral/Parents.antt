-- ===== src/Session/Deferral/Parents.antt =====
-- The parents of a path: what lies above it, in order of length.
use file_local.Prelude.{
  subst, ℕ, suc, ◌<◌, ◌≡◌, refl, sym, ◌∙◌, ap, List, [], ◌∷◌, ◌++◌, ◌==◌, map, length, arith,
  Bool-cases, ◌⊎◌, inl, inr, All, Any,
}
use file_local.Model.{Bytes}
use file_local.Model.FilePath.{slash}
use file_local.Session.Deferral.{parents}

-- The path lies below the other one.
abbrev pub IsBelow : Bytes → Bytes → Type 0
IsBelow p a = (rest : Bytes) × (p ≡ a ++ slash ∷ rest)

-- Membership of a path.
abbrev pub IsIn : Bytes → List Bytes → Type 0
IsIn a ps = Any (λ p. p ≡ a) ps

IsIn-map : (c : ℕ) (a : Bytes) (ps : List Bytes) → IsIn a ps → IsIn (c ∷ a) (map (λ p. c ∷ p) ps)
IsIn-map c a [] h = absurd h
IsIn-map c a (p ∷ ps) (inl e) = inl (ap (λ (q : Bytes). c ∷ q) e)
IsIn-map c a (p ∷ ps) (inr h) = inr (IsIn-map c a ps h)

cons_head : (c d : ℕ) (xs ys : Bytes) → c ∷ xs ≡ d ∷ ys → c ≡ d
cons_head c d xs ys e = cc

cons_tail : (c d : ℕ) (xs ys : Bytes) → c ∷ xs ≡ d ∷ ys → xs ≡ ys
cons_tail c d xs ys e = cc

pub parents-IsIn : (a p : Bytes) → IsBelow p a → IsIn a (parents p)
unfolding parents
parents-IsIn [] [] (rest, e) = cc
parents-IsIn [] (c ∷ cs) (rest, e) = ground (arith, cons_head c slash cs rest e)
parents-IsIn (d ∷ a) [] (rest, e) = cc
parents-IsIn (d ∷ a) (c ∷ cs) (rest, e) =
    let same : c ≡ d = cons_head c d cs (a ++ slash ∷ rest) e in
    let below : IsIn a (parents cs) =
      parents-IsIn a cs (rest, cons_tail c d cs (a ++ slash ∷ rest) e) in
    subst (λ (k : ℕ). IsIn (k ∷ a) (parents (c ∷ cs))) same
      (elim (Bool-cases (c == slash)) [
        | inl f ↦ rw f (inr (IsIn-map c a (parents cs) below))
        | inr f ↦ rw f (IsIn-map c a (parents cs) below)
      ])

-- What is in a mapped list.
from_map :
    (c : ℕ) (a : Bytes) (ps : List Bytes)
    → IsIn a (map (λ p. c ∷ p) ps)
    → (b : Bytes) × ((a ≡ c ∷ b) × IsIn b ps)
from_map c a [] h = absurd h
from_map c a (p ∷ ps) (inl e) = (p, (sym e, inl refl))
from_map c a (p ∷ ps) (inr h) = let (b, (e, k)) = from_map c a ps h in (b, (e, inr k))

later :
    (a : Bytes) (c : ℕ) (cs : Bytes)
    → ((b : Bytes) → IsIn b (parents cs) → IsBelow cs b)
    → IsIn a (map (λ p. c ∷ p) (parents cs))
    → IsBelow (c ∷ cs) a
later a c cs below h =
    let (b, (e, k)) = from_map c a (parents cs) h in
    let (rest, f) = below b k in
    (rest, ap (λ (q : Bytes). c ∷ q) f ∙ ap (λ (q : Bytes). q ++ slash ∷ rest) (sym e))

first_or_later :
    (a : Bytes) (c : ℕ) (cs : Bytes)
    → c ≡ slash
    → ((b : Bytes) → IsIn b (parents cs) → IsBelow cs b)
    → IsIn a ([] ∷ map (λ p. c ∷ p) (parents cs))
    → IsBelow (c ∷ cs) a
first_or_later a c cs e below (inl f) = (cs, cc (e, f))
first_or_later a c cs e below (inr h) = later a c cs below h

pub parents-IsBelow : (a p : Bytes) → IsIn a (parents p) → IsBelow p a
unfolding parents
parents-IsBelow a [] h = absurd h
parents-IsBelow a (c ∷ cs) h = elim (Bool-cases (c == slash)) [
  | inl f ↦ first_or_later a c cs (ground arith) (λ b k. parents-IsBelow b cs k) (rw f at h)
  | inr f ↦ later a c cs (λ b k. parents-IsBelow b cs k) (rw f at h)
]

-- Two paths above a third one, or that path itself, are in line.
abbrev pub AreInLine : Bytes → Bytes → Type 0
AreInLine a b = (a ≡ b) ⊎ (IsBelow a b ⊎ IsBelow b a)

in_line_cons : (c d : ℕ) (a b : Bytes) → c ≡ d → AreInLine a b → AreInLine (c ∷ a) (d ∷ b)
in_line_cons c d a b e (inl f) = inl (cc (e, f))
in_line_cons c d a b e (inr (inl (rest, f))) = inr (inl (rest, cc (e, f)))
in_line_cons c d a b e (inr (inr (rest, f))) = inr (inr (rest, cc (e, f)))

-- The shorter of two paths above a path is above the longer one.
pub in_line : (a b x y : Bytes) → a ++ slash ∷ x ≡ b ++ slash ∷ y → AreInLine a b
in_line [] [] x y e = inl refl
in_line [] (d ∷ b) x y e =
    inr (inr (b, ap (λ (k : ℕ). k ∷ b) (sym (cons_head slash d x (b ++ slash ∷ y) e))))
in_line (c ∷ a) [] x y e =
    inr (inl (a, ap (λ (k : ℕ). k ∷ a) (cons_head c slash (a ++ slash ∷ x) y e)))
in_line (c ∷ a) (d ∷ b) x y e =
    in_line_cons c d a b (cons_head c d (a ++ slash ∷ x) (b ++ slash ∷ y) e)
      (in_line a b x y (cons_tail c d (a ++ slash ∷ x) (b ++ slash ∷ y) e))

-- The parents of a path have increasing lengths.
abbrev Longer : ℕ → List Bytes → Type 0
Longer n ps = All (λ p. n < length p) ps

abbrev pub Lengthening : List Bytes → Type 0
Lengthening [] = Unit {0}
Lengthening (p ∷ ps) = Longer (length p) ps × Lengthening ps

Longer-map : (c n : ℕ) (ps : List Bytes) → Longer n ps → Longer (suc n) (map (λ p. c ∷ p) ps)
Longer-map c n [] h = tt
Longer-map c n (p ∷ ps) h = (omega (arith, h.0), Longer-map c n ps h.1)

Longer-zero : (c : ℕ) (ps : List Bytes) → Longer 0 (map (λ p. c ∷ p) ps)
Longer-zero c [] = tt
Longer-zero c (p ∷ ps) = (omega arith, Longer-zero c ps)

Lengthening-map : (c : ℕ) (ps : List Bytes) → Lengthening ps → Lengthening (map (λ p. c ∷ p) ps)
Lengthening-map c [] h = tt
Lengthening-map c (p ∷ ps) h = (Longer-map c (length p) ps h.0, Lengthening-map c ps h.1)

pub parents-Lengthening : (p : Bytes) → Lengthening (parents p)
unfolding parents
parents-Lengthening [] = tt
parents-Lengthening (c ∷ cs) = elim (Bool-cases (c == slash)) [
  | inl f ↦
      rw f (Longer-zero c (parents cs), Lengthening-map c (parents cs) (parents-Lengthening cs))
  | inr f ↦ rw f (Lengthening-map c (parents cs) (parents-Lengthening cs))
]

pub IsIn-Longer : (n : ℕ) (a : Bytes) (ps : List Bytes) → Longer n ps → IsIn a ps → n < length a
IsIn-Longer n a [] l h = absurd h
IsIn-Longer n a (p ∷ ps) l (inl e) = subst (λ (q : Bytes). n < length q) e l.0
IsIn-Longer n a (p ∷ ps) l (inr h) = IsIn-Longer n a ps l.1 h
