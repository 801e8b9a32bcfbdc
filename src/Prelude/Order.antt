-- ===== src/Prelude/Order.antt =====
-- Three-way comparison: `std::cmp::Ordering`, its combinators, and the law record of a total order,
-- with byte strings, numbers and signed numbers as instances.
use Prim.Native.Nat.{ℕ, compare, Ordering}
use mathlib.Core.Path.{◌≡◌, refl}
use mathlib.Core.Bool.{Bool, true, false}
use mathlib.Core.List.{List, [], ◌∷◌}
use native.Mathlib.Omega.{arith}

-- `Ordering::reverse`, `then_with`, and the tests of an ordering.
abbrev pub reversed : Ordering → Ordering
reversed Ordering.lt = Ordering.gt
reversed Ordering.eq = Ordering.eq
reversed Ordering.gt = Ordering.lt

abbrev pub then_with : Ordering → Ordering → Ordering
then_with Ordering.lt o = Ordering.lt
then_with Ordering.eq o = o
then_with Ordering.gt o = Ordering.gt

abbrev pub is_le : Ordering → Bool
is_le Ordering.gt = false
is_le Ordering.lt = true
is_le Ordering.eq = true

abbrev pub is_ge : Ordering → Bool
is_ge Ordering.lt = false
is_ge Ordering.eq = true
is_ge Ordering.gt = true

abbrev pub is_gt : Ordering → Bool
is_gt Ordering.gt = true
is_gt Ordering.lt = false
is_gt Ordering.eq = false

abbrev pub is_lt : Ordering → Bool
is_lt Ordering.lt = true
is_lt Ordering.eq = false
is_lt Ordering.gt = false

-- What `Ord` promises.
pub record IsOrder {ℓ} {K : Type ℓ} (cmp : K → K → Ordering) : Type ℓ where
  pub cmp_self : (a : K) → cmp a a ≡ Ordering.eq
  pub cmp-reversed : (a b : K) → cmp b a ≡ reversed (cmp a b)
  pub eq_of_cmp : (a b : K) → cmp a b ≡ Ordering.eq → a ≡ b
  pub lt_trans : (a b c : K) → cmp a b ≡ Ordering.lt → cmp b c ≡ Ordering.lt → cmp a c ≡ Ordering.lt

pub compare-IsOrder : IsOrder compare
compare-IsOrder = record {
  cmp_self = λ a. ground arith;
  cmp-reversed = λ a b. ground arith;
  eq_of_cmp = λ a b h. ground arith;
  lt_trans = λ a b c p q. ground arith;
}

-- Signed numbers: `negsuc n` is -(n + 1).
pub data ℤ : Type 0 where
  pos : ℕ → ℤ
  negsuc : ℕ → ℤ

unfoldable pub cmp_int : ℤ → ℤ → Ordering
cmp_int (pos a) (pos b) = compare a b
cmp_int (pos a) (negsuc b) = Ordering.gt
cmp_int (negsuc a) (pos b) = Ordering.lt
cmp_int (negsuc a) (negsuc b) = compare b a

pub cmp_int-IsOrder : IsOrder cmp_int
unfolding cmp_int
cmp_int-IsOrder = record {
  cmp_self = λ a. ground arith;
  cmp-reversed = λ a b. ground arith;
  eq_of_cmp = λ a b h. ground arith;
  lt_trans = λ a b c p q. ground arith;
}

-- Byte strings, compared as Rust compares `[u8]` and `String`.
unfoldable pub cmp_bytes : List ℕ → List ℕ → Ordering
cmp_bytes [] [] = Ordering.eq
cmp_bytes [] (y ∷ ys) = Ordering.lt
cmp_bytes (x ∷ xs) [] = Ordering.gt
cmp_bytes (x ∷ xs) (y ∷ ys) = then_with (compare x y) (cmp_bytes xs ys)

cmp_bytes_self : (a : List ℕ) → cmp_bytes a a ≡ Ordering.eq
unfolding cmp_bytes
cmp_bytes_self [] = refl
cmp_bytes_self (x ∷ xs) = ground (arith, cmp_bytes_self xs)

cmp_bytes-reversed : (a b : List ℕ) → cmp_bytes b a ≡ reversed (cmp_bytes a b)
unfolding cmp_bytes
cmp_bytes-reversed [] [] = refl
cmp_bytes-reversed [] (y ∷ ys) = refl
cmp_bytes-reversed (x ∷ xs) [] = refl
cmp_bytes-reversed (x ∷ xs) (y ∷ ys) = ground (arith, cmp_bytes-reversed xs ys)

eq_of_cmp_bytes : (a b : List ℕ) → cmp_bytes a b ≡ Ordering.eq → a ≡ b
unfolding cmp_bytes
eq_of_cmp_bytes [] [] h = refl
eq_of_cmp_bytes [] (y ∷ ys) h = cc
eq_of_cmp_bytes (x ∷ xs) [] h = cc
eq_of_cmp_bytes (x ∷ xs) (y ∷ ys) h = ground (arith, eq_of_cmp_bytes xs ys)

cmp_bytes_trans :
    (a b c : List ℕ)
    → cmp_bytes a b ≡ Ordering.lt
    → cmp_bytes b c ≡ Ordering.lt
    → cmp_bytes a c ≡ Ordering.lt
unfolding cmp_bytes
cmp_bytes_trans [] [] c p q = cc
cmp_bytes_trans [] (y ∷ ys) [] p q = cc
cmp_bytes_trans [] (y ∷ ys) (z ∷ zs) p q = refl
cmp_bytes_trans (x ∷ xs) [] c p q = cc
cmp_bytes_trans (x ∷ xs) (y ∷ ys) [] p q = cc
cmp_bytes_trans (x ∷ xs) (y ∷ ys) (z ∷ zs) p q = ground (arith, cmp_bytes_trans xs ys zs)

pub cmp_bytes-IsOrder : IsOrder cmp_bytes
cmp_bytes-IsOrder = record {
  cmp_self = cmp_bytes_self;
  cmp-reversed = cmp_bytes-reversed;
  eq_of_cmp = eq_of_cmp_bytes;
  lt_trans = cmp_bytes_trans;
}
