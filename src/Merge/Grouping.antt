-- ===== src/Merge/Grouping.antt =====
-- src/merge.rs: the loops of `compose` that collect the edits of a group.
use mathlib.Core.List.{append_assoc}
use file_local.Prelude.{
  ℕ, zero, suc, ◌+◌, ◌≤◌, ◌<◌, ◌≡◌, refl, sym, ◌∙◌, ap, true, false, List, [], ◌∷◌, ◌++◌, arith,
  length, max, length-append, All, All-append, All-map, Bool-cases, inl, inr, is_empty, ◌&&◌,
}
use file_local.Prelude.Results.{Result, ok, err, ◌>>=◌}
use file_local.Merge.Types.{Edit, Failure, fallback, out_of_fuel, panicked}
use file_local.Merge.{Absorbed, Group, absorb, grow, joins}

-- The code neither panics nor runs out of the model's fuel, and a result has the property.
abbrev pub Safe {ℓ} : {A : Type ℓ} → (A → Type 0) → Result A Failure → Type 0
Safe P (ok a) = P a
Safe P (err (fallback reason)) = Unit
Safe P (err panicked) = ⊥
Safe P (err out_of_fuel) = ⊥

pub Safe-bind {ℓ κ} :
    {A : Type ℓ} {B : Type κ} (Q : A → Type 0) (P : B → Type 0) (m : Result A Failure)
    (f : A → Result B Failure)
    → Safe Q m
    → ((a : A) → Q a → Safe P (f a))
    → Safe P (m >>= f)
Safe-bind Q P (ok a) f h k = k a h
Safe-bind Q P (err (fallback r)) f h k = tt
Safe-bind Q P (err panicked) f h k = absurd h
Safe-bind Q P (err out_of_fuel) f h k = absurd h

-- Edits of a base with `n` lines by a side with `m` lines: in order from line `c` on, apart from one
-- another, and within both files.
abbrev pub WellPlaced : ℕ → ℕ → ℕ → List Edit → Type 0
WellPlaced n m c [] = c ≤ n
WellPlaced n m c (e ∷ es) =
    (c ≤ e.base.start)
    × (e.base.start ≤ e.base.end)
    × (e.side.start ≤ e.side.end)
    × (e.side.end ≤ m)
    × WellPlaced n m e.base.end es

pub WellPlaced-le : (n m c : ℕ) (es : List Edit) → WellPlaced n m c es → c ≤ n
WellPlaced-le n m c [] h = h
WellPlaced-le n m c (e ∷ es) h = omega (arith, WellPlaced-le n m e.base.end es h.4)

pub WellPlaced-from :
    (n m c d : ℕ) (e : Edit) (es : List Edit)
    → WellPlaced n m c (e ∷ es)
    → d ≤ e.base.start
    → WellPlaced n m d (e ∷ es)
WellPlaced-from n m c d e es h le = (le, h.1, h.2, h.3, h.4)

pub WellPlaced-suffix :
    (n m c : ℕ) (xs ys : List Edit)
    → WellPlaced n m c (xs ++ ys)
    → (d : ℕ) × (c ≤ d) × WellPlaced n m d ys
WellPlaced-suffix n m c [] ys h = (c, omega arith, h)
WellPlaced-suffix n m c (x ∷ xs) ys h =
    let (d, le, w) = WellPlaced-suffix n m x.base.end xs ys h.4 in (d, omega arith, w)

-- The edits in front end where the group ends, so they are well placed in it.
pub WellPlaced-prefix :
    (n m c end : ℕ) (xs ys : List Edit)
    → WellPlaced n m c (xs ++ ys)
    → c ≤ end
    → All (λ e. e.base.end ≤ end) xs
    → WellPlaced end m c xs
WellPlaced-prefix n m c end [] ys h le a = le
WellPlaced-prefix n m c end (x ∷ xs) ys h le a =
    (h.0, h.1, h.2, h.3, WellPlaced-prefix n m x.base.end end xs ys h.4 a.0 a.1)

-- The first edit left over does not join the group.
abbrev pub Stopped : ℕ → ℕ → List Edit → Type 0
Stopped start end [] = Unit {0}
Stopped start end (e ∷ es) = joins e start end ≡ false

pub WellPlaced-Stopped :
    (n m start end d : ℕ) (es : List Edit)
    → WellPlaced n m d es
    → start ≤ d
    → start ≤ end
    → end ≤ n
    → Stopped start end es
    → WellPlaced n m end es
unfolding joins
WellPlaced-Stopped n m start end d [] h p q r s = r
WellPlaced-Stopped n m start end d (e ∷ es) h p q r s = (ground arith, h.1, h.2, h.3, h.4)

pub record Absorbs (n start end : ℕ) (es : List Edit) (r : Absorbed) : Type 0 where
  pub split : r.taken ++ r.rest ≡ es
  pub grows : end ≤ r.end
  pub fits : r.end ≤ n
  pub covered : All (λ e. e.base.end ≤ r.end) r.taken
  pub stopped : Stopped start r.end r.rest
  pub unmoved : is_empty r.taken ≡ true → r.end ≡ end

absorb-Absorbs :
    (n m start end c : ℕ) (es : List Edit)
    → WellPlaced n m c es
    → end ≤ n
    → Absorbs n start end es (absorb start end es)
unfolding absorb
absorb-Absorbs n m start end c [] h le = record {
  split = refl;
  grows = omega arith;
  fits = le;
  covered = tt;
  stopped = tt;
  unmoved = λ _. refl;
}
absorb-Absorbs n m start end c (e ∷ es) h le = elim (Bool-cases (joins e start end)) [
  | inl j ↦
      let below = WellPlaced-le n m e.base.end es h.4 in
      let ih = absorb-Absorbs n m start (max end e.base.end) e.base.end es h.4 (omega arith) in
      rw (j, absorb)
        (record {
          split = ap (λ (t : List Edit). e ∷ t) ih.split;
          grows = omega (arith, ih.grows);
          fits = ih.fits;
          covered = (omega (arith, ih.grows), ih.covered);
          stopped = ih.stopped;
          unmoved = λ f. cc;
        })
  | inr j ↦
      rw (j, absorb)
        (record {
          split = refl;
          grows = omega arith;
          fits = le;
          covered = tt;
          stopped = j;
          unmoved = λ _. refl;
        })
]

-- What the loop keeps: the group and the rest are the edits of the start, and the group's edits end
-- within the group.
pub record Holds (n ma mb start : ℕ) (a b : List Edit) (g : Group) : Type 0 where
  pub a_split : g.a_group ++ g.a_rest ≡ a
  pub b_split : g.b_group ++ g.b_rest ≡ b
  pub a_covered : All (λ e. e.base.end ≤ g.end) g.a_group
  pub b_covered : All (λ e. e.base.end ≤ g.end) g.b_group
  pub after : start ≤ g.end
  pub within : g.end ≤ n

pub record IsClosed (n ma mb start : ℕ) (a b : List Edit) (g : Group) : Type 0 where
  pub holds : Holds n ma mb start a b g
  pub a_stopped : Stopped start g.end g.a_rest
  pub b_stopped : Stopped start g.end g.b_rest

All-end_mono :
    (i j : ℕ) (es : List Edit) → i ≤ j → All (λ e. e.base.end ≤ i) es → All (λ e. e.base.end ≤ j) es
All-end_mono i j es le = All-map _ _ es (λ e h. omega arith)

pub length-split : (xs ys zs : List Edit) → xs ++ ys ≡ zs → length xs + length ys ≡ length zs
length-split xs ys zs h = sym (length-append xs ys) ∙ ap length h

fewer_left :
    (xs ys : List Edit) (u v p q fuel : ℕ)
    → (is_empty xs && is_empty ys) ≡ false
    → length xs + u ≡ p
    → length ys + v ≡ q
    → p + q < suc fuel
    → u + v < fuel
fewer_left [] [] u v p q fuel h e f l = cc
fewer_left [] (y ∷ ys) u v p q fuel h e f l = omega arith
fewer_left (x ∷ xs) ys u v p q fuel h e f l = omega arith

module _ (n ma mb start : ℕ) (a b : List Edit) (wa : WellPlaced n ma start a)
    (wb : WellPlaced n mb start b) where
  -- One round of the loop.
  round-Holds :
      (g : Group) (ra rb : Absorbed)
      → Holds n ma mb start a b g
      → Absorbs n start g.end g.a_rest ra
      → Absorbs n start ra.end g.b_rest rb
      → Holds n ma mb start a b (record {
        end = rb.end;
        a_group = g.a_group ++ ra.taken;
        b_group = g.b_group ++ rb.taken;
        a_rest = ra.rest;
        b_rest = rb.rest;
      })
  round-Holds g ra rb h ha hb = record {
    a_split = append_assoc g.a_group ra.taken ra.rest ∙ ap (◌++◌ g.a_group) ha.split ∙ h.a_split;
    b_split = append_assoc g.b_group rb.taken rb.rest ∙ ap (◌++◌ g.b_group) hb.split ∙ h.b_split;
    a_covered =
        All-append _ g.a_group ra.taken
          (All-end_mono g.end rb.end g.a_group (omega (arith, ha.grows, hb.grows)) h.a_covered)
          (All-end_mono ra.end rb.end ra.taken hb.grows ha.covered);
    b_covered =
        All-append _ g.b_group rb.taken
          (All-end_mono g.end rb.end g.b_group (omega (arith, ha.grows, hb.grows)) h.b_covered)
          hb.covered;
    after = omega (arith, h.after, ha.grows, hb.grows);
    within = hb.fits;
  }

  absorb_a :
      (g : Group)
      → Holds n ma mb start a b g
      → Absorbs n start g.end g.a_rest (absorb start g.end g.a_rest)
  absorb_a g h =
      let (c, le, w) = WellPlaced-suffix n ma start g.a_group g.a_rest (rw h.a_split wa) in
      absorb-Absorbs n ma start g.end c g.a_rest w h.within

  absorb_b :
      (g : Group) (end : ℕ)
      → Holds n ma mb start a b g
      → end ≤ n
      → Absorbs n start end g.b_rest (absorb start end g.b_rest)
  absorb_b g end h le =
      let (c, _, w) = WellPlaced-suffix n mb start g.b_group g.b_rest (rw h.b_split wb) in
      absorb-Absorbs n mb start end c g.b_rest w le

  -- With more rounds than edits left the loop ends, with a group that no edit left over joins.
  pub grow-IsClosed :
      (fuel : ℕ) (g : Group)
      → Holds n ma mb start a b g
      → length g.a_rest + length g.b_rest < fuel
      → Safe (IsClosed n ma mb start a b) (grow fuel start g)
  unfolding grow
  grow-IsClosed zero g h f = absurd (omega arith)
  grow-IsClosed (suc fuel) g h f =
      let ra = absorb start g.end g.a_rest in
      let rb = absorb start ra.end g.b_rest in
      let ha = absorb_a g h in
      let hb = absorb_b g ra.end h ha.fits in
      let next = round-Holds g ra rb h ha hb in
      let la = length-split ra.taken ra.rest g.a_rest ha.split in
      let lb = length-split rb.taken rb.rest g.b_rest hb.split in
      elim (Bool-cases (is_empty ra.taken && is_empty rb.taken)) [
        | inl idle ↦
            let same : rb.end ≡ ra.end = hb.unmoved (ground arith) in
            rw (idle, grow)
              (record { holds = next; a_stopped = rw same ha.stopped; b_stopped = hb.stopped })
        | inr busy ↦
            rw (busy, grow)
              (grow-IsClosed fuel _ next (fewer_left ra.taken rb.taken _ _ _ _ fuel busy la lb f))
      ]
