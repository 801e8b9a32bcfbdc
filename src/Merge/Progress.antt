-- ===== src/Merge/Progress.antt =====
-- src/merge.rs: where a round of `compose` starts, and what it leaves.
use file_local.Prelude.{
  ℕ, ◌+◌, ◌≤◌, ◌<◌, ◌≡◌, refl, sym, List, [], ◌∷◌, ◌++◌, arith, length, min, ◌⊎◌, inl, inr,
}
use file_local.Merge.Types.{Edit}
use file_local.Merge.{Group, joins}
use file_local.Merge.Grouping.{
  IsClosed, Stopped, WellPlaced, WellPlaced-from, WellPlaced-le, WellPlaced-prefix,
  WellPlaced-Stopped, WellPlaced-suffix, length-split,
}

-- The first edit begins at the line.
abbrev pub Begins : ℕ → List Edit → Type 0
Begins start [] = ⊥
Begins start (e ∷ es) = e.base.start ≡ start

-- The next group starts at a line from `c` on, before which neither side has an edit left, and at
-- which one side has one.
pub record Starts (n ma mb c start : ℕ) (a b : List Edit) : Type 0 where
  pub follows : c ≤ start
  pub inside : start ≤ n
  pub a_placed : WellPlaced n ma start a
  pub b_placed : WellPlaced n mb start b
  pub begins : Begins start a ⊎ Begins start b

min-either : (i j : ℕ) → (min i j ≡ i) ⊎ (min i j ≡ j)
min-either i j = ground arith

-- An edit where the group starts joins it.
Begins-joins :
    (start end : ℕ) (es : List Edit) → start ≤ end → Begins start es → Stopped start end es → ⊥
unfolding joins
Begins-joins start end [] le h s = h
Begins-joins start end (e ∷ es) le h s = ground arith

fewer_rest :
    (start end : ℕ) (xs ys zs : List Edit)
    → xs ++ ys ≡ zs
    → start ≤ end
    → Begins start zs
    → Stopped start end ys
    → length ys < length zs
fewer_rest start end [] ys zs h le b s = absurd (Begins-joins start end ys le (rw h b) s)
fewer_rest start end (x ∷ xs) ys zs h le b s = omega (arith, length-split (x ∷ xs) ys zs h)

no_more_rest : (xs ys zs : List Edit) → xs ++ ys ≡ zs → length ys ≤ length zs
no_more_rest xs ys zs h = omega (arith, length-split xs ys zs h)

rest-WellPlaced :
    (n m start end : ℕ) (xs ys zs : List Edit)
    → xs ++ ys ≡ zs
    → WellPlaced n m start zs
    → start ≤ end
    → end ≤ n
    → Stopped start end ys
    → WellPlaced n m end ys
rest-WellPlaced n m start end xs ys zs h w le k s =
    let (d, p, r) = WellPlaced-suffix n m start xs ys (rw h w) in
    WellPlaced-Stopped n m start end d ys r p le k s

module _ (n ma mb c : ℕ) where
  pub both-Starts :
      (e f : Edit) (es fs : List Edit)
      → WellPlaced n ma c (e ∷ es)
      → WellPlaced n mb c (f ∷ fs)
      → Starts n ma mb c (min e.base.start f.base.start) (e ∷ es) (f ∷ fs)
  both-Starts e f es fs wa wb =
      let i = WellPlaced-le n ma e.base.end es wa.4 in
      record {
        follows = omega arith;
        inside = omega arith;
        a_placed = WellPlaced-from n ma c _ e es wa (omega arith);
        b_placed = WellPlaced-from n mb c _ f fs wb (omega arith);
        begins = elim (min-either e.base.start f.base.start) [
          | inl h ↦ inl (sym h)
          | inr h ↦ inr (sym h)
        ];
      }

  pub a-Starts :
      (e : Edit) (es : List Edit)
      → WellPlaced n ma c (e ∷ es)
      → Starts n ma mb c e.base.start (e ∷ es) []
  a-Starts e es wa =
      let i = WellPlaced-le n ma e.base.end es wa.4 in
      record {
        follows = wa.0;
        inside = omega arith;
        a_placed = WellPlaced-from n ma c _ e es wa (omega arith);
        b_placed = omega arith;
        begins = inl refl;
      }

  pub b-Starts :
      (f : Edit) (fs : List Edit)
      → WellPlaced n mb c (f ∷ fs)
      → Starts n ma mb c f.base.start [] (f ∷ fs)
  b-Starts f fs wb =
      let i = WellPlaced-le n mb f.base.end fs wb.4 in
      record {
        follows = wb.0;
        inside = omega arith;
        a_placed = omega arith;
        b_placed = WellPlaced-from n mb c _ f fs wb (omega arith);
        begins = inr refl;
      }

-- What a round leaves: the group's edits are well placed in the group and the rest after it, and
-- the rest is shorter.
pub record Advances (n ma mb start : ℕ) (a b : List Edit) (g : Group) : Type 0 where
  pub after : start ≤ g.end
  pub within : g.end ≤ n
  pub a_group : WellPlaced g.end ma start g.a_group
  pub b_group : WellPlaced g.end mb start g.b_group
  pub a_rest : WellPlaced n ma g.end g.a_rest
  pub b_rest : WellPlaced n mb g.end g.b_rest
  pub fewer : length g.a_rest + length g.b_rest < length a + length b

pub closed-Advances :
    (n ma mb c start : ℕ) (a b : List Edit) (g : Group)
    → Starts n ma mb c start a b
    → IsClosed n ma mb start a b g
    → Advances n ma mb start a b g
closed-Advances n ma mb c start a b g s k =
    let h = k.holds in
    record {
      after = h.after;
      within = h.within;
      a_group =
          WellPlaced-prefix n ma start g.end g.a_group g.a_rest (rw h.a_split s.a_placed) h.after
            h.a_covered;
      b_group =
          WellPlaced-prefix n mb start g.end g.b_group g.b_rest (rw h.b_split s.b_placed) h.after
            h.b_covered;
      a_rest =
          rest-WellPlaced n ma start g.end g.a_group g.a_rest a h.a_split s.a_placed h.after
            h.within k.a_stopped;
      b_rest =
          rest-WellPlaced n mb start g.end g.b_group g.b_rest b h.b_split s.b_placed h.after
            h.within k.b_stopped;
      fewer =
          let la = no_more_rest g.a_group g.a_rest a h.a_split in
          let lb = no_more_rest g.b_group g.b_rest b h.b_split in
          elim s.begins [
            | inl p ↦
                omega (
                  arith,
                  fewer_rest start g.end g.a_group g.a_rest a h.a_split h.after p k.a_stopped,
                )
            | inr p ↦
                omega (
                  arith,
                  fewer_rest start g.end g.b_group g.b_rest b h.b_split h.after p k.b_stopped,
                )
          ];
    }
