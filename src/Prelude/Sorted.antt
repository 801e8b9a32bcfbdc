-- ===== src/Prelude/Sorted.antt =====
-- `BTreeMap` and `BTreeSet` over byte strings, as lists in key order. What a reader of a map sees
-- is `get`, and the keys in order.
use mathlib.Core.Path.{◌≡◌, refl}
use mathlib.Core.Option.{Option, none, some}
use mathlib.Core.List.{List, [], ◌∷◌, ◌++◌}
use Prim.Native.Nat.{ℕ, Ordering}
use native.Mathlib.Omega.{arith}
use file_local.Prelude.Order.{cmp_bytes, cmp_bytes-IsOrder as O}

abbrev Key : Type 0
Key = List ℕ

-- `BTreeSet::insert`.
unfoldable pub insert_key : Key → List Key → List Key
unfolding cmp_bytes
insert_key k [] = k ∷ []
insert_key k (j ∷ s) =
    let rest = insert_key k s in
    elim (cmp_bytes k j) [ Ordering.lt ↦ k ∷ j ∷ s | Ordering.eq ↦ j ∷ s | Ordering.gt ↦ j ∷ rest ]

unfoldable pub insert_keys : List Key → List Key → List Key
insert_keys [] s = s
insert_keys (k ∷ ks) s = insert_keys ks (insert_key k s)

module _ {ℓ} {V : Type ℓ} where
  -- `BTreeMap::insert`, which replaces the value of a key that is there.
  unfoldable pub insert : Key → V → List (Key × V) → List (Key × V)
  unfolding cmp_bytes
  insert k v [] = (k, v) ∷ []
  insert k v ((j, w) ∷ m) =
      let rest = insert k v m in
      elim (cmp_bytes k j) [
        | Ordering.lt ↦ (k, v) ∷ (j, w) ∷ m
        | Ordering.eq ↦ (k, v) ∷ m
        | Ordering.gt ↦ (j, w) ∷ rest
      ]

  unfoldable pub get : Key → List (Key × V) → Option V
  unfolding cmp_bytes
  get k [] = none
  get k ((j, w) ∷ m) =
      let rest = get k m in
      elim (cmp_bytes k j) [ Ordering.lt ↦ rest | Ordering.eq ↦ some w | Ordering.gt ↦ rest ]

  unfoldable pub keys : List (Key × V) → List Key
  keys [] = []
  keys ((k, v) ∷ m) = k ∷ keys m

-- A key below every key of a list, and lists that ascend strictly.
abbrev pub Below : Key → List Key → Type 0
Below k [] = Unit {0}
Below k (j ∷ s) = (cmp_bytes k j ≡ Ordering.lt) × Below k s

abbrev pub Ascending : List Key → Type 0
Ascending [] = Unit {0}
Ascending (k ∷ s) = Below k s × Ascending s

pub Below-trans : (i j : Key) (s : List Key) → cmp_bytes i j ≡ Ordering.lt → Below j s → Below i s
Below-trans i j [] h b = tt
Below-trans i j (k ∷ s) h b = (O.lt_trans i j k h b.0, Below-trans i j s h b.1)

Below-insert_key :
    (i k : Key) (s : List Key) → cmp_bytes i k ≡ Ordering.lt → Below i s → Below i (insert_key k s)
unfolding insert_key
Below-insert_key i k [] h b = (h, tt)
Below-insert_key i k (j ∷ s) h b = ground (arith, Below-insert_key i k s h b.1)

pub insert_key-Ascending : (k : Key) (s : List Key) → Ascending s → Ascending (insert_key k s)
unfolding insert_key
insert_key-Ascending k [] a = (tt, tt)
insert_key-Ascending k (j ∷ s) a = ground (
  arith,
  insert_key-Ascending k s a.1,
  Below-insert_key j k s,
  Below-trans k j s,
  O.cmp-reversed k j,
)

pub insert_keys-Ascending : (ks s : List Key) → Ascending s → Ascending (insert_keys ks s)
unfolding insert_keys
insert_keys-Ascending [] s a = a
insert_keys-Ascending (k ∷ ks) s a =
    insert_keys-Ascending ks (insert_key k s) (insert_key-Ascending k s a)

-- The order in which keys are inserted leaves no trace.
pub insert_key_comm :
    (i k : Key) (s : List Key) → insert_key i (insert_key k s) ≡ insert_key k (insert_key i s)
unfolding insert_key
insert_key_comm i k [] = ground (arith, O.cmp-reversed k i, O.eq_of_cmp k i)
insert_key_comm i k (j ∷ s) = ground (
  arith,
  insert_key_comm i k s,
  O.cmp-reversed k i,
  O.cmp-reversed k j,
  O.cmp-reversed i j,
  O.eq_of_cmp k i,
  O.eq_of_cmp k j,
  O.eq_of_cmp i j,
  O.lt_trans i k j,
  O.lt_trans k i j,
  O.lt_trans i j k,
  O.lt_trans k j i,
)

insert_keys-insert_key :
    (k : Key) (ks s : List Key) → insert_keys ks (insert_key k s) ≡ insert_key k (insert_keys ks s)
unfolding insert_keys
insert_keys-insert_key k [] s = refl
insert_keys-insert_key k (j ∷ ks) s =
    rw (insert_key_comm j k s) (insert_keys-insert_key k ks (insert_key j s))

-- A set that is built from two lists of keys does not depend on which comes first.
pub insert_keys_comm :
    (ks js s : List Key) → insert_keys ks (insert_keys js s) ≡ insert_keys js (insert_keys ks s)
unfolding insert_keys
insert_keys_comm [] js s = refl
insert_keys_comm (k ∷ ks) js s =
    rw (← insert_keys-insert_key k js s) (insert_keys_comm ks js (insert_key k s))

module _ {ℓ} {V : Type ℓ} where
  pub get-insert :
      (j k : Key) (v : V) (m : List (Key × V))
      → get j (insert k v m) ≡ (elim (cmp_bytes j k) [ Ordering.eq ↦ some v | _ ↦ get j m ])
  unfolding get insert
  get-insert j k v [] = ground arith
  get-insert j k v ((i, w) ∷ m) = ground (
    arith,
    get-insert j k v m,
    O.eq_of_cmp k i,
    O.eq_of_cmp j k,
    O.eq_of_cmp j i,
    O.cmp-reversed j k,
    O.cmp_self j,
    O.cmp_self k,
  )

  pub keys-insert :
      (k : Key) (v : V) (m : List (Key × V)) → keys (insert k v m) ≡ insert_key k (keys m)
  unfolding keys insert insert_key
  keys-insert k v [] = refl
  keys-insert k v ((i, w) ∷ m) = ground (arith, keys-insert k v m, O.eq_of_cmp k i)

-- Entries in ascending order are a map already.
module _ {ℓ} {V : Type ℓ} where
  abbrev pub Above : Key → List (Key × V) → Type 0
  Above k [] = Unit {0}
  Above k ((j, w) ∷ m) = (cmp_bytes j k ≡ Ordering.lt) × Above k m

  pub insert-Above :
      (k : Key) (v : V) (m : List (Key × V)) → Above k m → insert k v m ≡ m ++ (k, v) ∷ []
  unfolding insert
  insert-Above k v [] h = refl
  insert-Above k v ((j, w) ∷ m) h = ground (arith, insert-Above k v m h.1, O.cmp-reversed j k)

  pub Above-append :
      (i k : Key) (v : V) (m : List (Key × V))
      → Above i m
      → cmp_bytes k i ≡ Ordering.lt
      → Above i (m ++ (k, v) ∷ [])
  Above-append i k v [] h b = (b, tt)
  Above-append i k v ((j, w) ∷ m) h b = (h.0, Above-append i k v m h.1 b)

  pub get-Below : (k : Key) (m : List (Key × V)) → Below k (keys m) → get k m ≡ none
  unfolding get keys
  get-Below k [] b = refl
  get-Below k ((j, w) ∷ m) b = ground (arith, get-Below k m b.1)
