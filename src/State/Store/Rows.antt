-- ===== src/State/Store/Rows.antt =====
-- What the queries of a table of paths leave at each path.
use file_local.Prelude.{
  All, ◌≡◌, refl, ◌∙◌, Bool, true, false, Option, none, some, List, [], ◌∷◌, any, keep, holds,
  if◌then◌else◌, arith, Bool-cases, inl, inr,
}
use file_local.Prelude.Results.{ok}
use file_local.Prelude.Order.{cmp_bytes-IsOrder as O}
use file_local.Prelude.Sorted.{get, get-insert, insert}
use file_local.Model.{Bytes}
use file_local.Sync.Materialize.{is_path}
use file_local.Sync.Materialize.Edits.{is_path_eq, is_path_self}
use file_local.State.Store.{
  Rows, bind_option, delete_others, insert_member, publish, publish_all, stored,
}

-- A row stays if its path is a member.
pub get-delete_others :
    (p : Bytes) (members : List Bytes) (rows : Rows)
    → get p (delete_others members rows) ≡ (if any (is_path p) members then get p rows else none)
unfolding delete_others keep get
get-delete_others p members [] = ground arith
get-delete_others p members ((q, j) ∷ rows) =
    ground (arith, get-delete_others p members rows, O.eq_of_cmp p q, O.cmp_self p)

-- The first value of a path in a list, and lists that have no path twice.
abbrev pub HasNoRepeats {ℓ} : {V : Type ℓ} → List (Bytes × V) → Type ℓ
HasNoRepeats [] = Unit
HasNoRepeats ((p, v) ∷ items) = (get p items ≡ none) × HasNoRepeats items

-- serde_json writes the value, and reads it again.
abbrev pub IsSerde : {V : Type 0} → (V → Option Bytes) → (Bytes → Option V) → V → Type 0
IsSerde encode decode v = (j : Bytes) × ((encode v ≡ some j) × (decode j ≡ some v))

abbrev pub or_else {ℓ} : {V : Type ℓ} → Option V → Option V → Option V
or_else none b = b
or_else (some a) b = some a

holds_eq : {A : Type 0} (d : Discrete A) (a b : A) → holds (d a b) ≡ true → a ≡ b
holds_eq d a b h =
    elim (d a b) as (λ t. holds t ≡ true → a ≡ b) [
      | yes e ↦ λ k. e
      | no n ↦ λ k. absurd (false_true k)
    ]
      h
  where
    false_true : false ≡ true → ⊥
    false_true f = cc

module _ {V : Type 0} (decode : Bytes → Option V) where
  unchanged :
      (q p : Bytes) (rows : Rows) (v : V)
      → stored decode p rows ≡ some v
      → stored decode q rows ≡ (if is_path q p then some v else stored decode q rows)
  unchanged q p rows v h = ground (arith, is_path_eq q p)

  stored-insert :
      (q p j : Bytes) (rows : Rows) (v : V)
      → decode j ≡ some v
      → stored decode q (insert p j rows) ≡ (if is_path q p then some v else stored decode q rows)
  unfolding stored bind_option
  stored-insert q p j rows v h =
      ground (
        arith,
        get-insert q p j rows,
        O.eq_of_cmp q p,
        O.cmp_self q,
        is_path_eq q p,
        is_path_self p,
      )

module _ {V : Type 0} (equal : Discrete (Option V)) (encode : V → Option Bytes)
    (decode : Bytes → Option V) where
  pub stored-publish :
      (rows : Rows) (p : Bytes) (v : V)
      → IsSerde encode decode v
      → (rows' : Rows) × ((publish equal encode decode rows p v ≡ ok rows')
          × ((q : Bytes)
              → stored decode q rows' ≡ (if is_path q p then some v else stored decode q rows)))
  unfolding publish stored
  stored-publish rows p v serde =
      elim (Bool-cases (holds (equal (stored decode p rows) (some v)))) [
        | inl e ↦ (
          rows,
          (
            rw e refl,
            λ q. unchanged decode q p rows v (holds_eq equal (stored decode p rows) (some v) e),
          ),
        )
        | inr e ↦
            let (j, (encoded, decoded)) = serde in
            (
              insert p j rows,
              (rw (e, encoded) refl, λ q. stored-insert decode q p j rows v decoded),
            )
      ]

  stored-step :
      (q p : Bytes) (v : V) (items : List (Bytes × V)) (a b : Option V)
      → get p items ≡ none
      → a ≡ (if is_path q p then some v else b)
      → or_else (get q items) a ≡ or_else (get q ((p, v) ∷ items)) b
  unfolding get
  stored-step q p v items a b n h =
      ground (arith, O.eq_of_cmp q p, O.cmp_self q, is_path_eq q p, is_path_self p)

  pub stored-publish_all :
      (rows : Rows) (items : List (Bytes × V))
      → HasNoRepeats items
      → All (λ item. IsSerde encode decode item.1) items
      → (rows' : Rows) × ((publish_all equal encode decode rows items ≡ ok rows')
          × ((q : Bytes) → stored decode q rows' ≡ or_else (get q items) (stored decode q rows)))
  unfolding publish_all get
  stored-publish_all rows [] u all = (rows, (refl, λ q. refl))
  stored-publish_all rows ((p, v) ∷ items) u all =
      let (rows₁, (e₁, h₁)) = stored-publish rows p v all.0 in
      let (rows₂, (e₂, h₂)) = stored-publish_all rows₁ items u.1 all.1 in
      (
        rows₂,
        (
          rw e₁ e₂,
          λ q.
              h₂ q
              ∙ stored-step q p v items (stored decode q rows₁) (stored decode q rows) u.0 (h₁ q),
        ),
      )

-- The paths that a list has a value for, as members of a temporary table.
abbrev pub has_value : {V : Type 0} → Option V → Bool
has_value none = false
has_value (some v) = true

pub insert_member-new :
    (p : Bytes) (members : List Bytes)
    → any (is_path p) members ≡ false
    → insert_member p members ≡ ok (p ∷ members)
unfolding insert_member
insert_member-new p members h = rw h refl
