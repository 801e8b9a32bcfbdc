-- ===== src/State/Store.antt =====
-- src/state.rs: `replace_records_in` and `acknowledge_shared_heads`, which bring the rows of a share
-- up to date in place. The rows of a table with the share's id are a list of paths and JSON texts in
-- the order of the paths; what serde_json writes and reads is a parameter.
pub mod Rows
pub mod Replaced
pub mod Acknowledged
pub mod Shared
mod Tests
use file_local.Prelude.{
  ◌≡◌, refl, Bool, true, false, not, Option, none, some, List, [], ◌∷◌, ◌||◌, ◌&&◌, any, keep, map,
  holds, if◌then◌else◌,
}
use file_local.Prelude.Results.{Result, ok, err, ◌>>=◌, ◌>>◌, guard, ok_or}
use file_local.Prelude.Sorted.{get, insert}
use file_local.Model.{
  BaseVersion, BaseVersion-discrete, Bytes, Record, Version, Version-discrete, as_base,
}
use file_local.Reconcile.Coverage.{record_paths}
use file_local.Sync.Materialize.{is_path}
use file_local.Sync.Heads.{is_current}

pub data StoreError : Type 0 where
  duplicate_key not_encoded : StoreError

abbrev pub Rows : Type 0
Rows = List (Bytes × Bytes)

-- `INSERT INTO temp.…_paths(path)`, whose path is a primary key.
unfoldable pub insert_member : Bytes → List Bytes → Result (List Bytes) StoreError
insert_member p members = do guard (not (any (is_path p) members)) duplicate_key; ok (p ∷ members)

unfoldable pub insert_members : List Bytes → List Bytes → Result (List Bytes) StoreError
insert_members members [] = ok members
insert_members members (p ∷ ps) = do members' ← insert_member p members; insert_members members' ps

-- `DELETE FROM … WHERE NOT EXISTS(SELECT 1 FROM temp.…_paths …)`.
unfoldable pub delete_others : List Bytes → Rows → Rows
delete_others members rows = keep (λ row. any (is_path row.0) members) rows

unfoldable pub bind_option {ℓ κ} : {A : Type ℓ} {B : Type κ} → Option A → (A → Option B) → Option B
bind_option none f = none
bind_option (some a) f = f a

-- What the row of a path says.
unfoldable pub stored : {V : Type 0} → (Bytes → Option V) → Bytes → Rows → Option V
stored decode p rows = bind_option (get p rows) decode

module _ {V : Type 0} (equal : Discrete (Option V)) (encode : V → Option Bytes)
    (decode : Bytes → Option V) where
  -- The query of the stored value, and the upsert of another one.
  unfoldable pub publish : Rows → Bytes → V → Result Rows StoreError
  publish rows p v =
      if holds (equal (stored decode p rows) (some v))
      then ok rows
      else (do json ← ok_or (encode v) not_encoded; ok (insert p json rows))

  unfoldable pub publish_all : Rows → List (Bytes × V) → Result Rows StoreError
  publish_all rows [] = ok rows
  publish_all rows ((p, v) ∷ items) = do rows' ← publish rows p v; publish_all rows' items

unfoldable pub version-discrete : Discrete (Option Version)
version-discrete = hlevel Version-discrete

unfoldable pub head-discrete : Discrete (Option BaseVersion)
head-discrete = hlevel BaseVersion-discrete

abbrev pub versions : List Record → List (Bytes × Version)
versions [] = []
versions (r ∷ rs) = (r.path, r.version) ∷ versions rs

unfoldable pub replace_records_in :
    (Version → Option Bytes)
    → (Bytes → Option Version)
    → Rows
    → List Record
    → Result Rows StoreError
replace_records_in encode decode rows records = do
  members ← insert_members [] (record_paths records)
  rows' ← publish_all version-discrete encode decode rows (versions records)
  ok (delete_others members rows')

module _ (encode : BaseVersion → Option Bytes) (decode : Bytes → Option BaseVersion)
    (current : List Record) where
  -- The body of the loop of `acknowledge_shared_heads`, for a record with this base.
  unfoldable pub acknowledge_base :
      List Bytes × Rows → Bytes → Option BaseVersion → Result (List Bytes × Rows) StoreError
  acknowledge_base (members, rows) p none = ok (members, rows)
  acknowledge_base (members, rows) p (some base) = do
    members' ← insert_member p members
    rows' ← publish head-discrete encode decode rows p base
    ok (members', rows')

  unfoldable pub acknowledge_one :
      List Bytes × Rows → Record → Result (List Bytes × Rows) StoreError
  acknowledge_one s r =
      if not (is_current current r) then ok s else acknowledge_base s r.path (as_base r.version)

  unfoldable pub acknowledge_loop :
      List Bytes × Rows → List Record → Result (List Bytes × Rows) StoreError
  acknowledge_loop s [] = ok s
  acknowledge_loop s (r ∷ rs) = do s' ← acknowledge_one s r; acknowledge_loop s' rs

  unfoldable pub acknowledge_shared_heads : Rows → List Record → Result Rows StoreError
  acknowledge_shared_heads rows plan = do
    s ← acknowledge_loop ([], rows) plan
    ok (delete_others s.0 s.1)
