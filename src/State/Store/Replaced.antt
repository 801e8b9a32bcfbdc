-- ===== src/State/Store/Replaced.antt =====
-- src/state.rs: the rows that the updates in place leave are those of a rebuild from the records.
use file_local.Prelude.{
  ◌≡◌, Bool, true, false, Option, none, some, List, ◌∷◌, any, if◌then◌else◌, arith,
}
use file_local.Prelude.Order.{cmp_bytes-IsOrder as O}
use file_local.Model.{Bytes, Record, Version}
use file_local.Sync.Materialize.{find_record, is_path}
use file_local.Sync.Materialize.Edits.{is_path_eq, is_path_self}
use file_local.State.Store.{Rows, bind_option, delete_others, stored}
use file_local.State.Store.Rows.{get-delete_others, has_value, or_else}

abbrev pub version_of : Option Record → Option Version
version_of none = none
version_of (some r) = some r.version

-- None of the members is a path of the records.
abbrev pub IsApart : List Bytes → List Record → Type 0
IsApart members rs = (q : Bytes) → any (is_path q) members ≡ true → find_record q rs ≡ none

pub IsApart-tail :
    (members : List Bytes) (r : Record) (rs : List Record)
    → IsApart members (r ∷ rs)
    → IsApart members rs
unfolding find_record
IsApart-tail members r rs a q h = ground (arith, a q h)

pub IsApart-head :
    (members : List Bytes) (r : Record) (rs : List Record)
    → IsApart members (r ∷ rs)
    → any (is_path r.path) members ≡ false
unfolding find_record
IsApart-head members r rs a = ground (arith, a r.path, is_path_self r.path)

pub IsApart-cons :
    (members : List Bytes) (r : Record) (rs : List Record)
    → find_record r.path rs ≡ none
    → IsApart members (r ∷ rs)
    → IsApart (r.path ∷ members) rs
IsApart-cons members r rs u a q h =
    ground (arith, IsApart-tail members r rs a q, is_path_eq q r.path)

pub stored-delete_others :
    {V : Type 0} (decode : Bytes → Option V) (q : Bytes) (members : List Bytes) (rows : Rows)
    → stored decode q (delete_others members rows)
      ≡ (if any (is_path q) members then stored decode q rows else none)
unfolding stored bind_option
stored-delete_others decode q members rows = ground (arith, get-delete_others q members rows)

pub only_members :
    {V : Type 0} (b : Bool) (o x y : Option V)
    → b ≡ has_value o
    → y ≡ or_else o x
    → (if b then y else none) ≡ o
only_members b none x y h k = ground arith
only_members b (some v) x y h k = ground arith
