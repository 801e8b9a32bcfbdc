-- ===== src/State/Store/Tests.antt =====
-- Runs of the updates of rows, and their theorems at concrete data.
use file_local.Prelude.{ℕ, ◌≡◌, refl, Option, none, some, List, [], ◌∷◌, false, keep}
use file_local.Prelude.Order.{cmp_bytes, pos}
use file_local.Prelude.Results.{ok, err}
use file_local.Prelude.Sorted.{get, insert}
use file_local.Model.{
  BaseVersion, BaseVersion-discrete, Bytes, Bytes-discrete, Entry-discrete, Record, Record-discrete,
  Version, Version-discrete, VersionId-discrete, as_base, file,
}
use file_local.Reconcile.{by_path, by_path_onto}
use file_local.Sync.Heads.{current-discrete, is_current}
use file_local.State.Store.{
  Rows, acknowledge_base, acknowledge_loop, acknowledge_one, acknowledge_shared_heads, bind_option,
  delete_others, duplicate_key, head-discrete, insert_member, insert_members, publish, publish_all,
  replace_records_in, stored, version-discrete,
}

abbrev version : ℕ → Version
version sequence = record {
  peer = b'a' ∷ [];
  sequence = sequence;
  id_authenticator = none;
  timestamp_ns = pos 1;
  seen = [];
  merge_base = none;
  version_authenticator = none;
  base_authenticator = none;
  entry = file (sequence ∷ []) 1 false;
}

abbrev base : ℕ → BaseVersion
base sequence = record {
  id = record { peer = b'a' ∷ []; sequence = sequence; authenticator = none };
  entry = file (sequence ∷ []) 1 false;
  authenticator = none;
}

-- Versions and bases of this form are written as their sequence.
abbrev encode : Version → Option Bytes
encode v = some (v.sequence ∷ [])

abbrev decode : Bytes → Option Version
decode (n ∷ []) = some (version n)
decode _ = none

abbrev encode_base : BaseVersion → Option Bytes
encode_base b = some (b.id.sequence ∷ [])

abbrev decode_base : Bytes → Option BaseVersion
decode_base (n ∷ []) = some (base n)
decode_base _ = none

abbrev at : ℕ → ℕ → Record
at p sequence = record { path = p ∷ []; version = version sequence }

-- The row of `a` is as before, that of `b` changes, that of `c` goes and that of `d` comes.
abbrev before : Rows
before = (b'a' ∷ [], 1 ∷ []) ∷ (b'b' ∷ [], []) ∷ (b'c' ∷ [], 3 ∷ []) ∷ []

abbrev new_records : List Record
new_records = at b'd' 5 ∷ at b'b' 4 ∷ at b'a' 1 ∷ []

replaced :
    replace_records_in encode decode before new_records
    ≡ ok ((b'a' ∷ [], 1 ∷ []) ∷ (b'b' ∷ [], 4 ∷ []) ∷ (b'd' ∷ [], 5 ∷ []) ∷ [])
unfolding replace_records_in insert_members insert_member publish_all publish stored bind_option
    delete_others keep get insert cmp_bytes version-discrete Bytes-discrete Version-discrete
    VersionId-discrete BaseVersion-discrete Entry-discrete
replaced = refl

repeated : replace_records_in encode decode before (at b'a' 1 ∷ at b'a' 1 ∷ []) ≡ err duplicate_key
unfolding replace_records_in insert_members insert_member Bytes-discrete
repeated = refl

-- `d` is acknowledged, `b` has changed since.
acknowledged :
    acknowledge_shared_heads encode_base decode_base
      (at b'd' 5 ∷ at b'b' 6 ∷ [])
      before
      (at b'd' 5 ∷ at b'b' 4 ∷ [])
    ≡ ok ((b'd' ∷ [], 5 ∷ []) ∷ [])
unfolding acknowledge_shared_heads acknowledge_loop acknowledge_one acknowledge_base is_current
    current-discrete by_path by_path_onto as_base insert_member publish stored bind_option
    delete_others keep get insert cmp_bytes head-discrete Bytes-discrete Record-discrete
    Version-discrete VersionId-discrete BaseVersion-discrete Entry-discrete
acknowledged = refl

-- The other peer has another version at `b`.
abbrev local_records : List Record
local_records = at b'd' 5 ∷ at b'b' 6 ∷ []

abbrev remote_records : List Record
remote_records = at b'b' 4 ∷ at b'd' 5 ∷ []
