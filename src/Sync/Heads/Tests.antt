-- ===== src/Sync/Heads/Tests.antt =====
-- Runs of the intersection of heads, and its theorems at concrete data.
use file_local.Prelude.{◌≡◌, refl, ℕ, false, none, List, [], ◌∷◌, keep}
use file_local.Prelude.Order.{cmp_bytes, pos}
use file_local.Prelude.Results.{ok, err}
use file_local.Prelude.Sort.{insert_by, sort_by}
use file_local.Prelude.Sorted.{get, insert}
use file_local.Model.{
  BaseVersion-discrete, Bytes-discrete, Entry, Entry-discrete, Record, Record-discrete,
  Version-discrete, VersionId-discrete, directory, file,
}
use file_local.Reconcile.{by_path, by_path_onto}
use file_local.Sync.Heads.{
  are_unique, current-discrete, duplicate_paths, intersect_heads, is_current, regular_file_heads,
  validate_ack_heads, validate_unique_paths,
}
use file_local.Sync.Heads.Agreement.{intersect_heads_comm, validate_ack_heads-intersect_heads}

abbrev at : ℕ → ℕ → Entry → Record
at p sequence entry = record {
  path = p ∷ [];
  version = record {
    peer = b'a' ∷ [];
    sequence = sequence;
    id_authenticator = none;
    timestamp_ns = pos 1;
    seen = [];
    merge_base = none;
    version_authenticator = none;
    base_authenticator = none;
    entry = entry;
  };
}

-- The two sides share `a` and a directory; they differ at `b`.
abbrev local_records : List Record
local_records =
    at b'b' 2 (file (2 ∷ []) 2 false) ∷ at b'd' 3 directory ∷ at b'a' 1 (file (1 ∷ []) 1 false) ∷ []

abbrev remote_records : List Record
remote_records =
    at b'a' 1 (file (1 ∷ []) 1 false) ∷ at b'd' 3 directory ∷ at b'b' 4 (file (2 ∷ []) 2 false) ∷ []

shared_heads :
    intersect_heads local_records remote_records ≡ ok (at b'a' 1 (file (1 ∷ []) 1 false) ∷ [])
unfolding intersect_heads validate_unique_paths are_unique regular_file_heads sort_by insert_by keep
    is_current current-discrete by_path by_path_onto get insert cmp_bytes Bytes-discrete
    Record-discrete Version-discrete VersionId-discrete BaseVersion-discrete Entry-discrete
shared_heads = refl

repeated_path :
    intersect_heads (local_records) (at b'e' 1 directory ∷ at b'e' 2 directory ∷ [])
    ≡ err duplicate_paths
unfolding intersect_heads validate_unique_paths are_unique Bytes-discrete
repeated_path = refl

intersect_heads_comm_example :
    intersect_heads local_records remote_records ≡ intersect_heads remote_records local_records
intersect_heads_comm_example = intersect_heads_comm local_records remote_records

validate_ack_heads-intersect_heads_example :
    (validate_ack_heads local_records (at b'a' 1 (file (1 ∷ []) 1 false) ∷ []) ≡ ok tt)
    × (validate_ack_heads remote_records (at b'a' 1 (file (1 ∷ []) 1 false) ∷ []) ≡ ok tt)
validate_ack_heads-intersect_heads_example =
    validate_ack_heads-intersect_heads local_records remote_records
      (at b'a' 1 (file (1 ∷ []) 1 false) ∷ []) shared_heads
