-- ===== src/Model.antt =====
-- src/model.rs: the entries, versions and records that peers exchange. A `String` is the list of
-- its UTF-8 bytes, an integer type that is only compared is a number without a bound, and
-- `timestamp_ns: i64` is a signed number.
pub mod Ids
pub mod FilePath
pub mod Causality
mod Tests
use file_local.Prelude.{
  ℕ, Bool, true, false, Option, none, some, List, compare, Ordering, ◌||◌, ◌&&◌, ℕ_discrete, leb,
  any, holds,
}
use file_local.Prelude.Order.{ℤ, cmp_int, cmp_bytes, then_with}

abbrev pub Bytes : Type 0
Bytes = List ℕ

unfoldable pub Bytes-discrete : Discrete Bytes
unfolding ℕ_discrete
Bytes-discrete = hlevel ℕ_discrete

-- `ObjectHash`, `PeerId`, `ShareId` and `RelativePath` are newtypes of bytes here; their checks are
-- in `Ids` and `FilePath`.
pub data Entry : Type 0 where
  file : (hash : Bytes) (size : ℕ) (executable : Bool) → Entry
  directory : Entry
  symlink : (target : Bytes) → Entry
  tombstone : Entry

unfoldable pub Entry-discrete : Discrete Entry
unfolding ℕ_discrete
Entry-discrete = hlevel ℕ_discrete

-- `matches!(entry, Entry::File { .. })`.
abbrev pub is_file : Entry → Bool
is_file (file hash size executable) = true
is_file directory = false
is_file (symlink target) = false
is_file tombstone = false

pub record VersionId : Type 0 where
  pub peer : Bytes
  pub sequence : ℕ
  pub authenticator : Option Bytes

unfoldable pub VersionId-discrete : Discrete VersionId
unfolding ℕ_discrete
VersionId-discrete = hlevel ℕ_discrete

pub record BaseVersion : Type 0 where
  pub id : VersionId
  pub entry : Entry
  pub authenticator : Option Bytes

unfoldable pub BaseVersion-discrete : Discrete BaseVersion
unfolding VersionId-discrete Entry-discrete ℕ_discrete
BaseVersion-discrete = hlevel (VersionId-discrete, Entry-discrete, ℕ_discrete)

pub record Version : Type 0 where
  pub peer : Bytes
  pub sequence : ℕ
  pub id_authenticator : Option Bytes
  pub timestamp_ns : ℤ
  pub seen : List VersionId
  pub merge_base : Option BaseVersion
  pub version_authenticator : Option Bytes
  pub base_authenticator : Option Bytes
  pub entry : Entry

unfoldable pub Version-discrete : Discrete Version
unfolding VersionId-discrete BaseVersion-discrete Entry-discrete ℕ_discrete
Version-discrete = hlevel (VersionId-discrete, BaseVersion-discrete, Entry-discrete, ℕ_discrete)

pub record Record : Type 0 where
  pub path : Bytes
  pub version : Version

unfoldable pub Record-discrete : Discrete Record
unfolding Version-discrete ℕ_discrete
Record-discrete = hlevel (Version-discrete, ℕ_discrete)

-- `Version::id`.
abbrev pub version_id : Version → VersionId
version_id v = record { peer = v.peer; sequence = v.sequence; authenticator = v.id_authenticator }

as_base_of : Version → Entry → Option BaseVersion
as_base_of v (file hash size executable) = some (record {
  id = version_id v;
  entry = file hash size executable;
  authenticator = v.base_authenticator;
})
as_base_of v _ = none

-- `Version::as_base`.
unfoldable pub as_base : Version → Option BaseVersion
unfolding as_base_of
as_base v = as_base_of v v.entry

-- `Version::has_seen`.
unfoldable pub has_seen : Version → VersionId → Bool
unfolding VersionId-discrete Bytes-discrete
has_seen v other =
    holds (VersionId-discrete (version_id v) other)
    || any (λ seen. holds (Bytes-discrete seen.peer other.peer) && leb other.sequence seen.sequence)
        v.seen

-- `Version::lww_cmp`: the last writer, with ties broken by peer and sequence.
unfoldable pub lww_cmp : Version → Version → Ordering
unfolding cmp_int cmp_bytes
lww_cmp a b =
    then_with (then_with (cmp_int a.timestamp_ns b.timestamp_ns) (cmp_bytes a.peer b.peer))
      (compare a.sequence b.sequence)
