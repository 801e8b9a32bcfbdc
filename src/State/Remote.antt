-- ===== src/State/Remote.antt =====
-- src/state.rs: `validate_remote_records`, by which a peer checks the records that the other sends
-- before anything is made of them. The keyed hashes of the authenticators are parameters, for the
-- peer's key and the share; the map of canonical records is a list, the last insertion first.
pub mod Sound
pub mod Accepted
mod Tests
use file_local.Prelude.{
  ℕ, Bool, true, false, not, Option, none, some, List, [], ◌∷◌, ◌||◌, ◌&&◌, ◌==◌, any, holds,
  if◌then◌else◌,
}
use file_local.Prelude.Results.{Result, ok, err, ◌>>=◌, ◌>>◌, guard}
use file_local.Model.{
  BaseVersion, Bytes, Bytes-discrete, Entry, Record, Record-discrete, Version, VersionId,
  version_id,
}
use file_local.Sync.Materialize.{is_path, version_tag}

pub data RemoteError : Type 0 where
  duplicate_path contradictory forged_id forged_base forged_version : RemoteError

-- The record is kept under this peer and sequence.
unfoldable pub has_identity : Version → Record → Bool
has_identity v r = holds (Bytes-discrete r.version.peer v.peer) && r.version.sequence == v.sequence

-- `HashMap::get`.
unfoldable pub get_canonical : Version → List Record → Option Record
get_canonical v [] = none
get_canonical v (r ∷ rs) =
    let rest = get_canonical v rs in if has_identity v r then some r else rest

-- What `insert` returned is another record.
abbrev pub contradicts : Option Record → Record → Bool
contradicts none r = false
contradicts (some previous) r = not (holds (Record-discrete previous r))

unfoldable pub insert_canonical_record : List Record → Record → Result (List Record) RemoteError
insert_canonical_record canonical r = do
  guard (not (contradicts (get_canonical r.version canonical) r)) contradictory
  ok (r ∷ canonical)

unfoldable pub insert_all : List Record → List Record → Result (List Record) RemoteError
insert_all canonical [] = ok canonical
insert_all canonical (r ∷ rs) = do
  canonical' ← insert_canonical_record canonical r
  insert_all canonical' rs

unfoldable pub authenticator-discrete : Discrete (Option Bytes)
authenticator-discrete = hlevel Bytes-discrete

abbrev is_absent : Option Bytes → Bool
is_absent none = true
is_absent (some tag) = false

abbrev pub is_untagged : Version → Bool
is_untagged v =
    is_absent v.id_authenticator
    && is_absent v.version_authenticator
    && is_absent v.base_authenticator

-- `is_some_and(|local_record| *local_record == record)`.
abbrev pub is_record : Option Record → Record → Bool
is_record none r = false
is_record (some a) r = holds (Record-discrete a r)

module _ (seal_id : Bytes → ℕ → Bytes) (seal_base : VersionId → Entry → Bytes)
    (seal_version : Bytes → Version → Bytes) (local : Bytes) where
  unfoldable pub validate_owned_id : VersionId → Result (Unit {0}) RemoteError
  validate_owned_id id =
      if not (holds (Bytes-discrete id.peer local))
      then ok tt
      else guard
          (holds (authenticator-discrete id.authenticator (some (seal_id id.peer id.sequence))))
          forged_id

  unfoldable pub validate_owned_ids : List VersionId → Result (Unit {0}) RemoteError
  validate_owned_ids [] = ok tt
  validate_owned_ids (id ∷ ids) = do validate_owned_id id; validate_owned_ids ids

  unfoldable pub validate_base : Option BaseVersion → Result (Unit {0}) RemoteError
  validate_base none = ok tt
  validate_base (some base) = do
    validate_owned_id base.id
    guard
        (not (holds (Bytes-discrete base.id.peer local))
          || holds
              (authenticator-discrete base.authenticator (some (seal_base base.id base.entry))))
        forged_base

  unfoldable pub validate_version : Record → Result (Unit {0}) RemoteError
  validate_version r =
      guard
        (not (holds (Bytes-discrete r.version.peer local))
          || holds (
              authenticator-discrete r.version.version_authenticator
                (some (version_tag seal_id seal_base seal_version r.path r.version))))
        forged_version

  -- The body of the loop over the remote records, with the paths so far.
  unfoldable pub validate_record :
      List Bytes → List Record → Record → Result (List Record) RemoteError
  validate_record seen canonical r = do
    guard (not (any (is_path r.path) seen)) duplicate_path
    (if is_untagged r.version && is_record (get_canonical r.version canonical) r
        then ok canonical
        else (do
          validate_owned_id (version_id r.version)
          validate_owned_ids r.version.seen
          validate_base r.version.merge_base
          validate_version r
          insert_canonical_record canonical r))

  unfoldable pub validate_loop :
      List Bytes → List Record → List Record → Result (Unit {0}) RemoteError
  validate_loop seen canonical [] = ok tt
  validate_loop seen canonical (r ∷ rs) = do
    canonical' ← validate_record seen canonical r
    validate_loop (r.path ∷ seen) canonical' rs

  unfoldable pub validate_remote_records : List Record → List Record → Result (Unit {0}) RemoteError
  validate_remote_records local_records remote_records = do
    canonical ← insert_all [] local_records
    validate_loop [] canonical remote_records
