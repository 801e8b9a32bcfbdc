-- ===== src/State/Remote/Tests.antt =====
-- Runs of the validation of a snapshot, and its theorems at concrete data.
use file_local.Prelude.{ℕ, ◌≡◌, refl, Option, none, some, List, [], ◌∷◌, false, All}
use file_local.Prelude.Order.{pos}
use file_local.Prelude.Results.{ok, err}
use file_local.Model.{
  BaseVersion-discrete, Bytes, Bytes-discrete, Entry, Entry-discrete, Record, Record-discrete,
  Version, Version-discrete, VersionId, VersionId-discrete, directory, file,
}
use file_local.Sync.Materialize.{version_tag}
use file_local.State.Remote.{
  authenticator-discrete, contradictory, forged_id, get_canonical, has_identity, insert_all,
  insert_canonical_record, validate_base, validate_loop, validate_owned_id, validate_owned_ids,
  validate_record, validate_remote_records, validate_version,
}
use file_local.State.Remote.Accepted.{
  HaveOneIdentity, IsVouched, validate_remote_records-HaveOneIdentity,
  validate_remote_records-IsVouched,
}

abbrev seal_id : Bytes → ℕ → Bytes
seal_id peer n = 1 ∷ n ∷ peer

abbrev seal_base : VersionId → Entry → Bytes
seal_base id e = 2 ∷ id.peer

abbrev seal_version : Bytes → Version → Bytes
seal_version p v = 3 ∷ p

abbrev peer_a : Bytes
peer_a = b'a' ∷ []

abbrev peer_b : Bytes
peer_b = b'b' ∷ []

abbrev record_of : Bytes → Bytes → ℕ → List VersionId → Entry → Record
record_of p peer sequence seen entry = record {
  path = p;
  version = record {
    peer = peer;
    sequence = sequence;
    id_authenticator = none;
    timestamp_ns = pos 1;
    seen = seen;
    merge_base = none;
    version_authenticator = none;
    base_authenticator = none;
    entry = entry;
  };
}

abbrev own_id : Option Bytes → VersionId
own_id tag = record { peer = peer_a; sequence = 1; authenticator = tag }

-- An old record of the peer `a`, which has no authenticators, and one by the peer `b` that has seen it.
abbrev old_record : Record
old_record = record_of (b'd' ∷ []) peer_a 1 [] directory

abbrev new_record : Option Bytes → Record
new_record tag = record_of (b'f' ∷ []) peer_b 1 (own_id tag ∷ []) (file (7 ∷ []) 1 false)

accepted :
    validate_remote_records seal_id seal_base seal_version peer_a
      (old_record ∷ [])
      (old_record ∷ new_record (some (1 ∷ 1 ∷ peer_a)) ∷ [])
    ≡ ok tt
unfolding validate_remote_records validate_loop validate_record validate_base validate_version
    validate_owned_id validate_owned_ids authenticator-discrete get_canonical has_identity
    insert_all insert_canonical_record Bytes-discrete Record-discrete Version-discrete
    VersionId-discrete BaseVersion-discrete Entry-discrete version_tag
accepted = refl

forged :
    validate_remote_records seal_id seal_base seal_version peer_a
      (old_record ∷ [])
      (new_record (some (9 ∷ [])) ∷ [])
    ≡ err forged_id
unfolding validate_remote_records validate_loop validate_record validate_base validate_version
    validate_owned_id validate_owned_ids authenticator-discrete get_canonical has_identity
    insert_all insert_canonical_record Bytes-discrete Record-discrete Version-discrete
    VersionId-discrete BaseVersion-discrete Entry-discrete version_tag
forged = refl

contradicted :
    validate_remote_records seal_id seal_base seal_version peer_a
      (new_record none ∷ [])
      (record_of (b'g' ∷ []) peer_b 1 [] directory ∷ [])
    ≡ err contradictory
unfolding validate_remote_records validate_loop validate_record validate_base validate_version
    validate_owned_id validate_owned_ids authenticator-discrete get_canonical has_identity
    insert_all insert_canonical_record Bytes-discrete Record-discrete Version-discrete
    VersionId-discrete BaseVersion-discrete Entry-discrete version_tag
contradicted = refl

validate_remote_records-HaveOneIdentity_example :
    HaveOneIdentity (old_record ∷ []) (old_record ∷ [])
    × HaveOneIdentity (old_record ∷ []) (old_record ∷ new_record (some (1 ∷ 1 ∷ peer_a)) ∷ [])
    × HaveOneIdentity
        (old_record ∷ new_record (some (1 ∷ 1 ∷ peer_a)) ∷ [])
        (old_record ∷ new_record (some (1 ∷ 1 ∷ peer_a)) ∷ [])
validate_remote_records-HaveOneIdentity_example =
    validate_remote_records-HaveOneIdentity seal_id seal_base seal_version peer_a (old_record ∷ [])
      (old_record ∷ new_record (some (1 ∷ 1 ∷ peer_a)) ∷ []) accepted

validate_remote_records-IsVouched_example :
    All
      (IsVouched seal_id seal_base seal_version peer_a (old_record ∷ []))
      (old_record ∷ new_record (some (1 ∷ 1 ∷ peer_a)) ∷ [])
validate_remote_records-IsVouched_example =
    validate_remote_records-IsVouched seal_id seal_base seal_version peer_a (old_record ∷ [])
      (old_record ∷ new_record (some (1 ∷ 1 ∷ peer_a)) ∷ []) accepted
