-- ===== src/Sync/Materialize/Causality.antt =====
-- src/sync.rs: what the version of a merge has seen.
use file_local.Prelude.{ℕ, ◌≡◌, true, [], arith, ◌||◌}
use file_local.Model.{Bytes, Entry, Version, VersionId, has_seen}
use file_local.Reconcile.{MergeCandidate}
use file_local.Sync.Outcomes.{ComputedMerge}
use file_local.Sync.Materialize.{authenticate_record, merged_record}
use file_local.Sync.Seen.{has_seen-knows, knows, remember_version, remember_version-knows}

has_seen_of_knows : (v : Version) (id : VersionId) → knows v.seen id ≡ true → has_seen v id ≡ true
unfolding has_seen
has_seen_of_knows v id h = ground arith

module _ (seal_id : Bytes → ℕ → Bytes) (seal_base : VersionId → Entry → Bytes)
    (seal_version : Bytes → Version → Bytes) where
  -- The version of a merge has seen both inputs and every version that either of them has seen.
  pub merged_record-has_seen :
      (peer : Bytes) (n : ℕ) (c : MergeCandidate) (merged : ComputedMerge) (id : VersionId)
      → (has_seen c.winner.version id || has_seen c.loser.version id) ≡ true
      → has_seen (merged_record seal_id seal_base seal_version peer n c merged).version id ≡ true
  unfolding merged_record authenticate_record
  merged_record-has_seen peer n c merged id h =
      let seen = remember_version (remember_version [] c.winner.version) c.loser.version in
      has_seen_of_knows _ id (
        ground (
          arith,
          remember_version-knows (remember_version [] c.winner.version) c.loser.version id,
          remember_version-knows [] c.winner.version id,
          has_seen-knows c.winner.version id,
          has_seen-knows c.loser.version id,
        ))
