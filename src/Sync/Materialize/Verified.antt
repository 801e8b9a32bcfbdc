-- ===== src/Sync/Materialize/Verified.antt =====
-- src/sync.rs: the check of a materialized plan by the peer.
use file_local.Prelude.{ℕ, suc, ◌≤◌, true, ◌≡◌, ◌≢◌, refl, ◌∙◌, some, List, [], ◌∷◌, arith, length}
use file_local.Prelude.Results.{ok, err}
use file_local.Model.{Bytes, Entry, Record, Version, VersionId, file}
use file_local.Reconcile.{MergeCandidate, Plan}
use file_local.Sync.Outcomes.{ComputedMerge, Outcome}
use file_local.Sync.Materialize.{
  Share, authenticate_record, conflicts_at, fallback_conflict, find_record, materialize_one,
  merged_record, overlap_conflicts, replace_candidate_fallback, replace_candidate_result,
  verify_loop, verify_outcome,
}
use file_local.Sync.Materialize.Edits.{
  conflicts_at_kept, conflicts_at_replaced, fallback_conflict-AreAt, find-replace,
  find-replace_other, overlap_conflicts-AreAt,
}

-- What the peer expects at a candidate's path.
abbrev pub IsVerified : Plan → MergeCandidate → Outcome → Type 0
IsVerified plan c (ok merged) =
    (r : Record) × (find_record c.path plan.records ≡ some r)
    × (r.version.entry ≡ file merged.hash (length merged.bytes) merged.executable)
    × (conflicts_at c.path plan.conflicts ≡ overlap_conflicts c r merged.hunks)
IsVerified plan c (err reason) =
    (find_record c.path plan.records ≡ some c.winner)
    × (conflicts_at c.path plan.conflicts ≡ fallback_conflict c reason ∷ [])

abbrev pub AreVerified : Plan → List MergeCandidate → List Outcome → Type 0
AreVerified plan [] os = Unit {0}
AreVerified plan (c ∷ cs) [] = Unit {0}
AreVerified plan (c ∷ cs) (o ∷ os) = IsVerified plan c o × AreVerified plan cs os

verify_outcome_ok :
    (plan : Plan) (c : MergeCandidate) (o : Outcome)
    → IsVerified plan c o
    → (r : Record) × (find_record c.path plan.records ≡ some r)
      × (verify_outcome c o r (conflicts_at c.path plan.conflicts) ≡ ok tt)
unfolding verify_outcome
verify_outcome_ok plan c (ok merged) (r, found, entry, conflicts) =
    (r, found, rw (entry, conflicts) (ground arith))
verify_outcome_ok plan c (err reason) (found, conflicts) =
    (c.winner, found, rw conflicts (ground arith))

pub verify_loop_ok :
    (plan : Plan) (cs : List MergeCandidate) (os : List Outcome)
    → AreVerified plan cs os
    → verify_loop plan cs os ≡ ok tt
unfolding verify_loop
verify_loop_ok plan [] os h = refl
verify_loop_ok plan (c ∷ cs) [] h = refl
verify_loop_ok plan (c ∷ cs) (o ∷ os) h =
    let (r, found, checked) = verify_outcome_ok plan c o h.0 in
    rw (found, checked) (verify_loop_ok plan cs os h.1)

-- The plan has the winner at the candidate's path.
abbrev pub IsCandidate : Plan → MergeCandidate → Type 0
IsCandidate plan c = (c.winner.path ≡ c.path) × (find_record c.path plan.records ≡ some c.winner)

-- Two plans agree at a path.
abbrev pub AgreeAt : Bytes → Plan → Plan → Type 0
AgreeAt p plan plan' =
    (find_record p plan'.records ≡ find_record p plan.records)
    × (conflicts_at p plan'.conflicts ≡ conflicts_at p plan.conflicts)

pub IsVerified-AgreeAt :
    (plan plan' : Plan) (c : MergeCandidate) (o : Outcome)
    → AgreeAt c.path plan plan'
    → IsVerified plan c o
    → IsVerified plan' c o
IsVerified-AgreeAt plan plan' c (ok merged) (e, f) (r, found, entry, conflicts) =
    (r, e ∙ found, entry, f ∙ conflicts)
IsVerified-AgreeAt plan plan' c (err reason) (e, f) (found, conflicts) = (e ∙ found, f ∙ conflicts)

module _ (seal_id : Bytes → ℕ → Bytes) (seal_base : VersionId → Entry → Bytes)
    (seal_version : Bytes → Version → Bytes) (peer : Bytes) where
  -- What one round of the loop does: the candidate is verified and the other paths stay.
  unfoldable pub Stepped : Share → Plan → MergeCandidate → Outcome → Type 0
  Stepped s plan c o =
      (r : Share × Plan) × (materialize_one seal_id seal_base seal_version peer s plan c o ≡ ok r)
      × IsVerified r.1 c o
      × ((p : Bytes) → p ≢ c.path → AgreeAt p plan r.1)
      × (r.1.merges ≡ plan.merges)
      × (r.0.sequence ≤ suc s.sequence)
      × (r.0.accepts ≡ s.accepts)

  merged_record_lem :
      (n : ℕ) (c : MergeCandidate) (merged : ComputedMerge)
      → let r = merged_record seal_id seal_base seal_version peer n c merged in
        (r.path ≡ c.winner.path)
        × (r.version.entry ≡ file merged.hash (length merged.bytes) merged.executable)
  unfolding merged_record authenticate_record
  merged_record_lem n c merged = (refl, refl)

  pub materialize_one-Stepped :
      (s : Share) (plan : Plan) (c : MergeCandidate) (o : Outcome)
      → IsCandidate plan c
      → ((b : Bytes) → s.accepts (suc s.sequence) b ≡ true)
      → Stepped s plan c o
  unfolding materialize_one Stepped replace_candidate_fallback replace_candidate_result
  materialize_one-Stepped s plan c (err reason) (path, found) a =
      let new = fallback_conflict c reason ∷ [] in
      let there = fallback_conflict-AreAt c reason path in
      (
        (s, replace_candidate_fallback plan c reason),
        refl,
        (found, conflicts_at_replaced c.path plan.conflicts new there),
        λ p n. (refl, conflicts_at_kept p c.path plan.conflicts new n there),
        refl,
        omega arith,
        refl,
      )
  materialize_one-Stepped s plan c (ok merged) (path, found) a =
      let result = merged_record seal_id seal_base seal_version peer (suc s.sequence) c merged in
      let (same, entry) = merged_record_lem (suc s.sequence) c merged in
      let new = overlap_conflicts c result merged.hunks in
      let there = overlap_conflicts-AreAt c result merged.hunks path in
      let (records, replaced, at_path) =
        find-replace c.path result c.winner plan.records (same ∙ path) found in
      (
        (
          record s {
            sequence = suc s.sequence;
            generated = (merged.hash, merged.bytes) ∷ s.generated;
          },
          record plan { records = records; conflicts = _ },
        ),
        rw (a merged.bytes, replaced) refl,
        (result, at_path, entry, conflicts_at_replaced c.path plan.conflicts new there),
        λ p n. (
          find-replace_other p c.path result plan.records records (same ∙ path) n replaced,
          conflicts_at_kept p c.path plan.conflicts new n there,
        ),
        refl,
        omega arith,
        refl,
      )
