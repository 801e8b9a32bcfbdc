-- ===== src/Sync/Materialize/Shape/Sound.antt =====
-- src/sync.rs: what a plan that passes `validate_materialized_plan_shape` can change.
use file_local.Prelude.{
  All-map, ◌+◌, ◌≤◌, refl, ◌==◌, ℕ, ◌≡◌, none, some, List, [], ◌∷◌, ◌&&◌, arith, All, any, ◌⊎◌, inl,
  inr, Bool-cases, Option-cases, length, ◌≢◌, Any, Bool, true, false, sym, ap, ◌∙◌, subst,
}
use file_local.Prelude.Results.{first_ok, ok}
use file_local.Prelude.Sorted.{get}
use file_local.Model.{Bytes, Record}
use file_local.Merge.Types.{max_output_bytes}
use file_local.Sync.Outcomes.{max_round_bytes}
use file_local.Reconcile.{
  Conflict, ConflictResolution, destructive, merged_with_overlaps, whole_file, MergeCandidate, Plan,
  by_path,
}
use file_local.Sync.Materialize.{is_path}
use file_local.Sync.Materialize.Edits.{is_path_eq, is_path_self}
use file_local.Sync.Materialize.Shape.{
  ShapeState, check_candidates, is_candidate_path, check_merged, check_record, check_records,
  find_candidate, greatest_sequence, ordinary_conflicts, is_whole_file,
  validate_materialized_plan_shape,
}
use file_local.Sync.Materialize.Shape.Conflicts.{
  IsOutcome, check_candidates-IsOutcome, conflicts_of, conflicts_of-ordinary, is_candidate_path-Any,
}
use file_local.Sync.Materialize.Shape.Merged.{
  Adds, IsMerge, check_merged-Adds, check_merged-IsMerge, size_of, total_size,
}

-- The conflict keeps the whole file of one side.
abbrev pub IsWholeFile : ConflictResolution → Type 0
IsWholeFile (whole_file winner reason) = Unit {0}
IsWholeFile _ = ⊥

is_whole_file_lem : (k : ConflictResolution) → is_whole_file k ≡ true → IsWholeFile k
is_whole_file_lem (whole_file winner reason) h = tt
is_whole_file_lem (destructive winner) h = cc
is_whole_file_lem merged_with_overlaps h = cc

-- The record is put in place of the expected one without a merge: it is the same record if no
-- candidate is at its path, else the winner of a candidate there, with a whole-file conflict.
abbrev pub IsUnmerged : Plan → Plan → Record → Record → Type 0
IsUnmerged proposed expected r q =
    (All (λ c. c.path ≢ r.path) expected.merges × (q ≡ r))
    ⊎ ((c : MergeCandidate) × Any (λ d. d ≡ c) expected.merges
        × (c.path ≡ r.path)
        × (q ≡ c.winner)
        × Any (λ k. (k.path ≡ r.path) × IsWholeFile k.resolution) proposed.conflicts)

-- Each expected record is kept, or is replaced by the merge of a candidate at its path; the merges are
-- the records of the second list, in order.
abbrev pub AreKept : Plan → Plan → Bytes → List Record → List Record → Type 0
AreKept proposed expected connector [] ms = ms ≡ []
AreKept proposed expected connector (r ∷ rs) ms =
    (q : Record) × (get r.path (by_path proposed.records) ≡ some q)
    × ((IsUnmerged proposed expected r q × AreKept proposed expected connector rs ms)
        ⊎ ((c : MergeCandidate) × Any (λ d. d ≡ c) expected.merges
            × (c.path ≡ r.path)
            × IsMerge expected connector c q
            × ((qs : List Record) × (ms ≡ q ∷ qs) × AreKept proposed expected connector rs qs)))

-- The sequence numbers are different.
abbrev pub AreDistinct : List Record → Type 0
AreDistinct [] = Unit {0}
AreDistinct (q ∷ qs) = All (λ p. p.version.sequence ≢ q.version.sequence) qs × AreDistinct qs

find_candidate-none :
    (p : Bytes) (cs : List MergeCandidate) → find_candidate p cs ≡ none → All (λ c. c.path ≢ p) cs
unfolding find_candidate
find_candidate-none p [] h = tt
find_candidate-none p (c ∷ cs) h = elim (Bool-cases (is_path p c.path)) [
  | inl e ↦ ground arith
  | inr e ↦ (
    λ same. apart (subst (λ q. is_path p q ≡ true) (sym same) (is_path_self p)) e,
    find_candidate-none p cs (ground arith),
  )
]
  where
    apart : {b : Bool} → b ≡ true → b ≡ false → ⊥
    apart x y = cc

find_candidate-some :
    (p : Bytes) (cs : List MergeCandidate) (c : MergeCandidate)
    → find_candidate p cs ≡ some c
    → Any (λ d. d ≡ c) cs × (c.path ≡ p)
unfolding find_candidate
find_candidate-some p [] c h = cc
find_candidate-some p (d ∷ cs) c h = elim (Bool-cases (is_path p d.path)) [
  | inl e ↦
      let same : d ≡ c = ground arith in
      (inl same, ap (λ (x : MergeCandidate). x.path) (sym same) ∙ is_path_eq p d.path e)
  | inr e ↦ let (there, at_p) = find_candidate-some p cs c (ground arith) in (inr there, at_p)
]

any-IsWholeFile :
    (p : Bytes) (ks : List Conflict)
    → any (λ k. is_path p k.path && is_whole_file k.resolution) ks ≡ true
    → Any (λ k. (k.path ≡ p) × IsWholeFile k.resolution) ks
any-IsWholeFile p [] h = cc
any-IsWholeFile p (k ∷ ks) h = elim (Bool-cases (is_path p k.path && is_whole_file k.resolution)) [
  | inl e ↦ inl (is_path_eq p k.path (ground arith), is_whole_file_lem k.resolution (ground arith))
  | inr e ↦ inr (any-IsWholeFile p ks (ground arith))
]

module _ (proposed expected : Plan) (connector : Bytes) where
  -- What an accepted record is, with the change of the loop's variables.
  abbrev Stepped : ShapeState → ShapeState → Record → Type 0
  Stepped st st' r =
      (q : Record) × (get r.path (by_path proposed.records) ≡ some q)
      × ((IsUnmerged proposed expected r q × (st ≡ st'))
          ⊎ ((c : MergeCandidate) × Any (λ d. d ≡ c) expected.merges
              × (c.path ≡ r.path)
              × IsMerge expected connector c q
              × Adds st st' q))

  check_record-Stepped :
      (st st' : ShapeState) (r : Record)
      → check_record proposed expected connector st r ≡ ok st'
      → Stepped st st' r
  unfolding check_record
  check_record-Stepped st st' r h = elim (Option-cases (get r.path (by_path proposed.records))) [
    | inl e ↦ ground arith
    | inr (q, e) ↦ elim (Option-cases (find_candidate r.path expected.merges)) [
      | inl f ↦ (
        q,
        e,
        inl (inl (find_candidate-none r.path expected.merges f, ground arith), ground arith),
      )
      | inr (c, f) ↦
          let (there, at_path) = find_candidate-some r.path expected.merges c f in
          elim (Bool-cases
            (any (λ k. is_path r.path k.path && is_whole_file k.resolution) proposed.conflicts)) [
              | inl g ↦ (
                q,
                e,
                inl (
                  inr (
                    c,
                    there,
                    at_path,
                    ground arith,
                    any-IsWholeFile r.path proposed.conflicts g,
                  ),
                  ground arith,
                ),
              )
              | inr g ↦
                  let merged : check_merged connector (greatest_sequence connector expected) st c q
                      ≡ ok st' =
                    ground arith in
                  (
                    q,
                    e,
                    inr (
                      c,
                      there,
                      at_path,
                      check_merged-IsMerge expected connector st st' c q merged,
                      check_merged-Adds connector _ st st' c q merged,
                    ),
                  )
            ]
    ]
  ]

  -- The merges of the rest of the loop, within what is left of the limits.
  pub record Merges (st : ShapeState) (rs ms : List Record) : Type 0 where
    pub kept : AreKept proposed expected connector rs ms
    pub distinct : AreDistinct ms
    pub fresh : All (λ q. any (λ n. n == q.version.sequence) st.sequences ≡ false) ms
    pub fit : All (λ q. size_of q.version.entry ≤ max_output_bytes) ms
    pub all_fit :
        st.merged_bytes ≤ max_round_bytes → st.merged_bytes + total_size ms ≤ max_round_bytes

  merge-Merges :
      (st st' : ShapeState) (r : Record) (rs ms : List Record) (c : MergeCandidate) (q : Record)
      → get r.path (by_path proposed.records) ≡ some q
      → Any (λ d. d ≡ c) expected.merges
      → c.path ≡ r.path
      → IsMerge expected connector c q
      → Adds st st' q
      → Merges st' rs ms
      → Merges st (r ∷ rs) (q ∷ ms)
  merge-Merges st st' r rs ms c q e there at_path merged adds rest =
      let apart =
        All-map (λ (p : Record). any (λ n. n == p.version.sequence) st'.sequences ≡ false)
          (λ p.
            (p.version.sequence ≢ q.version.sequence)
            × (any (λ n. n == p.version.sequence) st.sequences ≡ false))
          ms (λ p away. listed_apart st.sequences st'.sequences q p adds.listed away) rest.fresh in
      record {
        kept = (q, e, inr (c, there, at_path, merged, (ms, refl, rest.kept)));
        distinct = (All-map _ _ ms (λ p both. both.0) apart, rest.distinct);
        fresh = (adds.is_new, All-map _ _ ms (λ p both. both.1) apart);
        fit = (adds.fits, rest.fit);
        all_fit = λ h. omega (arith, adds.counted, rest.all_fit adds.all_fit);
      }
    where
      listed_apart :
          (ns ns' : List ℕ) (q p : Record)
          → ns' ≡ q.version.sequence ∷ ns
          → any (λ n. n == p.version.sequence) ns' ≡ false
          → (p.version.sequence ≢ q.version.sequence)
            × (any (λ n. n == p.version.sequence) ns ≡ false)
      listed_apart ns ns' q p e h = let h' = rw e at h in (λ same. ground arith, ground arith)

  check_records-Merges :
      (st : ShapeState) (rs : List Record)
      → check_records proposed expected connector st rs ≡ ok tt
      → (ms : List Record) × Merges st rs ms
  unfolding check_records
  check_records-Merges st [] h = (
    [],
    record { kept = refl; distinct = tt; fresh = tt; fit = tt; all_fit = λ le. omega (arith, le) },
  )
  check_records-Merges st (r ∷ rs) h =
      let (st', (first, later)) =
        first_ok (λ st'. check_records proposed expected connector st' rs)
          (check_record proposed expected connector st r) tt h in
      let (ms, rest) = check_records-Merges st' rs later in
      let (q, e, how) = check_record-Stepped st st' r first in
      elim how [
        | inl (unmerged, same) ↦ (
          ms,
          record {
            kept = (q, e, inl (unmerged, rest.kept));
            distinct = rest.distinct;
            fresh = rw same rest.fresh;
            fit = rest.fit;
            all_fit = rw same rest.all_fit;
          },
        )
        | inr (c, there, at_path, merged, adds) ↦
            (q ∷ ms, merge-Merges st st' r rs ms c q e there at_path merged adds rest)
      ]

-- A plan that `validate_materialized_plan_shape` accepts has the expected merge candidates and as
-- many records as expected. Each expected record is in it as it is, unless it is at a candidate's
-- path: there the plan has the winner, with a whole-file conflict, or a merge by the connector that
-- differs from the winner only as a merge does, under a sequence number past all that the connector
-- has used in the expected plan, and with all three authenticators. The merges have different
-- sequence numbers, at most 512 KiB each and at most 2 MiB together. Every path has the expected
-- conflicts, unless it is a candidate's: there is no conflict, or one with the candidate's base and
-- inputs.
pub validate_shape-IsKept :
    (proposed expected : Plan) (connector : Bytes)
    → validate_materialized_plan_shape proposed expected connector ≡ ok tt
    → (proposed.merges ≡ expected.merges)
      × ((ms : List Record) × AreKept proposed expected connector expected.records ms
          × AreDistinct ms
          × All (λ q. size_of q.version.entry ≤ max_output_bytes) ms
          × (total_size ms ≤ max_round_bytes))
      × (length proposed.records ≡ length expected.records)
      × ((p : Bytes)
          → Any (λ c. c.path ≡ p) expected.merges
            ⊎ (conflicts_of p proposed.conflicts ≡ conflicts_of p expected.conflicts))
      × All (λ c. IsOutcome c (conflicts_of c.path proposed.conflicts)) expected.merges
unfolding validate_materialized_plan_shape
validate_shape-IsKept proposed expected connector h =
    let st : ShapeState = record { sequences = []; merged_bytes = 0 } in
    let records : check_records proposed expected connector st expected.records ≡ ok tt =
      ground arith in
    let (ms, found) =
      check_records-Merges proposed expected connector st expected.records records in
    let ordinary : ordinary_conflicts expected.merges proposed.conflicts
        ≡ ordinary_conflicts expected.merges expected.conflicts =
      ground arith in
    let candidates : check_candidates proposed expected.merges ≡ ok tt = ground arith in
    (
      ground arith,
      (ms, found.kept, found.distinct, found.fit, omega (arith, found.all_fit (omega arith))),
      ground arith,
      λ p. elim (Bool-cases (is_candidate_path expected.merges p)) [
        | inl e ↦ inl (is_candidate_path-Any p expected.merges e)
        | inr e ↦ inr (
            sym (conflicts_of-ordinary p expected.merges proposed.conflicts e)
            ∙ ap (conflicts_of p) ordinary
            ∙ conflicts_of-ordinary p expected.merges expected.conflicts e)
      ],
      check_candidates-IsOutcome proposed expected.merges candidates,
    )
