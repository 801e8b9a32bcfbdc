-- ===== src/Sync/Outcomes/Budget.antt =====
-- src/sync.rs: the budget of the merges of a round.
use file_local.Prelude.{
  ℕ, suc, ◌+◌, ◌≤◌, ◌<◌, ◌≡◌, refl, true, not, Option, List, [], ◌∷◌, ◌||◌, leb, length, arith,
  Bool-cases, inl, inr, ◌-◌,
}
use file_local.Prelude.Results.{Result, ok, err, ◌>>=◌}
use file_local.Model.{Bytes, Entry, file, directory, symlink, tombstone}
use file_local.Merge.{comparison_work, merge}
use file_local.Merge.Grouping.{Safe}
use file_local.Merge.Patch.{IsDiff}
use file_local.Merge.Steps.{Anything}
use file_local.Merge.Safety.{comparison_work-Safe, merge-Safe}
use file_local.Merge.Types.{max_work, DiffOp, Failure, MergeResult, fallback, panicked, out_of_fuel}
use file_local.Reconcile.{MergeCandidate}
use file_local.Sync.Outcomes.{
  out_of_order, not_a_file, unreadable, missing_record, differs, store_failed, crashed,
  candidate_file_sizes, file_parts, is_oversized, read_candidate, in_path_order, MergeInput,
  max_round_work, Outcome, PlanError, RoundMerges, compute_merge_outcomes, max_candidates,
  max_round_bytes, max_round_hunks, outcome_of, outcomes_loop, spend_output, spend_work, unspent,
  candidate_file_sizes, read_candidate, overspends,
}

-- The code returns a value with the property, or one of the three errors of a round's merges.
abbrev pub Returns {ℓ} : {A : Type ℓ} → (A → Type 0) → Result A PlanError → Type 0
Returns P (ok a) = P a
Returns P (err (crashed f)) = ⊥
Returns P (err out_of_order) = Unit
Returns P (err not_a_file) = Unit
Returns P (err unreadable) = Unit
Returns P (err missing_record) = ⊥
Returns P (err differs) = ⊥
Returns P (err store_failed) = ⊥

Returns-bind {ℓ κ} :
    {A : Type ℓ} {B : Type κ} (Q : A → Type 0) (P : B → Type 0) (m : Result A PlanError)
    (f : A → Result B PlanError)
    → Returns Q m
    → ((a : A) → Q a → Returns P (f a))
    → Returns P (m >>= f)
Returns-bind Q P (ok a) f h k = k a h
Returns-bind Q P (err out_of_order) f h k = tt
Returns-bind Q P (err not_a_file) f h k = tt
Returns-bind Q P (err unreadable) f h k = tt
Returns-bind Q P (err missing_record) f h k = absurd h
Returns-bind Q P (err differs) f h k = absurd h
Returns-bind Q P (err store_failed) f h k = absurd h
Returns-bind Q P (err (crashed x)) f h k = absurd h

abbrev hunks_of : Outcome → ℕ
hunks_of (ok m) = length m.hunks
hunks_of (err reason) = 0

abbrev bytes_of : Outcome → ℕ
bytes_of (ok m) = length m.bytes
bytes_of (err reason) = 0

abbrev one_if_merged : Outcome → ℕ
one_if_merged (ok m) = 1
one_if_merged (err reason) = 0

one_if_merged_bound : (o : Outcome) → one_if_merged o ≤ 1
one_if_merged_bound (ok m) = omega arith
one_if_merged_bound (err reason) = omega arith

abbrev pub total : (Outcome → ℕ) → List Outcome → ℕ
total f [] = 0
total f (o ∷ os) = f o + total f os

-- The outcomes of a round, within its limits.
pub record AreWithin (cs : List MergeCandidate) (os : List Outcome) : Type 0 where
  pub one_each : length os ≡ length cs
  pub merged : total one_if_merged os ≤ max_candidates
  pub hunks : total hunks_of os ≤ max_round_hunks
  pub bytes : total bytes_of os ≤ max_round_bytes

-- One candidate's outcome is paid for, and a merge is made only before the limits are met.
record IsPaid (index : ℕ) (b : RoundMerges) (r : Outcome × RoundMerges) : Type 0 where
  pub hunks : b.hunks + hunks_of r.0 ≤ r.1.hunks
  pub bytes : b.output + bytes_of r.0 ≤ r.1.output
  pub hunks_fit : b.hunks ≤ max_round_hunks → r.1.hunks ≤ max_round_hunks
  pub bytes_fit : b.output ≤ max_round_bytes → r.1.output ≤ max_round_bytes
  pub early : one_if_merged r.0 ≤ max_candidates - index

Returns-map {ℓ} :
    {A : Type ℓ} (Q P : A → Type 0) (m : Result A PlanError)
    → ((a : A) → Q a → Returns P (ok a))
    → Returns Q m
    → Returns P m
Returns-map Q P (ok a) f h = f a h
Returns-map Q P (err out_of_order) f h = tt
Returns-map Q P (err not_a_file) f h = tt
Returns-map Q P (err unreadable) f h = tt
Returns-map Q P (err missing_record) f h = absurd h
Returns-map Q P (err differs) f h = absurd h
Returns-map Q P (err store_failed) f h = absurd h
Returns-map Q P (err (crashed x)) f h = absurd h

weaken :
    (index : ℕ) (b next : RoundMerges) (m : Result (Outcome × RoundMerges) PlanError)
    → b.hunks ≡ next.hunks
    → b.output ≡ next.output
    → Returns (IsPaid index next) m
    → Returns (IsPaid index b) m
weaken index b next m e f h =
    Returns-map (IsPaid index next) (IsPaid index b) m (λ r paid. ground arith) h

file_parts-Returns : (e : Entry) → Returns (λ p. Unit {0}) (file_parts e)
file_parts-Returns (file hash size executable) = tt
file_parts-Returns directory = tt
file_parts-Returns (symlink target) = tt
file_parts-Returns tombstone = tt

candidate_file_sizes-Returns :
    (c : MergeCandidate) → Returns (λ s. Unit {0}) (candidate_file_sizes c)
unfolding candidate_file_sizes
candidate_file_sizes-Returns c = ground (
  arith,
  file_parts-Returns c.base.entry,
  file_parts-Returns c.winner.version.entry,
  file_parts-Returns c.loser.version.entry,
)

module _ (read : Bytes → Option Bytes) (blake3 : Bytes → Bytes)
    (diff : List Bytes → List Bytes → List DiffOp)
    (covers : (old new : List Bytes) → IsDiff old new 0 0 (diff old new)) where
  spend_output-IsPaid :
      (index : ℕ) (b : RoundMerges) (i : MergeInput) (m : Result MergeResult Failure)
      → index < max_candidates
      → Safe Anything m
      → Returns (IsPaid index b) (spend_output read blake3 diff b i m)
  unfolding spend_output
  spend_output-IsPaid index b i (ok m) h safe = ground arith
  spend_output-IsPaid index b i (err (fallback r)) h safe = ground arith
  spend_output-IsPaid index b i (err panicked) h safe = absurd safe
  spend_output-IsPaid index b i (err out_of_fuel) h safe = absurd safe

  spend_work-IsPaid :
      (index : ℕ) (b : RoundMerges) (i : MergeInput) (m : Result ℕ Failure)
      → index < max_candidates
      → Safe Anything m
      → Returns (IsPaid index b) (spend_work read blake3 diff b i m)
  unfolding spend_work
  spend_work-IsPaid index b i (ok work) h safe =
      let next : RoundMerges = record b { work = b.work + work } in
      let m = merge diff i.base i.winner i.loser true in
      let after =
        spend_output-IsPaid index next i m h
          (merge-Safe diff covers i.base i.winner i.loser true) in
      elim (Bool-cases (not (leb work max_work))) [
        | inl e ↦ rw e (ground arith)
        | inr e ↦ elim (Bool-cases (overspends b.work work max_round_work)) [
          | inl f ↦ rw (e, f) (ground arith)
          | inr f ↦ rw (e, f) (weaken index b next _ refl refl after)
        ]
      ]
  spend_work-IsPaid index b i (err (fallback r)) h safe = ground arith
  spend_work-IsPaid index b i (err panicked) h safe = absurd safe
  spend_work-IsPaid index b i (err out_of_fuel) h safe = absurd safe

  read_candidate-Returns :
      (c : MergeCandidate) → Returns (λ i. Unit {0}) (read_candidate read blake3 diff c)
  unfolding read_candidate
  read_candidate-Returns c = ground arith

  outcome_of-IsPaid :
      (index : ℕ) (b : RoundMerges) (c : MergeCandidate)
      → Returns (IsPaid index b) (outcome_of read blake3 diff index b c)
  unfolding outcome_of
  outcome_of-IsPaid index b c = elim (Bool-cases (b.exhausted || leb max_candidates index)) [
    | inl e ↦ rw e (ground arith)
    | inr e ↦ rw e (
        Returns-bind (λ s. Unit {0}) (IsPaid index b) (candidate_file_sizes c) _
          (candidate_file_sizes-Returns c)
          λ sizes _. elim (Bool-cases (is_oversized sizes)) [
            | inl f ↦ rw f (ground arith)
            | inr f ↦ rw f (
                Returns-bind (λ i. Unit {0}) (IsPaid index b) (read_candidate read blake3 diff c) _
                  (read_candidate-Returns c)
                  λ i _.
                    spend_work-IsPaid index b i (comparison_work i.base i.winner i.loser)
                      (ground arith) (comparison_work-Safe i.base i.winner i.loser))
          ])
  ]

  -- The outcomes of the candidates from `index` on, after the spending of those before.
  record ArePaid (index : ℕ) (b : RoundMerges) (cs : List MergeCandidate) (os : List Outcome)
      : Type 0 where
    pub one_each : length os ≡ length cs
    pub merged : total one_if_merged os ≤ max_candidates - index
    pub hunks : b.hunks ≤ max_round_hunks → b.hunks + total hunks_of os ≤ max_round_hunks
    pub bytes : b.output ≤ max_round_bytes → b.output + total bytes_of os ≤ max_round_bytes

  outcomes_loop-ArePaid :
      (index : ℕ) (b : RoundMerges) (cs : List MergeCandidate)
      → Returns (ArePaid index b cs) (outcomes_loop read blake3 diff index b cs)
  unfolding outcomes_loop
  outcomes_loop-ArePaid index b [] = ground arith
  outcomes_loop-ArePaid index b (c ∷ cs) =
      Returns-bind (IsPaid index b) (ArePaid index b (c ∷ cs))
        (outcome_of read blake3 diff index b c) _ (outcome_of-IsPaid index b c)
        λ r paid.
          Returns-bind (ArePaid (suc index) r.1 cs) (ArePaid index b (c ∷ cs))
            (outcomes_loop read blake3 diff (suc index) r.1 cs) _
            (outcomes_loop-ArePaid (suc index) r.1 cs)
            λ os rest. record {
              one_each = omega (arith, rest.one_each);
              merged = omega (arith, rest.merged, paid.early, one_if_merged_bound r.0);
              hunks = λ h. omega (arith, paid.hunks, rest.hunks (paid.hunks_fit h));
              bytes = λ h. omega (arith, paid.bytes, rest.bytes (paid.bytes_fit h));
            }

  -- If the diff's operations cover both lists of lines and its equal ones are equal, a round's merges
  -- never crash: they report candidates out of path order, an entry that is no file or an object
  -- that cannot be read, or there is one outcome for each candidate, of which at most 64 are merges,
  -- with at most 4096 hunks and 2 MiB of text together.
  pub compute_merge_outcomes-AreWithin :
      (cs : List MergeCandidate)
      → Returns (AreWithin cs) (compute_merge_outcomes read blake3 diff cs)
  unfolding compute_merge_outcomes
  compute_merge_outcomes-AreWithin cs = elim (Bool-cases (in_path_order cs)) [
    | inl e ↦ rw e (
        Returns-map (ArePaid 0 unspent cs) (AreWithin cs)
          (outcomes_loop read blake3 diff 0 unspent cs)
          (λ os paid. record {
            one_each = paid.one_each;
            merged = omega (arith, paid.merged);
            hunks = omega (arith, paid.hunks (omega arith));
            bytes = omega (arith, paid.bytes (omega arith));
          })
          (outcomes_loop-ArePaid 0 unspent cs))
    | inr e ↦ rw e tt
  ]
