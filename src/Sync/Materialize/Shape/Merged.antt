-- ===== src/Sync/Materialize/Shape/Merged.antt =====
-- src/sync.rs: a merge that passes `validate_materialized_plan_shape`.
use file_local.Prelude.{
  ◌+◌, ◌≤◌, ◌==◌, ℕ, ◌≡◌, ◌<◌, none, some, List, [], ◌∷◌, arith, All, any, ◌⊎◌, inl, inr,
  Bool-cases, ◌≢◌, Bool, true, false, sym, ap, subst,
}
use file_local.Prelude.Results.{eq_of_ok, first_ok, ok}
use file_local.Model.{Bytes, Entry, Record, directory, file, symlink, tombstone}
use file_local.Merge.Types.{max_output_bytes}
use file_local.Sync.Outcomes.{file_parts, max_round_bytes}
use file_local.Sync.Seen.{remember_version}
use file_local.Reconcile.{MergeCandidate, Plan}
use file_local.Sync.Materialize.{is_path, max_int}
use file_local.Sync.Materialize.Edits.{is_path_self}
use file_local.Sync.Materialize.Shape.{
  ShapeState, connector_sequence, greatest_of, greatest_of_candidates, check_merged,
  greatest_sequence, permitted_record, same_mode,
}

-- A file of the mode: executable or not.
abbrev pub FileOf : Bool → Entry → Type 0
FileOf mode e = (hash : Bytes) × (size : ℕ) × (e ≡ file hash size mode)

-- The number is past the record's, if the connector made the record.
abbrev pub IsPast : Bytes → ℕ → Record → Type 0
IsPast connector n r = (r.version.peer ≢ connector) ⊎ (r.version.sequence < n)

-- The record is the merge of a candidate by the connector: a file with the winner's mode, under a
-- sequence number past all that the connector has used in the expected plan and its candidates.
pub record IsMerge (expected : Plan) (connector : Bytes) (c : MergeCandidate) (q : Record)
    : Type 0 where
  pub same_path : q.path ≡ c.winner.path
  pub by_connector : q.version.peer ≡ connector
  pub later_time :
      q.version.timestamp_ns ≡ max_int c.winner.version.timestamp_ns c.loser.version.timestamp_ns
  pub both_seen :
      q.version.seen ≡ remember_version (remember_version [] c.winner.version) c.loser.version
  pub over_base : q.version.merge_base ≡ some c.base
  pub id_signed : q.version.id_authenticator ≢ none
  pub version_signed : q.version.version_authenticator ≢ none
  pub base_signed : q.version.base_authenticator ≢ none
  pub past_records : All (IsPast connector q.version.sequence) expected.records
  pub past_inputs :
      All
        (λ d.
          IsPast connector q.version.sequence d.winner
          × IsPast connector q.version.sequence d.loser)
        expected.merges
  pub same_mode : (mode : Bool) × FileOf mode c.winner.version.entry × FileOf mode q.version.entry

connector_sequence-IsPast :
    (connector : Bytes) (n : ℕ) (r : Record)
    → connector_sequence connector r < n
    → IsPast connector n r
connector_sequence-IsPast connector n r h = elim (Bool-cases (is_path connector r.version.peer)) [
  | inl e ↦ inr (ground arith)
  | inr e ↦ inl (λ same.
      differ (subst (λ p. is_path connector p ≡ true) (sym same) (is_path_self connector)) e)
]
  where
    differ : {b : Bool} → b ≡ true → b ≡ false → ⊥
    differ p q = cc

greatest_of-IsPast :
    (connector : Bytes) (n : ℕ) (rs : List Record)
    → greatest_of connector rs < n
    → All (IsPast connector n) rs
unfolding greatest_of
greatest_of-IsPast connector n [] h = tt
greatest_of-IsPast connector n (r ∷ rs) h = (
  connector_sequence-IsPast connector n r (omega arith),
  greatest_of-IsPast connector n rs (omega arith),
)

greatest_of_candidates-IsPast :
    (connector : Bytes) (n : ℕ) (cs : List MergeCandidate)
    → greatest_of_candidates connector cs < n
    → All (λ d. IsPast connector n d.winner × IsPast connector n d.loser) cs
unfolding greatest_of_candidates
greatest_of_candidates-IsPast connector n [] h = tt
greatest_of_candidates-IsPast connector n (c ∷ cs) h = (
  (
    connector_sequence-IsPast connector n c.winner (omega arith),
    connector_sequence-IsPast connector n c.loser (omega arith),
  ),
  greatest_of_candidates-IsPast connector n cs (omega arith),
)

file_parts-FileOf :
    (e : Entry) (parts : Bytes × ℕ × Bool) → file_parts e ≡ ok parts → FileOf parts.2 e
file_parts-FileOf (file hash size executable) parts h =
    let same = eq_of_ok (hash, size, executable) parts h in
    (hash, size, ap (λ (x : Bytes × ℕ × Bool). file hash size x.2) same)
file_parts-FileOf directory parts h = cc
file_parts-FileOf (symlink target) parts h = cc
file_parts-FileOf tombstone parts h = cc

same_mode_eq : (a b : Bool) → same_mode a b ≡ true → a ≡ b
same_mode_eq true b h = sym h
same_mode_eq false b h = ground arith

pub check_merged-IsMerge :
    (expected : Plan) (connector : Bytes) (st st' : ShapeState) (c : MergeCandidate) (q : Record)
    → check_merged connector (greatest_sequence connector expected) st c q ≡ ok st'
    → IsMerge expected connector c q
unfolding check_merged permitted_record greatest_sequence
check_merged-IsMerge expected connector st st' c q h =
    let greatest = greatest_sequence connector expected in
    let (parts, (e₁, h₁)) = first_ok _ (file_parts q.version.entry) st' h in
    let (winner_parts, (e₂, h₂)) = first_ok _ (file_parts c.winner.version.entry) st' h₁ in
    let modes : parts.2 ≡ winner_parts.2 = same_mode_eq parts.2 winner_parts.2 (ground arith) in
    let same : q ≡ permitted_record connector c q = ground arith in
    let newer : greatest < q.version.sequence = ground arith in
    record {
      same_path = ap (λ (r : Record). r.path) same;
      by_connector = ap (λ (r : Record). r.version.peer) same;
      later_time = ap (λ (r : Record). r.version.timestamp_ns) same;
      both_seen = ap (λ (r : Record). r.version.seen) same;
      over_base = ap (λ (r : Record). r.version.merge_base) same;
      id_signed = ground arith;
      version_signed = ground arith;
      base_signed = ground arith;
      past_records =
          greatest_of-IsPast connector q.version.sequence expected.records (omega (arith, newer));
      past_inputs =
          greatest_of_candidates-IsPast connector q.version.sequence expected.merges
            (omega (arith, newer));
      same_mode = (
        winner_parts.2,
        file_parts-FileOf c.winner.version.entry winner_parts e₂,
        subst (λ m. FileOf m q.version.entry) modes (file_parts-FileOf q.version.entry parts e₁),
      );
    }

-- The size of a file, and of the files of a list.
abbrev pub size_of : Entry → ℕ
size_of (file hash size executable) = size
size_of _ = 0

abbrev pub total_size : List Record → ℕ
total_size [] = 0
total_size (q ∷ qs) = size_of q.version.entry + total_size qs

file_parts-size_of :
    (e : Entry) (parts : Bytes × ℕ × Bool) → file_parts e ≡ ok parts → parts.1 ≡ size_of e
file_parts-size_of (file hash size executable) parts h =
    ap (λ (x : Bytes × ℕ × Bool). x.1) (sym (eq_of_ok (hash, size, executable) parts h))
file_parts-size_of directory parts h = cc
file_parts-size_of (symlink target) parts h = cc
file_parts-size_of tombstone parts h = cc

-- What a merge adds to the variables of the loop, and the tests that it passes.
pub record Adds (st st' : ShapeState) (q : Record) : Type 0 where
  pub is_new : any (λ n. n == q.version.sequence) st.sequences ≡ false
  pub listed : st'.sequences ≡ q.version.sequence ∷ st.sequences
  pub counted : st.merged_bytes + size_of q.version.entry ≡ st'.merged_bytes
  pub fits : size_of q.version.entry ≤ max_output_bytes
  pub all_fit : st'.merged_bytes ≤ max_round_bytes

pub check_merged-Adds :
    (connector : Bytes) (greatest : ℕ) (st st' : ShapeState) (c : MergeCandidate) (q : Record)
    → check_merged connector greatest st c q ≡ ok st'
    → Adds st st' q
unfolding check_merged
check_merged-Adds connector greatest st st' c q h =
    let (parts, (e₁, h₁)) = first_ok _ (file_parts q.version.entry) st' h in
    let (winner_parts, (e₂, h₂)) = first_ok _ (file_parts c.winner.version.entry) st' h₁ in
    let size = file_parts-size_of q.version.entry parts e₁ in
    record {
      is_new = ground arith;
      listed = ground arith;
      counted = ground (arith, size);
      fits = ground (arith, size);
      all_fit = ground (arith, size);
    }
