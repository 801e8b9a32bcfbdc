-- ===== src/Reconcile/Choice.antt =====
-- src/reconcile.rs: which record the plan has at a path, against a description that knows neither
-- conflicts nor merges.
use file_local.Prelude.{◌≡◌, true, Option, none, some, [], ◌∷◌, arith, ◌⊎◌, if◌then◌else◌}
use file_local.Prelude.Order.{is_ge}
use file_local.Model.{Record, has_seen, version_id, lww_cmp}
use file_local.Reconcile.{both, resolve, merge_files}

-- The newer of two records: the one whose version has seen the other, and the last writer if
-- neither has.
abbrev pub newer : Record → Record → Record
newer a b =
    if has_seen a.version (version_id b.version)
    then a
    else if has_seen b.version (version_id a.version)
    then b
    else if is_ge (lww_cmp a.version b.version)
    then a
    else b

abbrev pub newest : Option Record → Option Record → Option Record
newest none y = y
newest (some a) none = some a
newest (some a) (some b) = some (newer a b)

merge_files-records : (winner loser : Record) → (merge_files winner loser).records ≡ winner ∷ []
unfolding merge_files
merge_files-records winner loser = ground arith

pub resolve-records : (winner loser : Record) → (resolve winner loser).records ≡ winner ∷ []
unfolding resolve
resolve-records winner loser = ground (arith, merge_files-records winner loser)

pub has_seen_self :
    (a b : Record)
    → version_id a.version ≡ version_id b.version
    → has_seen a.version (version_id b.version) ≡ true
unfolding has_seen
has_seen_self a b e = ground arith

pub both-records : (a b : Record) → (both a b).records ≡ newer a b ∷ []
unfolding both
both-records a b = ground (arith, resolve-records a b, resolve-records b a, has_seen_self a b)

pub newer-cases : (a b : Record) → (newer a b ≡ a) ⊎ (newer a b ≡ b)
newer-cases a b = ground arith
