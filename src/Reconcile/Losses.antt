-- ===== src/Reconcile/Losses.antt =====
-- src/reconcile.rs: what becomes of the files that lose.
use file_local.Prelude.{
  ◌≡◌, refl, ◌∙◌, sym, true, Option, none, some, List, [], ◌∷◌, arith, ◌⊎◌, inl, inr, Bool-cases,
  Any, Any-append_left, Any-append_right,
}
use file_local.Prelude.Sorted.{get, keys, insert_keys}
use file_local.Merge.Types.{FallbackReason}
use file_local.Model.{Bytes, Record, has_seen, version_id, is_file}
use file_local.Reconcile.Coverage.{
  IsKeyed, by_path-IsKeyed, path_of_get, has_key, has_key-insert_keys, eq_path,
}
use file_local.Reconcile.Pointwise.{get-has_key}
use file_local.Reconcile.Choice.{resolve-records}
use file_local.Reconcile.{
  Plan, both, at_path, resolve, merge_files, plan_of, paths, by_path, reconcile, join,
  whole_file_conflict, destructive_conflict, conflict_winner, conflict_loser, winner_index,
  winner_index_of, canonical_inputs,
}

-- The accessors of a stored conflict give back the winner and the loser that it was made from, in
-- whichever order its inputs are kept.
pub whole_file_conflict_lem :
    (w l : Record) (reason : FallbackReason)
    → (conflict_winner (whole_file_conflict w l reason) ≡ w)
      × (conflict_loser (whole_file_conflict w l reason) ≡ l)
unfolding conflict_winner conflict_loser whole_file_conflict winner_index winner_index_of
    canonical_inputs
whole_file_conflict_lem w l reason = (ground arith, ground arith)

pub destructive_conflict_lem :
    (w l : Record)
    → (conflict_winner (destructive_conflict w l) ≡ w)
      × (conflict_loser (destructive_conflict w l) ≡ l)
unfolding conflict_winner conflict_loser destructive_conflict winner_index winner_index_of
    canonical_inputs
destructive_conflict_lem w l = (ground arith, ground arith)

-- The plan accounts for a record: it has a record at the same path that has seen it or has the same
-- entry, or the record is the loser of a conflict or of a merge candidate.
abbrev pub Kept : Record → Record → Type 0
Kept a c =
    (c.path ≡ a.path)
    × ((has_seen c.version (version_id a.version) ≡ true) ⊎ (c.version.entry ≡ a.version.entry))

abbrev pub IsAccounted : Record → Plan → Type 0
IsAccounted a plan =
    Any (Kept a) plan.records
    ⊎ Any (λ k. conflict_loser k ≡ a) plan.conflicts
    ⊎ Any (λ m. m.loser ≡ a) plan.merges

seen_self : (a : Record) → has_seen a.version (version_id a.version) ≡ true
unfolding has_seen
seen_self a = ground arith

seen_same :
    (a b : Record)
    → version_id a.version ≡ version_id b.version
    → has_seen a.version (version_id b.version) ≡ true
unfolding has_seen
seen_same a b e = ground arith

merge_files-loser :
    (w l : Record)
    → Any (λ k. conflict_loser k ≡ l) (merge_files w l).conflicts
      ⊎ Any (λ m. m.loser ≡ l) (merge_files w l).merges
unfolding merge_files
merge_files-loser w l = ground (
  arith,
  (whole_file_conflict_lem w l FallbackReason.absent_base).1,
  (whole_file_conflict_lem w l FallbackReason.unequal_base).1,
)

-- The loser of a resolution is accounted for, if it is a file.
resolve-loser : (w l : Record) → is_file l.version.entry ≡ true → IsAccounted l (resolve w l)
unfolding resolve
resolve-loser w l f = ground (arith, merge_files-loser w l, (destructive_conflict_lem w l).1)

resolve-winner : (w l : Record) → IsAccounted w (resolve w l)
resolve-winner w l = inl (rw (resolve-records w l) (inl (refl, inl (seen_self w))))

both-accounts :
    (a b : Record)
    → a.path ≡ b.path
    → (is_file a.version.entry ≡ true → IsAccounted a (both a b))
      × (is_file b.version.entry ≡ true → IsAccounted b (both a b))
unfolding both
both-accounts a b same = ground (
  arith,
  seen_self a,
  seen_self b,
  seen_same a b,
  resolve-loser a b,
  resolve-loser b a,
  resolve-winner a b,
  resolve-winner b a,
)

at_path-accounts :
    (x y : Option Record) (a : Record)
    → ((b c : Record) → x ≡ some b → y ≡ some c → b.path ≡ c.path)
    → is_file a.version.entry ≡ true
    → (x ≡ some a) ⊎ (y ≡ some a)
    → IsAccounted a (at_path x y)
unfolding at_path
at_path-accounts (some b) (some c) a k f h =
    let e = both-accounts b c (k b c refl refl) in ground (arith, e.0, e.1)
at_path-accounts (some b) none a k f h = ground (arith, seen_self b)
at_path-accounts none (some c) a k f h = ground (arith, seen_self c)
at_path-accounts none none a k f h = ground arith

IsAccounted-join_left : (a : Record) (p q : Plan) → IsAccounted a p → IsAccounted a (join p q)
IsAccounted-join_left a p q (inl h) = inl (Any-append_left _ p.records q.records h)
IsAccounted-join_left a p q (inr (inl h)) = inr (inl (Any-append_left _ p.conflicts q.conflicts h))
IsAccounted-join_left a p q (inr (inr h)) = inr (inr (Any-append_left _ p.merges q.merges h))

IsAccounted-join_right : (a : Record) (p q : Plan) → IsAccounted a q → IsAccounted a (join p q)
IsAccounted-join_right a p q (inl h) = inl (Any-append_right _ p.records q.records h)
IsAccounted-join_right a p q (inr (inl h)) =
    inr (inl (Any-append_right _ p.conflicts q.conflicts h))
IsAccounted-join_right a p q (inr (inr h)) = inr (inr (Any-append_right _ p.merges q.merges h))

same_path :
    (local remote : List (Bytes × Record))
    → IsKeyed local
    → IsKeyed remote
    → (q : Bytes) (b c : Record) → get q local ≡ some b
    → get q remote ≡ some c
    → b.path ≡ c.path
same_path local remote kl kr q b c e f =
    path_of_get q local b kl e ∙ sym (path_of_get q remote c kr f)

plan_of-accounts :
    (local remote : List (Bytes × Record)) (p : Bytes) (a : Record) (ps : List Bytes)
    → IsKeyed local
    → IsKeyed remote
    → is_file a.version.entry ≡ true
    → (get p local ≡ some a) ⊎ (get p remote ≡ some a)
    → has_key p ps ≡ true
    → IsAccounted a (plan_of local remote ps)
unfolding plan_of
plan_of-accounts local remote p a [] kl kr f h m = cc
plan_of-accounts local remote p a (q ∷ ps) kl kr f h m = elim (Bool-cases (eq_path q p)) [
  | inl e ↦ IsAccounted-join_left a (at_path (get q local) (get q remote)) _ (
      at_path-accounts (get q local) (get q remote) a (same_path local remote kl kr q) f
        (ground arith))
  | inr e ↦
      IsAccounted-join_right a (at_path (get q local) (get q remote)) _
        (plan_of-accounts local remote p a ps kl kr f h (ground arith))
]

has_key-get :
    (p : Bytes) (a : Record) (local remote : List Record)
    → (get p (by_path local) ≡ some a) ⊎ (get p (by_path remote) ≡ some a)
    → has_key p (paths local remote) ≡ true
unfolding paths
has_key-get p a local remote h =
    let kl = keys (by_path local) in
    let kr = keys (by_path remote) in
    ground (
      arith,
      has_key-insert_keys p kr (insert_keys kl []),
      has_key-insert_keys p kl [],
      get-has_key p (by_path local),
      get-has_key p (by_path remote),
    )

-- For every file that either side has, the plan has a record at the file's path that has seen it or
-- has the same entry, or it keeps the file as the loser of a conflict or of a merge candidate.
pub reconcile-accounts :
    (local remote : List Record) (p : Bytes) (a : Record)
    → is_file a.version.entry ≡ true
    → (get p (by_path local) ≡ some a) ⊎ (get p (by_path remote) ≡ some a)
    → IsAccounted a (reconcile local remote)
unfolding reconcile
reconcile-accounts local remote p a f h =
    plan_of-accounts (by_path local) (by_path remote) p a (paths local remote)
      (by_path-IsKeyed local) (by_path-IsKeyed remote) f h (has_key-get p a local remote h)
