-- ===== src/Reconcile/Tests.antt =====
-- Runs of `reconcile` on small record sets, and its theorems at concrete data.
use file_local.Prelude.{◌≡◌, refl, ℕ, true, false, none, some, List, [], ◌∷◌, arith, inl, ◌||◌}
use file_local.Prelude.Order.{pos, cmp_bytes}
use file_local.Prelude.Sorted.{Ascending, get, insert, insert_key, insert_keys, keys}
use file_local.Merge.Types.{absent_base}
use file_local.Model.{
  Bytes, Entry, file, tombstone, Version, VersionId, Record, lww_cmp, has_seen, VersionId-discrete,
  Entry-discrete, BaseVersion-discrete,
}
use file_local.Reconcile.{
  Plan, at_path, both, by_path, by_path_onto, destructive_conflict, merge_files, paths, plan_of,
  reconcile, resolve, whole_file_conflict,
}
use file_local.Reconcile.Symmetry.{IsConsistent, AreConsistent, reconcile_comm}
use file_local.Reconcile.Coverage.{reconcile-Covers, record_paths, has_path}
use file_local.Reconcile.Choice.{newest}
use file_local.Reconcile.Pointwise.{reconcile-newest, reconcile_resumes}
use file_local.Reconcile.Convergence.{reconcile_settles}
use file_local.Reconcile.Losses.{IsAccounted, reconcile-accounts}

abbrev version : Bytes → ℕ → ℕ → List VersionId → Entry → Version
version peer sequence at seen entry = record {
  peer = peer;
  sequence = sequence;
  id_authenticator = none;
  timestamp_ns = pos at;
  seen = seen;
  merge_base = none;
  version_authenticator = none;
  base_authenticator = none;
  entry = entry;
}

abbrev peer_a : Bytes
peer_a = b'a' ∷ []

abbrev peer_b : Bytes
peer_b = b'b' ∷ []

-- A file at the path `f`, written by each peer without knowing of the other, and a later version by
-- the second peer that has seen the first.
abbrev old_file : Record
old_file = record { path = b'f' ∷ []; version = version peer_a 1 5 [] (file (1 ∷ []) 3 false) }

abbrev new_file : Record
new_file = record { path = b'f' ∷ []; version = version peer_b 1 9 [] (file (2 ∷ []) 4 false) }

abbrev child_file : Record
child_file = record {
  path = b'f' ∷ [];
  version =
      version peer_b 2 1 (record { peer = peer_a; sequence = 1; authenticator = none } ∷ [])
        (file (3 ∷ []) 4 true);
}

abbrev other_file : Record
other_file = record { path = b'e' ∷ []; version = version peer_a 2 6 [] (file (7 ∷ []) 1 false) }

run : List Record → List Record → Plan
unfolding reconcile paths plan_of at_path both resolve merge_files by_path by_path_onto has_seen
    lww_cmp VersionId-discrete Entry-discrete BaseVersion-discrete whole_file_conflict
    destructive_conflict insert_keys insert_key keys insert get
run = reconcile

-- The causal child wins though its clock is behind.
child_wins :
    run (old_file ∷ []) (child_file ∷ [])
    ≡ record { records = child_file ∷ []; conflicts = []; merges = [] }
unfolding run
child_wins = refl

-- Two concurrent files: the last writer's record is planned, the other is kept in a conflict.
concurrent_files : run (other_file ∷ old_file ∷ []) (new_file ∷ []) ≡ record {
  records = other_file ∷ new_file ∷ [];
  conflicts = whole_file_conflict new_file old_file absent_base ∷ [];
  merges = [];
}
unfolding run
concurrent_files = refl

-- A deletion that was written last wins over a file, in a destructive conflict.
deletion : Record
deletion = record { path = b'f' ∷ []; version = version peer_b 1 9 [] tombstone }

concurrent_deletion : run (old_file ∷ []) (deletion ∷ []) ≡ record {
  records = deletion ∷ [];
  conflicts = destructive_conflict deletion old_file ∷ [];
  merges = [];
}
unfolding run deletion
concurrent_deletion = refl

old-new-IsConsistent : IsConsistent old_file new_file
unfolding run cmp_bytes
old-new-IsConsistent = record { one_identity = λ e f. ground arith; acyclic = λ e f. ground arith }

only_at : (r a : Record) (p : Bytes) → get p (by_path (r ∷ [])) ≡ some a → r ≡ a
unfolding run
only_at r a p h = ground arith

old-new-AreConsistent : AreConsistent (old_file ∷ []) (new_file ∷ [])
old-new-AreConsistent p a b ha hb =
    rw (← only_at old_file a p ha, ← only_at new_file b p hb) old-new-IsConsistent

reconcile_comm_example :
    reconcile (old_file ∷ []) (new_file ∷ []) ≡ reconcile (new_file ∷ []) (old_file ∷ [])
reconcile_comm_example = reconcile_comm (old_file ∷ []) (new_file ∷ []) old-new-AreConsistent

reconcile-Covers_example :
    Ascending (record_paths (reconcile (old_file ∷ []) (other_file ∷ [])).records)
    × ((p : Bytes)
        → has_path p (reconcile (old_file ∷ []) (other_file ∷ [])).records
          ≡ (has_path p (old_file ∷ []) || has_path p (other_file ∷ [])))
reconcile-Covers_example = reconcile-Covers (old_file ∷ []) (other_file ∷ [])

reconcile-newest_example :
    get (b'f' ∷ []) (by_path (reconcile (old_file ∷ []) (new_file ∷ [])).records)
    ≡ newest (get (b'f' ∷ []) (by_path (old_file ∷ []))) (get (b'f' ∷ []) (by_path (new_file ∷ [])))
reconcile-newest_example = reconcile-newest (old_file ∷ []) (new_file ∷ []) (b'f' ∷ [])

reconcile_settles_example :
    reconcile (other_file ∷ new_file ∷ []) (other_file ∷ new_file ∷ [])
    ≡ record { records = other_file ∷ new_file ∷ []; conflicts = []; merges = [] }
unfolding run
reconcile_settles_example = reconcile_settles (other_file ∷ old_file ∷ []) (new_file ∷ [])

reconcile_resumes_example :
    let rs = (reconcile (old_file ∷ []) (child_file ∷ [])).records in
    (get (b'f' ∷ []) (by_path (reconcile rs (child_file ∷ [])).records)
      ≡ get (b'f' ∷ []) (by_path rs))
    × (get (b'f' ∷ []) (by_path (reconcile (old_file ∷ []) rs).records)
        ≡ get (b'f' ∷ []) (by_path rs))
reconcile_resumes_example = reconcile_resumes (old_file ∷ []) (child_file ∷ []) (b'f' ∷ [])

reconcile-accounts_example : IsAccounted old_file (reconcile (old_file ∷ []) (new_file ∷ []))
unfolding run
reconcile-accounts_example =
    reconcile-accounts (old_file ∷ []) (new_file ∷ []) (b'f' ∷ []) old_file refl (inl refl)
