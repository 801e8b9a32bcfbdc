-- ===== src/Session/Deferral/Tests.antt =====
-- Runs of the deferral of paths, and its theorems at concrete data.
use file_local.Prelude.{ℕ, ◌≡◌, refl, true, false, none, List, [], ◌∷◌, keep, if◌then◌else◌}
use file_local.Prelude.Order.{cmp_bytes, pos}
use file_local.Prelude.Sort.{insert_by, sort_by}
use file_local.Prelude.Sorted.{get, insert}
use file_local.Model.{Bytes, Bytes-discrete, Entry, Record, directory, file}
use file_local.Reconcile.{Plan, by_path, by_path_onto}
use file_local.Sync.Materialize.{find_record}
use file_local.Session.Deferral.{
  accepts_invalidation, deferring, effective_plan, is_deferred, is_stable, mix, new_cycle, observe,
  parents, root_from, roots,
}
use file_local.Session.Deferral.Mixed.{effective_plan-find_record, round_roots}

abbrev at : Bytes → ℕ → Entry → Record
at p sequence entry = record {
  path = p;
  version = record {
    peer = b'a' ∷ [];
    sequence = sequence;
    id_authenticator = none;
    timestamp_ns = pos 1;
    seen = [];
    merge_base = none;
    version_authenticator = none;
    base_authenticator = none;
    entry = entry;
  };
}

-- `d`, `d/n` and `d/n/x`: one side has a file at `d/n`, the other a directory.
abbrev folder : Bytes
folder = b'd' ∷ []

abbrev noisy : Bytes
noisy = b'd' ∷ b'/' ∷ b'n' ∷ []

abbrev inner : Bytes
inner = b'd' ∷ b'/' ∷ b'n' ∷ b'/' ∷ b'x' ∷ []

abbrev side : List Record
side = at folder 1 directory ∷ at noisy 2 (file (1 ∷ []) 1 false) ∷ at (b'e' ∷ []) 3 directory ∷ []

abbrev other : List Record
other = at folder 1 directory ∷ at noisy 4 directory ∷ at inner 5 (file (2 ∷ []) 2 false) ∷ []

abbrev full : Plan
full = record {
  records =
      at folder 1 directory
      ∷ at noisy 4 directory
      ∷ at inner 5 (file (2 ∷ []) 2 false)
      ∷ at (b'e' ∷ []) 6 (file [] 0 false)
      ∷ [];
  conflicts = [];
  merges = [];
}

-- The change below `d/n` defers all of `d/n`, since that is no directory on one side.
noisy_root : round_roots side other full (inner ∷ []) ≡ noisy ∷ []
unfolding roots root_from parents is_stable by_path by_path_onto insert get cmp_bytes
noisy_root = refl

mixed_records :
    (effective_plan side other full (inner ∷ [])).plan.records
    ≡ at folder 1 directory
      ∷ at noisy 2 (file (1 ∷ []) 1 false)
      ∷ at (b'e' ∷ []) 6 (file [] 0 false)
      ∷ []
unfolding effective_plan mix is_deferred keep sort_by insert_by Bytes-discrete roots root_from
    parents is_stable by_path by_path_onto insert get cmp_bytes
mixed_records = refl

second_attempt : (observe (observe new_cycle noisy).0 noisy).1 ≡ deferring true
unfolding observe Bytes-discrete
second_attempt = refl

refused_invalidation :
    accepts_invalidation (effective_plan side other full (inner ∷ [])) noisy ≡ false
unfolding accepts_invalidation effective_plan mix is_deferred keep sort_by insert_by Bytes-discrete
    roots root_from parents is_stable by_path by_path_onto insert get cmp_bytes
refused_invalidation = refl

effective_plan-find_record_example :
    ((p : Bytes)
      → find_record p (effective_plan side other full (inner ∷ [])).plan.records ≡ (
          if is_deferred (round_roots side other full (inner ∷ [])) p
          then find_record p side
          else find_record p full.records))
    × ((round_roots side other full (inner ∷ []) ≡ round_roots other side full (inner ∷ []))
        × (((effective_plan side other full (inner ∷ [])).plan.conflicts
              ≡ (effective_plan other side full (inner ∷ [])).plan.conflicts)
            × ((effective_plan side other full (inner ∷ [])).plan.merges
                ≡ (effective_plan other side full (inner ∷ [])).plan.merges)))
unfolding find_record Bytes-discrete
effective_plan-find_record_example =
    effective_plan-find_record side other full (inner ∷ []) (refl, (refl, (refl, tt)))
      (refl, (refl, (refl, (refl, tt))))
