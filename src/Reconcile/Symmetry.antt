-- ===== src/Reconcile/Symmetry.antt =====
-- src/reconcile.rs: the plans of the two endpoints of a round.
use file_local.Prelude.{◌≡◌, refl, true, Option, none, some, List, [], ◌∷◌, arith, Ordering}
use file_local.Prelude.Sorted.{get, keys, insert_keys_comm}
use file_local.Model.{Bytes, Record, has_seen, version_id, lww_cmp}
use file_local.Model.Causality.{lww_cmp-reversed, lww_cmp-tie}
use file_local.Reconcile.{both, at_path, plan_of, paths, by_path, reconcile}

-- What authenticated histories give: a peer and a sequence number name one record, and two
-- different records have not both seen one another.
pub record IsConsistent (a b : Record) : Type 0 where
  pub one_identity :
      a.version.peer ≡ b.version.peer → a.version.sequence ≡ b.version.sequence → a ≡ b
  pub acyclic :
      has_seen a.version (version_id b.version) ≡ true
      → has_seen b.version (version_id a.version) ≡ true
      → a ≡ b

tie_same : (a b : Record) → IsConsistent a b → lww_cmp a.version b.version ≡ Ordering.eq → a ≡ b
tie_same a b c h = let t = lww_cmp-tie a.version b.version h in c.one_identity (t.1) (t.2)

both_comm : (a b : Record) → IsConsistent a b → both a b ≡ both b a
unfolding both
both_comm a b c =
    ground (arith, tie_same a b c, lww_cmp-reversed a.version b.version, c.acyclic, c.one_identity)

at_path_comm :
    (x y : Option Record)
    → ((a b : Record) → x ≡ some a → y ≡ some b → IsConsistent a b)
    → at_path x y ≡ at_path y x
unfolding at_path
at_path_comm none none h = refl
at_path_comm none (some b) h = refl
at_path_comm (some a) none h = refl
at_path_comm (some a) (some b) h = both_comm a b (h a b refl refl)

-- The two records that a pair of endpoints has at one path are always consistent.
abbrev pub AreConsistent : List Record → List Record → Type 0
AreConsistent local remote =
    (p : Bytes) (a b : Record)
    → get p (by_path local) ≡ some a
    → get p (by_path remote) ≡ some b
    → IsConsistent a b

plan_of_comm :
    (local remote : List (Bytes × Record)) (ps : List Bytes)
    → ((p : Bytes) (a b : Record) → get p local ≡ some a → get p remote ≡ some b → IsConsistent a b)
    → plan_of local remote ps ≡ plan_of remote local ps
unfolding plan_of
plan_of_comm local remote [] h = refl
plan_of_comm local remote (p ∷ ps) h =
    rw (at_path_comm (get p local) (get p remote) (h p), plan_of_comm local remote ps h)

-- On consistent records the two endpoints, each of which calls its own records local, compute one
-- plan: the same records, conflicts and merge candidates in the same order.
pub reconcile_comm :
    (local remote : List Record)
    → AreConsistent local remote
    → reconcile local remote ≡ reconcile remote local
unfolding reconcile paths
reconcile_comm local remote h =
    rw (insert_keys_comm (keys (by_path local)) (keys (by_path remote)) [])
      (plan_of_comm (by_path local) (by_path remote) _ h)
