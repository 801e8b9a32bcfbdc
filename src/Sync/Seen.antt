-- ===== src/Sync/Seen.antt =====
-- src/sync.rs: `remember_version`, which adds to what a merged version has seen.
use file_local.Prelude.{
  ◌≡◌, refl, ◌∙◌, Bool, true, List, [], ◌∷◌, ◌++◌, arith, if◌then◌else◌, any, ◌||◌, ◌&&◌, leb, ltb,
  holds,
}
use file_local.Prelude.Sort.{any-sort_by, sort_by}
use file_local.Model.{Bytes-discrete, Version, VersionId, has_seen, version_id}

abbrev pub same_peer : VersionId → VersionId → Bool
same_peer a b = holds (Bytes-discrete a.peer b.peer)

-- The body of the loop: the first version known of the item's peer is replaced if the item is
-- later; an item of a new peer is added.
unfoldable pub remember_one : List VersionId → VersionId → List VersionId
remember_one [] item = item ∷ []
remember_one (known ∷ seen) item =
    let rest = remember_one seen item in
    if same_peer known item
    then (if ltb known.sequence item.sequence then item ∷ seen else known ∷ seen)
    else known ∷ rest

unfoldable pub remember_all : List VersionId → List VersionId → List VersionId
remember_all seen [] = seen
remember_all seen (item ∷ items) = remember_all (remember_one seen item) items

unfoldable pub remember_version : List VersionId → Version → List VersionId
remember_version seen version =
    sort_by (λ id. id.peer) (remember_all seen (version.seen ++ version_id version ∷ []))

-- The list has a version of the peer of `id` that is as late.
abbrev pub reaches : VersionId → VersionId → Bool
reaches id known = holds (Bytes-discrete known.peer id.peer) && leb id.sequence known.sequence

abbrev pub knows : List VersionId → VersionId → Bool
knows seen id = any (reaches id) seen

remember_one-knows :
    (seen : List VersionId) (item id : VersionId)
    → knows (remember_one seen item) id ≡ (reaches id item || knows seen id)
unfolding remember_one
remember_one-knows [] item id = refl
remember_one-knows (known ∷ seen) item id = ground (arith, remember_one-knows seen item id)

remember_all-knows :
    (seen items : List VersionId) (id : VersionId)
    → knows (remember_all seen items) id ≡ (knows items id || knows seen id)
unfolding remember_all
remember_all-knows seen [] id = refl
remember_all-knows seen (item ∷ items) id =
    ground
      (arith, remember_all-knows (remember_one seen item) items id, remember_one-knows seen item id)

knows-append :
    (xs ys : List VersionId) (id : VersionId) → knows (xs ++ ys) id ≡ (knows xs id || knows ys id)
knows-append [] ys id = refl
knows-append (x ∷ xs) ys id = ground (arith, knows-append xs ys id)

-- What the list knows afterwards is what it knew, what the version has seen, and the version.
pub remember_version-knows :
    (seen : List VersionId) (v : Version) (id : VersionId)
    → knows (remember_version seen v) id
      ≡ (knows v.seen id || reaches id (version_id v) || knows seen id)
unfolding remember_version
remember_version-knows seen v id =
    any-sort_by (λ i. i.peer) (reaches id) (remember_all seen (v.seen ++ version_id v ∷ []))
    ∙ ground (
      arith,
      remember_all-knows seen (v.seen ++ version_id v ∷ []) id,
      knows-append v.seen (version_id v ∷ []) id,
    )

-- A version that knows what another one has seen, and that one, has seen all that it has seen.
pub has_seen-knows :
    (v : Version) (id : VersionId)
    → has_seen v id ≡ true
    → (knows v.seen id || reaches id (version_id v)) ≡ true
unfolding has_seen Bytes-discrete
has_seen-knows v id h = ground arith
