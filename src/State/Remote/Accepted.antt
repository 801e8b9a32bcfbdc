-- ===== src/State/Remote/Accepted.antt =====
-- src/state.rs: a snapshot that `validate_remote_records` accepts names no version twice, and claims
-- as the peer's own only what the peer has authenticated.
use file_local.Prelude.{
  ℕ, subst, ◌≡◌, refl, sym, ◌∙◌, true, false, Option, none, some, List, [], ◌∷◌, ◌&&◌, ◌⊎◌, inl,
  inr, All, All-map, Any, any, arith, Bool-cases,
}
use file_local.Prelude.Results.{first_ok, Result, ok, ◌>>◌}
use file_local.Model.{Bytes, Entry, Record, Record-discrete, Version, VersionId, version_id}
use file_local.Sync.Materialize.{is_path}
use file_local.Sync.Materialize.Edits.{is_path_self}
use file_local.State.Remote.{
  RemoteError, get_canonical, insert_all, insert_canonical_record, is_untagged, is_record,
  validate_base, validate_loop, validate_owned_id, validate_owned_ids, validate_record,
  validate_remote_records, validate_version,
}
use file_local.State.Remote.Sound.{
  IsKept, IsSealed, get_canonical-All, get_canonical_same, insert-cons, insert_all-All,
  insert_all-IsKept, insert_keeps, insert-IsKept, validate_base-IsOwnBase, validate_owned_id-IsOwn,
  validate_owned_ids-IsOwn, validate_version-own,
}

All-Any : (rs : List Record) → All (λ q. Any (λ a. a ≡ q) rs) rs
All-Any [] = tt
All-Any (r ∷ rs) = (
  inl refl,
  All-map (λ q. Any (λ a. a ≡ q) rs) (λ q. Any (λ a. a ≡ q) (r ∷ rs)) rs (λ q m. inr m)
      (All-Any rs),
)

is_record_eq : (o : Option Record) (r : Record) → is_record o r ≡ true → o ≡ some r
unfolding Record-discrete
is_record_eq none r h = cc
is_record_eq (some a) r h = ground arith

-- Each record of either list is the one that its identity names.
abbrev pub HaveOneIdentity : List Record → List Record → Type 0
HaveOneIdentity rs qs =
    All
      (λ a.
        All (λ b. a.version.peer ≡ b.version.peer → a.version.sequence ≡ b.version.sequence → a ≡ b)
          qs)
      rs

one_identity :
    (canonical : List Record) (a b : Record)
    → IsKept canonical a
    → IsKept canonical b
    → a.version.peer ≡ b.version.peer
    → a.version.sequence ≡ b.version.sequence
    → a ≡ b
one_identity canonical a b ka kb p n =
    some_same (sym ka ∙ get_canonical_same a.version b.version canonical p n ∙ kb)
  where
    some_same : some a ≡ some b → a ≡ b
    some_same h = cc

module _ (seal_id : Bytes → ℕ → Bytes) (seal_base : VersionId → Entry → Bytes)
    (seal_version : Bytes → Version → Bytes) (local : Bytes) where
  abbrev Sealed : Record → Type 0
  Sealed r = IsSealed seal_id seal_base seal_version local r

  -- The two ways in which a record passes.
  abbrev Passes : List Bytes → List Record → Record → List Record → Type 0
  Passes seen canonical r c =
      (any (is_path r.path) seen ≡ false)
      × (((canonical ≡ c) × IsKept canonical r)
          ⊎ ((insert_canonical_record canonical r ≡ ok c) × Sealed r))

  abbrev inserted : List Record → Record → Result (List Record) RemoteError
  inserted canonical r = do
    validate_owned_id seal_id seal_base seal_version local (version_id r.version)
    validate_owned_ids seal_id seal_base seal_version local r.version.seen
    validate_base seal_id seal_base seal_version local r.version.merge_base
    validate_version seal_id seal_base seal_version local r
    insert_canonical_record canonical r

  inserted-Sealed :
      (canonical c : List Record) (r : Record)
      → inserted canonical r ≡ ok c
      → (insert_canonical_record canonical r ≡ ok c) × Sealed r
  inserted-Sealed canonical c r h =
      let (u₁, (e₁, h₁)) =
        first_ok _ (validate_owned_id seal_id seal_base seal_version local (version_id r.version)) c
          h in
      let (u₂, (e₂, h₂)) =
        first_ok _ (validate_owned_ids seal_id seal_base seal_version local r.version.seen) c h₁ in
      let (u₃, (e₃, h₃)) =
        first_ok _ (validate_base seal_id seal_base seal_version local r.version.merge_base) c h₂ in
      let (u₄, (e₄, h₄)) =
        first_ok _ (validate_version seal_id seal_base seal_version local r) c h₃ in
      (
        h₄,
        record {
          own_id =
              validate_owned_id-IsOwn seal_id seal_base seal_version local (version_id r.version)
                e₁;
          own_seen =
              validate_owned_ids-IsOwn seal_id seal_base seal_version local r.version.seen e₂;
          own_base =
              validate_base-IsOwnBase seal_id seal_base seal_version local r.version.merge_base e₃;
          own_version = validate_version-own seal_id seal_base seal_version local r e₄;
        },
      )

  validate_record-Passes :
      (seen : List Bytes) (canonical c : List Record) (r : Record)
      → validate_record seal_id seal_base seal_version local seen canonical r ≡ ok c
      → Passes seen canonical r c
  unfolding validate_record
  validate_record-Passes seen canonical c r h = elim (Bool-cases (any (is_path r.path) seen)) [
    | inl e ↦ ground arith
    | inr e ↦ (
      e,
      elim (Bool-cases (is_untagged r.version && is_record (get_canonical r.version canonical) r)) [
        | inl f ↦
            inl (ground arith, is_record_eq (get_canonical r.version canonical) r (ground arith))
        | inr f ↦ inr (inserted-Sealed canonical c r (ground arith))
      ],
    )
  ]

  Passes-IsKept_still :
      (seen : List Bytes) (canonical c : List Record) (r a : Record)
      → Passes seen canonical r c
      → IsKept canonical a
      → IsKept c a
  Passes-IsKept_still seen canonical c r a (n, inl (e, k)) h = subst (λ d. IsKept d a) e h
  Passes-IsKept_still seen canonical c r a (n, inr (e, k)) h = insert_keeps canonical c r a e h

  Passes-IsKept :
      (seen : List Bytes) (canonical c : List Record) (r : Record)
      → Passes seen canonical r c
      → IsKept c r
  Passes-IsKept seen canonical c r (n, inl (e, k)) = subst (λ d. IsKept d r) e k
  Passes-IsKept seen canonical c r (n, inr (e, k)) = insert-IsKept canonical c r e

  abbrev loop : List Bytes → List Record → List Record → Result (Unit {0}) RemoteError
  loop = validate_loop seal_id seal_base seal_version local

  -- At the end of the loop every record is kept, with those from before.
  loop-IsKept :
      (seen : List Bytes) (canonical rs : List Record)
      → loop seen canonical rs ≡ ok tt
      → (c : List Record) × (((a : Record) → IsKept canonical a → IsKept c a) × All (IsKept c) rs)
  unfolding validate_loop
  loop-IsKept seen canonical [] h = (canonical, (λ a k. k, tt))
  loop-IsKept seen canonical (r ∷ rs) h =
      let (d, (e, h')) =
        first_ok (λ d. loop (r.path ∷ seen) d rs)
          (validate_record seal_id seal_base seal_version local seen canonical r) tt h in
      let p = validate_record-Passes seen canonical d r e in
      let (c, (keeps, kept)) = loop-IsKept (r.path ∷ seen) d rs h' in
      (
        c,
        (
          λ a k. keeps a (Passes-IsKept_still seen canonical d r a p k),
          (keeps r (Passes-IsKept seen canonical d r p), kept),
        ),
      )

  -- In an accepted exchange a peer and a sequence number name one record, among the local records,
  -- among the remote ones, and between a local and a remote one.
  pub validate_remote_records-HaveOneIdentity :
      (local_records remote_records : List Record)
      → validate_remote_records seal_id seal_base seal_version local local_records remote_records
        ≡ ok tt
      → HaveOneIdentity local_records local_records
        × HaveOneIdentity local_records remote_records
        × HaveOneIdentity remote_records remote_records
  unfolding validate_remote_records
  validate_remote_records-HaveOneIdentity ls rs h =
      let (d, (e, h')) = first_ok (λ d. loop [] d rs) (insert_all [] ls) tt h in
      let (c, (keeps, kept)) = loop-IsKept [] d rs h' in
      let kept_ls = All-map (IsKept d) (IsKept c) ls keeps (insert_all-IsKept [] d ls e) in
      (all_one c ls ls kept_ls kept_ls, all_one c ls rs kept_ls kept, all_one c rs rs kept kept)
    where
      all_one :
          (c xs ys : List Record) → All (IsKept c) xs → All (IsKept c) ys → HaveOneIdentity xs ys
      all_one c xs ys ha hb =
          All-map (IsKept c)
            (λ a.
              All
                (λ b.
                  a.version.peer ≡ b.version.peer → a.version.sequence ≡ b.version.sequence → a ≡ b)
                ys)
            xs
            (λ a ka.
              All-map (IsKept c)
                (λ b.
                  a.version.peer ≡ b.version.peer → a.version.sequence ≡ b.version.sequence → a ≡ b)
                ys (λ b kb. one_identity c a b ka kb) hb)
            ha

  -- Where a record that is kept came from: it is local, or its path was seen in the loop.
  abbrev IsFrom : List Record → List Bytes → Record → Type 0
  IsFrom ls seen q = Any (λ a. a ≡ q) ls ⊎ (any (is_path q.path) seen ≡ true)

  IsFrom-later :
      (ls : List Record) (seen : List Bytes) (p : Bytes) (q : Record)
      → IsFrom ls seen q
      → IsFrom ls (p ∷ seen) q
  IsFrom-later ls seen p q (inl h) = inl h
  IsFrom-later ls seen p q (inr h) = inr (ground arith)

  -- The record is one of the local records, or claims nothing that the peer has not authenticated.
  abbrev pub IsVouched : List Record → Record → Type 0
  IsVouched ls r = Any (λ a. a ≡ r) ls ⊎ Sealed r

  Passes-IsVouched :
      (ls : List Record) (seen : List Bytes) (canonical c : List Record) (r : Record)
      → Passes seen canonical r c
      → All (IsFrom ls seen) canonical
      → IsVouched ls r × All (IsFrom ls (r.path ∷ seen)) c
  Passes-IsVouched ls seen canonical c r (n, inl (e, k)) h =
      let later =
        All-map (IsFrom ls seen) (IsFrom ls (r.path ∷ seen)) canonical
          (λ q. IsFrom-later ls seen r.path q) h in
      (
        vouched (get_canonical-All (IsFrom ls seen) r.version canonical r k h),
        subst (All (IsFrom ls (r.path ∷ seen))) e later,
      )
    where
      vouched : IsFrom ls seen r → IsVouched ls r
      vouched (inl a) = inl a
      vouched (inr b) = absurd (true_false (sym b ∙ n))
        where
          true_false : true ≡ false → ⊥
          true_false f = cc
  Passes-IsVouched ls seen canonical c r (n, inr (e, sealed)) h =
      let later =
        All-map (IsFrom ls seen) (IsFrom ls (r.path ∷ seen)) canonical
          (λ q. IsFrom-later ls seen r.path q) h in
      let here : any (is_path r.path) (r.path ∷ seen) ≡ true =
        ground (arith, is_path_self r.path) in
      (
        inr sealed,
        subst (All (IsFrom ls (r.path ∷ seen))) (insert-cons canonical c r e) (inr here, later),
      )

  loop-IsVouched :
      (ls : List Record) (seen : List Bytes) (canonical rs : List Record)
      → loop seen canonical rs ≡ ok tt
      → All (IsFrom ls seen) canonical
      → All (IsVouched ls) rs
  unfolding validate_loop
  loop-IsVouched ls seen canonical [] h f = tt
  loop-IsVouched ls seen canonical (r ∷ rs) h f =
      let (d, (e, h')) =
        first_ok (λ d. loop (r.path ∷ seen) d rs)
          (validate_record seal_id seal_base seal_version local seen canonical r) tt h in
      let (v, f') =
        Passes-IsVouched ls seen canonical d r (validate_record-Passes seen canonical d r e) f in
      (v, loop-IsVouched ls (r.path ∷ seen) d rs h' f')

  -- Each record of an accepted snapshot is a local record, or has the peer's own authenticator on
  -- everything that it attributes to the peer: its version, its identity, what it has seen and the
  -- merge base.
  pub validate_remote_records-IsVouched :
      (local_records remote_records : List Record)
      → validate_remote_records seal_id seal_base seal_version local local_records remote_records
        ≡ ok tt
      → All (IsVouched local_records) remote_records
  unfolding validate_remote_records
  validate_remote_records-IsVouched ls rs h =
      let (d, (e, h')) = first_ok (λ d. loop [] d rs) (insert_all [] ls) tt h in
      loop-IsVouched ls [] d rs h' (
        insert_all-All (IsFrom ls []) [] d ls e tt
          (All-map (λ q. Any (λ a. a ≡ q) ls) (IsFrom ls []) ls (λ q m. inl m) (All-Any ls)))
