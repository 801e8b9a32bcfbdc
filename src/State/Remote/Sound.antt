-- ===== src/State/Remote/Sound.antt =====
-- src/state.rs: what holds of the records that `validate_remote_records` accepts.
use file_local.Prelude.{
  ℕ, subst, ◌≡◌, refl, sym, ◌∙◌, ap, true, false, Option, none, some, List, [], ◌∷◌, ◌⊎◌, inl, inr,
  All, arith, Bool-cases,
}
use file_local.Prelude.Results.{first_ok, eq_of_ok, Result, ok}
use file_local.Model.{
  BaseVersion, Bytes, Bytes-discrete, Entry, Record, Record-discrete, Version, VersionId,
  version_id,
}
use file_local.Sync.Materialize.{version_tag}
use file_local.State.Remote.{
  RemoteError, get_canonical, has_identity, insert_all, insert_canonical_record, validate_base,
  validate_owned_id, validate_owned_ids, validate_version, authenticator-discrete,
}

-- The record is the one kept under its identity.
abbrev pub IsKept : List Record → Record → Type 0
IsKept canonical a = get_canonical a.version canonical ≡ some a

pub get_canonical_same :
    (v w : Version) (rs : List Record)
    → v.peer ≡ w.peer
    → v.sequence ≡ w.sequence
    → get_canonical v rs ≡ get_canonical w rs
unfolding get_canonical has_identity
get_canonical_same v w [] p n = refl
get_canonical_same v w (r ∷ rs) p n = rw (p, n, get_canonical_same v w rs p n) refl

has_identity_self : (r : Record) → has_identity r.version r ≡ true
unfolding has_identity Bytes-discrete
has_identity_self r = ground arith

has_identity_same :
    (v : Version) (r : Record)
    → has_identity v r ≡ true
    → (r.version.peer ≡ v.peer) × (r.version.sequence ≡ v.sequence)
unfolding has_identity Bytes-discrete
has_identity_same v r h = (ground arith, ground arith)

pub insert-cons :
    (canonical canonical' : List Record) (r : Record)
    → insert_canonical_record canonical r ≡ ok canonical'
    → r ∷ canonical ≡ canonical'
unfolding insert_canonical_record
insert-cons canonical canonical' r h = ground arith

insert_agrees :
    (canonical canonical' : List Record) (r a : Record)
    → insert_canonical_record canonical r ≡ ok canonical'
    → get_canonical r.version canonical ≡ some a
    → a ≡ r
unfolding insert_canonical_record Record-discrete
insert_agrees canonical canonical' r a h k = ground arith

IsKept-behind :
    (canonical : List Record) (r a : Record)
    → ((b : Record) → get_canonical r.version canonical ≡ some b → b ≡ r)
    → IsKept canonical a
    → (has_identity a.version r ≡ true) ⊎ (has_identity a.version r ≡ false)
    → IsKept (r ∷ canonical) a
unfolding get_canonical
IsKept-behind canonical r a agrees k (inl m) =
    let (p, n) = has_identity_same a.version r m in
    rw m (ap some (sym (agrees a (get_canonical_same r.version a.version canonical p n ∙ k))))
IsKept-behind canonical r a agrees k (inr m) = rw m k

pub insert_keeps :
    (canonical canonical' : List Record) (r a : Record)
    → insert_canonical_record canonical r ≡ ok canonical'
    → IsKept canonical a
    → IsKept canonical' a
insert_keeps canonical canonical' r a h k =
    subst (λ c. IsKept c a) (insert-cons canonical canonical' r h)
      (IsKept-behind canonical r a (λ b. insert_agrees canonical canonical' r b h) k
        (Bool-cases (has_identity a.version r)))

pub insert-IsKept :
    (canonical canonical' : List Record) (r : Record)
    → insert_canonical_record canonical r ≡ ok canonical'
    → IsKept canonical' r
unfolding get_canonical
insert-IsKept canonical canonical' r h =
    subst (λ c. IsKept c r) (insert-cons canonical canonical' r h) (rw (has_identity_self r) refl)

pub insert_all_keeps :
    (canonical canonical' rs : List Record) (a : Record)
    → insert_all canonical rs ≡ ok canonical'
    → IsKept canonical a
    → IsKept canonical' a
unfolding insert_all
insert_all_keeps canonical canonical' [] a h k = ground arith
insert_all_keeps canonical canonical' (r ∷ rs) a h k =
    let (c, (e, h')) =
      first_ok (λ c. insert_all c rs) (insert_canonical_record canonical r) canonical' h in
    insert_all_keeps c canonical' rs a h' (insert_keeps canonical c r a e k)

pub insert_all-IsKept :
    (canonical canonical' rs : List Record)
    → insert_all canonical rs ≡ ok canonical'
    → All (IsKept canonical') rs
unfolding insert_all
insert_all-IsKept canonical canonical' [] h = tt
insert_all-IsKept canonical canonical' (r ∷ rs) h =
    let (c, (e, h')) =
      first_ok (λ c. insert_all c rs) (insert_canonical_record canonical r) canonical' h in
    (
      insert_all_keeps c canonical' rs r h' (insert-IsKept canonical c r e),
      insert_all-IsKept c canonical' rs h',
    )

-- What is kept under an identity has every property that all the kept records have.
same_some : (r a : Record) → some r ≡ some a → r ≡ a
same_some r a h = cc

pub get_canonical-All :
    (P : Record → Type 0) (v : Version) (rs : List Record) (a : Record)
    → get_canonical v rs ≡ some a
    → All P rs
    → P a
unfolding get_canonical
get_canonical-All P v [] a h all = cc
get_canonical-All P v (r ∷ rs) a h all = elim (Bool-cases (has_identity v r)) [
  | inl m ↦ subst P (same_some r a (ground arith)) all.0
  | inr m ↦ get_canonical-All P v rs a (ground arith) all.1
]

pub insert_all-All :
    (P : Record → Type 0) (canonical canonical' rs : List Record)
    → insert_all canonical rs ≡ ok canonical'
    → All P canonical
    → All P rs
    → All P canonical'
unfolding insert_all
insert_all-All P canonical canonical' [] h c all = subst (All P) (eq_of_ok canonical canonical' h) c
insert_all-All P canonical canonical' (r ∷ rs) h c all =
    let (d, (e, h')) =
      first_ok (λ c. insert_all c rs) (insert_canonical_record canonical r) canonical' h in
    insert_all-All P d canonical' rs h' (subst (All P) (insert-cons canonical d r e) (all.0, c))
      all.1

-- The identity, if it is the peer's own, has the peer's authenticator.
abbrev pub IsOwn : (Bytes → ℕ → Bytes) → Bytes → VersionId → Type 0
IsOwn seal_id local id = id.peer ≡ local → id.authenticator ≡ some (seal_id id.peer id.sequence)

-- So has the merge base.
abbrev pub IsOwnBase :
    (Bytes → ℕ → Bytes) → (VersionId → Entry → Bytes) → Bytes → Option BaseVersion → Type 0
IsOwnBase seal_id seal_base local none = Unit {0}
IsOwnBase seal_id seal_base local (some base) =
    IsOwn seal_id local base.id
    × (base.id.peer ≡ local → base.authenticator ≡ some (seal_base base.id base.entry))

module _ (seal_id : Bytes → ℕ → Bytes) (seal_base : VersionId → Entry → Bytes)
    (seal_version : Bytes → Version → Bytes) (local : Bytes) where
  -- Nothing in the record claims to be the peer's own without its authenticator.
  pub record IsSealed (r : Record) : Type 0 where
    pub own_id : IsOwn seal_id local (version_id r.version)
    pub own_seen : All (IsOwn seal_id local) r.version.seen
    pub own_base : IsOwnBase seal_id seal_base local r.version.merge_base
    pub own_version :
        r.version.peer ≡ local
        → r.version.version_authenticator
          ≡ some (version_tag seal_id seal_base seal_version r.path r.version)

  abbrev owned_id : VersionId → Result (Unit {0}) RemoteError
  owned_id = validate_owned_id seal_id seal_base seal_version local

  pub validate_owned_id-IsOwn : (id : VersionId) → owned_id id ≡ ok tt → IsOwn seal_id local id
  unfolding validate_owned_id authenticator-discrete Bytes-discrete
  validate_owned_id-IsOwn id h e = ground arith

  pub validate_owned_ids-IsOwn :
      (ids : List VersionId)
      → validate_owned_ids seal_id seal_base seal_version local ids ≡ ok tt
      → All (IsOwn seal_id local) ids
  unfolding validate_owned_ids
  validate_owned_ids-IsOwn [] h = tt
  validate_owned_ids-IsOwn (id ∷ ids) h =
      let (u, (e, h')) =
        first_ok (λ _. validate_owned_ids seal_id seal_base seal_version local ids) (owned_id id) tt
          h in
      (validate_owned_id-IsOwn id e, validate_owned_ids-IsOwn ids h')

  pub validate_base-IsOwnBase :
      (base : Option BaseVersion)
      → validate_base seal_id seal_base seal_version local base ≡ ok tt
      → IsOwnBase seal_id seal_base local base
  unfolding validate_base authenticator-discrete Bytes-discrete
  validate_base-IsOwnBase none h = tt
  validate_base-IsOwnBase (some base) h =
      let (u, (e, h')) = first_ok _ (owned_id base.id) tt h in
      (validate_owned_id-IsOwn base.id e, λ p. ground arith)

  pub validate_version-own :
      (r : Record)
      → validate_version seal_id seal_base seal_version local r ≡ ok tt
      → r.version.peer ≡ local
      → r.version.version_authenticator
        ≡ some (version_tag seal_id seal_base seal_version r.path r.version)
  unfolding validate_version authenticator-discrete Bytes-discrete
  validate_version-own r h e = ground arith
