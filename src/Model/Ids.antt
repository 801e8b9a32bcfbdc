-- ===== src/Model/Ids.antt =====
-- src/model.rs: the checks of `RelationshipId::parse`, `ObjectHash::parse` and
-- `PeerConfig::validate`, and of `peer_order` in src/sync.rs.
use file_local.Prelude.{
  ℕ, ◌≡◌, Bool, true, false, not, Option, none, some, Ordering, ◌||◌, ◌&&◌, arith, ltb, leb, ◌==◌,
  if◌then◌else◌, length, is_empty, all, ◌↔◌, ◌≢◌, ◌⊎◌, inl, inr, refl, ◌≤◌, [], ◌∷◌, All,
}
use file_local.Prelude.Results.{Result, ok, err, ◌>>◌, guard}
use file_local.Prelude.Order.{cmp_bytes, cmp_bytes-IsOrder, reversed}
use file_local.Model.{Bytes}

pub data IdError : Type 0 where
  bad_relationship bad_hash bad_peer same_peer no_identity incomplete : IdError

abbrev pub between : ℕ → ℕ → ℕ → Bool
between lo hi c = leb lo c && leb c hi

-- `is_ascii_alphanumeric() || matches!(byte, b'-' | b'_')`.
abbrev pub is_safe_byte : ℕ → Bool
is_safe_byte c =
    between b'0' b'9' c || between b'A' b'Z' c || between b'a' b'z' c || c == b'-' || c == b'_'

unfoldable pub parse_relationship : Bytes → Result Bytes IdError
parse_relationship value =
    if is_empty value || ltb 128 (length value) || not (all is_safe_byte value)
    then err bad_relationship
    else ok value

abbrev is_hex_byte : ℕ → Bool
is_hex_byte c = between b'0' b'9' c || between b'a' b'f' c

unfoldable pub parse_hash : Bytes → Result Bytes IdError
parse_hash value =
    if not (length value == 64) || not (all is_hex_byte value) then err bad_hash else ok value

pub record PeerConfig : Type 0 where
  pub peer_id : Option Bytes
  pub host : Bytes
  pub remote_path : Bytes
  pub executable : Bytes
  pub relationship : Option Bytes

-- `RelationshipId::validate` parses the value again.
validate_relationship : Bytes → Result (Unit {0}) IdError
validate_relationship r = elim (parse_relationship r) [ ok value ↦ ok tt | err e ↦ err e ]

validate_identity : Option Bytes → Option Bytes → Result (Unit {0}) IdError
validate_identity none (some r) = validate_relationship r
validate_identity (some p) (some r) = validate_relationship r
validate_identity (some p) none = ok tt
validate_identity none none = err no_identity

-- `PeerConfig::validate`.
unfoldable pub validate : PeerConfig → Result (Unit {0}) IdError
unfolding validate_identity validate_relationship parse_relationship
validate c = validate_identity c.peer_id c.relationship

unfoldable pub completed_peer_id : PeerConfig → Result Bytes IdError
completed_peer_id c = elim c.peer_id [ none ↦ err incomplete | some p ↦ ok p ]

-- The test that `peer_order` makes of each peer.
unfoldable pub is_peer_id : Bytes → Bool
is_peer_id p = not (is_empty p || ltb 128 (length p) || not (all is_safe_byte p))

distinct : Ordering → Result Ordering IdError
distinct Ordering.eq = err same_peer
distinct Ordering.lt = ok Ordering.lt
distinct Ordering.gt = ok Ordering.gt

-- `peer_order`: which of two peers takes the authority's part.
unfoldable pub peer_order : Bytes → Bytes → Result Ordering IdError
unfolding is_peer_id distinct
peer_order local remote = do
  guard (is_peer_id local) bad_peer
  guard (is_peer_id remote) bad_peer
  distinct (cmp_bytes local remote)

-- The two endpoints come to opposite answers, or both refuse: of a pair of peers at most one is
-- the authority.
abbrev pub mirrored : Result Ordering IdError → Result Ordering IdError
mirrored (ok o) = ok (reversed o)
mirrored (err e) = err e

-- An identifier that the code takes: 1 to 128 bytes, each a letter, a digit, `-` or `_` of ASCII.
abbrev pub IsSafeByte : ℕ → Type 0
IsSafeByte c =
    ((b'0' ≤ c) × (c ≤ b'9'))
    ⊎ ((b'A' ≤ c) × (c ≤ b'Z'))
    ⊎ ((b'a' ≤ c) × (c ≤ b'z'))
    ⊎ (c ≡ b'-')
    ⊎ (c ≡ b'_')

abbrev pub IsPeerId : Bytes → Type 0
IsPeerId p = (p ≢ []) × (length p ≤ 128) × All IsSafeByte p

is_safe_byte_lem : (c : ℕ) → (is_safe_byte c ≡ true) ↔ IsSafeByte c
is_safe_byte_lem c = (λ h. ground arith, λ h. ground arith)

all-is_safe_byte : (p : Bytes) → (all is_safe_byte p ≡ true) ↔ All IsSafeByte p
all-is_safe_byte [] = (λ h. tt, λ h. refl)
all-is_safe_byte (c ∷ p) = (
  λ h. ((is_safe_byte_lem c).0 (ground arith), (all-is_safe_byte p).0 (ground arith)),
  λ (s, r). rw ((is_safe_byte_lem c).1 s) ((all-is_safe_byte p).1 r),
)

is_peer_id_lem : (p : Bytes) → (is_peer_id p ≡ true) ↔ IsPeerId p
unfolding is_peer_id
is_peer_id_lem [] = (λ h. cc, λ h. absurd (h.0 refl))
is_peer_id_lem (c ∷ p) = (
  λ h. (λ e. cc, ground arith, (all-is_safe_byte (c ∷ p)).0 (ground arith)),
  λ h. let safe = (all-is_safe_byte (c ∷ p)).1 h.2 in let short = h.1 in ground arith,
)

peer_order-ok :
    (local remote : Bytes) (o : Ordering)
    → (peer_order local remote ≡ ok o) ↔ (
        (is_peer_id local ≡ true)
        × (is_peer_id remote ≡ true)
        × (cmp_bytes local remote ≡ o)
        × (o ≢ Ordering.eq))
unfolding peer_order
peer_order-ok local remote o =
    (λ h. (ground arith, ground arith, ground arith, λ e. ground arith), λ h. ground arith)

-- `peer_order` answers exactly if both identifiers are valid and differ, with the order of their
-- bytes, which is not `eq`; and the other endpoint, which runs it on its own view, gets the mirror
-- image of the answer: the opposite order, or the same refusal.
pub peer_order-mirrored :
    (local remote : Bytes)
    → ((o : Ordering)
        → (peer_order local remote ≡ ok o)
          ↔ (IsPeerId local × IsPeerId remote × (cmp_bytes local remote ≡ o) × (o ≢ Ordering.eq)))
      × (peer_order remote local ≡ mirrored (peer_order local remote))
unfolding peer_order
peer_order-mirrored local remote = (
  λ o. (
    λ h.
        let (l, r, e, n) = (peer_order-ok local remote o).0 h in
        ((is_peer_id_lem local).0 l, (is_peer_id_lem remote).0 r, e, n),
    λ (l, r, e, n).
        (peer_order-ok local remote o).1
          ((is_peer_id_lem local).1 l, (is_peer_id_lem remote).1 r, e, n),
  ),
  ground (arith, cmp_bytes-IsOrder.cmp-reversed local remote),
)

abbrev pub IsIdentified : Option Bytes → Option Bytes → Type 0
IsIdentified p r = (p ≢ none) ⊎ (r ≢ none)

abbrev pub IsSafeRelationship : Option Bytes → Type 0
IsSafeRelationship none = Unit {0}
IsSafeRelationship (some r) = (is_empty r ≡ false) × (length r ≤ 128) × (all is_safe_byte r ≡ true)

validate_relationship_lem :
    (r : Bytes) → (validate_relationship r ≡ ok tt) ↔ IsSafeRelationship (some r)
unfolding validate
validate_relationship_lem r = (λ h. (ground arith, ground arith, ground arith), λ h. ground arith)

validate_identity_lem :
    (p r : Option Bytes)
    → (validate_identity p r ≡ ok tt) ↔ (IsIdentified p r × IsSafeRelationship r)
unfolding validate_identity
validate_identity_lem none none = (λ h. cc, λ h. ground arith)
validate_identity_lem (some p) none = (λ h. (inl (λ e. cc), tt), λ h. refl)
validate_identity_lem none (some r) = (
  λ h. (inr (λ e. cc), (validate_relationship_lem r).0 h),
  λ h. (validate_relationship_lem r).1 h.1,
)
validate_identity_lem (some p) (some r) = (
  λ h. (inl (λ e. cc), (validate_relationship_lem r).0 h),
  λ h. (validate_relationship_lem r).1 h.1,
)

-- A connector's configuration is valid exactly if it names a peer or a relationship, and the
-- relationship that it names, if any, is 1 to 128 safe ASCII bytes.
validate_lem :
    (c : PeerConfig)
    → (validate c ≡ ok tt)
      ↔ (IsIdentified c.peer_id c.relationship × IsSafeRelationship c.relationship)
unfolding validate
validate_lem c = validate_identity_lem c.peer_id c.relationship
