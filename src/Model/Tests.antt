-- ===== src/Model/Tests.antt =====
-- Runs of the checks of src/model.rs and of `peer_order`, and their theorems at concrete data.
use file_local.Prelude.{Ordering, ◌↔◌, ◌≢◌, refl, ◌≡◌, [], ◌∷◌, some, none, ℕ}
use file_local.Prelude.Order.{pos, cmp_bytes}
use file_local.Prelude.Results.{ok, err}
use file_local.Model.{Bytes, Bytes-discrete, Version, tombstone}
use file_local.Model.FilePath.{from_bytes, reserved, not_canonical, not_relative}
use file_local.Model.Ids.{
  IsPeerId, same_peer, PeerConfig, mirrored, peer_order, peer_order-mirrored,
}

nested_path : from_bytes (b'a' ∷ b'/' ∷ b'b' ∷ []) ≡ ok (b'a' ∷ b'/' ∷ b'b' ∷ [])
unfolding from_bytes Bytes-discrete
nested_path = refl

trailing_dot : from_bytes (b'a' ∷ b'/' ∷ b'.' ∷ []) ≡ err not_canonical
unfolding from_bytes Bytes-discrete
trailing_dot = refl

leading_dot : from_bytes (b'.' ∷ b'/' ∷ b'a' ∷ []) ≡ err not_relative
unfolding from_bytes Bytes-discrete
leading_dot = refl

git_below : from_bytes (b'a' ∷ b'/' ∷ b'.' ∷ b'g' ∷ b'i' ∷ b't' ∷ []) ≡ err reserved
unfolding from_bytes Bytes-discrete
git_below = refl

abbrev hub : Bytes
hub = b'h' ∷ b'u' ∷ b'b' ∷ []

abbrev node : Bytes
node = b'n' ∷ b'o' ∷ []

peer_order-mirrored_example :
    ((o : Ordering)
      → (peer_order hub node ≡ ok o)
        ↔ (IsPeerId hub × IsPeerId node × (cmp_bytes hub node ≡ o) × (o ≢ Ordering.eq)))
    × (peer_order node hub ≡ mirrored (peer_order hub node))
peer_order-mirrored_example = peer_order-mirrored hub node

ordered : peer_order hub node ≡ ok Ordering.lt
unfolding peer_order cmp_bytes
ordered = refl

same_peer_refused : peer_order hub hub ≡ err same_peer
unfolding peer_order cmp_bytes
same_peer_refused = refl

abbrev paired : PeerConfig
paired = record {
  peer_id = none;
  host = hub;
  remote_path = [];
  executable = [];
  relationship = some node;
}

abbrev at_time : ℕ → Version
at_time t = record {
  peer = hub;
  sequence = 1;
  id_authenticator = none;
  timestamp_ns = pos t;
  seen = [];
  merge_base = none;
  version_authenticator = none;
  base_authenticator = none;
  entry = tombstone;
}
