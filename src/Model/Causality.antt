-- ===== src/Model/Causality.antt =====
-- src/model.rs: the two orders on versions, `has_seen` and `lww_cmp`.
use file_local.Prelude.{◌≡◌, Ordering, arith}
use file_local.Prelude.Order.{cmp_int-IsOrder, cmp_bytes-IsOrder, compare-IsOrder, reversed}
use file_local.Model.{Version, lww_cmp}

-- Two endpoints that compare two versions from either side get opposite answers.
pub lww_cmp-reversed : (a b : Version) → lww_cmp b a ≡ reversed (lww_cmp a b)
unfolding lww_cmp
lww_cmp-reversed a b = ground (
  arith,
  cmp_int-IsOrder.cmp-reversed a.timestamp_ns b.timestamp_ns,
  cmp_bytes-IsOrder.cmp-reversed a.peer b.peer,
  compare-IsOrder.cmp-reversed a.sequence b.sequence,
)

-- Two versions tie in `lww_cmp` only if they have one timestamp, one peer and one sequence.
pub lww_cmp-tie :
    (a b : Version)
    → lww_cmp a b ≡ Ordering.eq
    → (a.timestamp_ns ≡ b.timestamp_ns) × (a.peer ≡ b.peer) × (a.sequence ≡ b.sequence)
unfolding lww_cmp
lww_cmp-tie a b h = (
  ground (
    arith,
    cmp_int-IsOrder.eq_of_cmp a.timestamp_ns b.timestamp_ns,
    cmp_bytes-IsOrder.eq_of_cmp a.peer b.peer,
    compare-IsOrder.eq_of_cmp a.sequence b.sequence,
  ),
  ground (
    arith,
    cmp_int-IsOrder.eq_of_cmp a.timestamp_ns b.timestamp_ns,
    cmp_bytes-IsOrder.eq_of_cmp a.peer b.peer,
    compare-IsOrder.eq_of_cmp a.sequence b.sequence,
  ),
  ground (
    arith,
    cmp_int-IsOrder.eq_of_cmp a.timestamp_ns b.timestamp_ns,
    cmp_bytes-IsOrder.eq_of_cmp a.peer b.peer,
    compare-IsOrder.eq_of_cmp a.sequence b.sequence,
  ),
)

-- `lww_cmp` is transitive.
lww_cmp_trans :
    (a b c : Version)
    → lww_cmp a b ≡ Ordering.lt
    → lww_cmp b c ≡ Ordering.lt
    → lww_cmp a c ≡ Ordering.lt
unfolding lww_cmp
lww_cmp_trans a b c p q = ground (
  arith,
  cmp_int-IsOrder.lt_trans a.timestamp_ns b.timestamp_ns c.timestamp_ns,
  cmp_int-IsOrder.eq_of_cmp a.timestamp_ns b.timestamp_ns,
  cmp_int-IsOrder.eq_of_cmp b.timestamp_ns c.timestamp_ns,
  cmp_int-IsOrder.cmp_self a.timestamp_ns,
  cmp_bytes-IsOrder.lt_trans a.peer b.peer c.peer,
  cmp_bytes-IsOrder.eq_of_cmp a.peer b.peer,
  cmp_bytes-IsOrder.eq_of_cmp b.peer c.peer,
  cmp_bytes-IsOrder.cmp_self a.peer,
  compare-IsOrder.lt_trans a.sequence b.sequence c.sequence,
)
