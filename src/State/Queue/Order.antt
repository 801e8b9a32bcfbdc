-- ===== src/State/Queue/Order.antt =====
-- src/state.rs: the order of the requests of one authority.
use file_local.Prelude.{◌≡◌, false, true, Ordering, arith, Option, none, some, refl}
use file_local.Prelude.Order.{cmp_int-IsOrder, reversed, ℤ, IsOrder}
use file_local.State.Queue.{ScheduledRequestSnapshot, cmp_order, cmp_place, is_before}

cmp_order-IsOrder : IsOrder cmp_order
unfolding cmp_order
cmp_order-IsOrder = record {
  cmp_self = order_self;
  cmp-reversed = order_reversed;
  eq_of_cmp = order_eq;
  lt_trans = order_trans;
}
  where
    order_self : (a : Option ℤ) → cmp_order a a ≡ Ordering.eq
    order_self none = refl
    order_self (some a) = cmp_int-IsOrder.cmp_self a

    order_reversed : (a b : Option ℤ) → cmp_order b a ≡ reversed (cmp_order a b)
    order_reversed none none = refl
    order_reversed none (some b) = refl
    order_reversed (some a) none = refl
    order_reversed (some a) (some b) = cmp_int-IsOrder.cmp-reversed a b

    order_eq : (a b : Option ℤ) → cmp_order a b ≡ Ordering.eq → a ≡ b
    order_eq none none h = refl
    order_eq none (some b) h = cc
    order_eq (some a) none h = cc
    order_eq (some a) (some b) h = ground (arith, cmp_int-IsOrder.eq_of_cmp a b h)

    order_trans :
        (a b c : Option ℤ)
        → cmp_order a b ≡ Ordering.lt
        → cmp_order b c ≡ Ordering.lt
        → cmp_order a c ≡ Ordering.lt
    order_trans none none c h k = cc
    order_trans none (some b) none h k = cc
    order_trans none (some b) (some c) h k = refl
    order_trans (some a) none c h k = cc
    order_trans (some a) (some b) none h k = cc
    order_trans (some a) (some b) (some c) h k = cmp_int-IsOrder.lt_trans a b c h k

pub is_before_self : (r : ScheduledRequestSnapshot) → is_before r r ≡ false
unfolding cmp_place
is_before_self r =
    ground (arith, cmp_order-IsOrder.cmp_self r.network_order, cmp_int-IsOrder.cmp_self r.ticket)

pub is_before_asym : (r h : ScheduledRequestSnapshot) → is_before r h ≡ true → is_before h r ≡ false
unfolding cmp_place
is_before_asym r h e = ground (
  arith,
  cmp_order-IsOrder.cmp-reversed r.network_order h.network_order,
  cmp_int-IsOrder.cmp-reversed r.ticket h.ticket,
)

-- If neither `h` is before `f` nor `r` before `h`, then `r` is not before `f`.
pub is_before_trans :
    (f h r : ScheduledRequestSnapshot)
    → is_before h f ≡ false
    → is_before r h ≡ false
    → is_before r f ≡ false
unfolding cmp_place
is_before_trans f h r p q = ground (
  arith,
  cmp_order-IsOrder.cmp-reversed f.network_order h.network_order,
  cmp_order-IsOrder.cmp-reversed h.network_order r.network_order,
  cmp_order-IsOrder.cmp-reversed r.network_order f.network_order,
  cmp_order-IsOrder.eq_of_cmp f.network_order h.network_order,
  cmp_order-IsOrder.eq_of_cmp h.network_order r.network_order,
  cmp_order-IsOrder.eq_of_cmp f.network_order r.network_order,
  cmp_order-IsOrder.lt_trans f.network_order h.network_order r.network_order,
  cmp_order-IsOrder.lt_trans r.network_order f.network_order h.network_order,
  cmp_int-IsOrder.cmp-reversed f.ticket h.ticket,
  cmp_int-IsOrder.cmp-reversed h.ticket r.ticket,
  cmp_int-IsOrder.cmp-reversed r.ticket f.ticket,
  cmp_int-IsOrder.eq_of_cmp f.ticket h.ticket,
  cmp_int-IsOrder.lt_trans r.ticket f.ticket h.ticket,
)
