-- ===== src/Deliveries/Policy.antt =====
-- deliveries/policies/rider-delivery-policy.helper.ts, on a delivery row with its order's status.
use wer_te_backend.Prelude.{Bool, true, false, ◌&&◌, ◌||◌, none, some, option_is}
use wer_te_backend.Domain.Enums.{OrderStatus, DeliveryStatus, order_is, delivery_is}
use wer_te_backend.Domain.Entities.{User, Delivery, Order}

-- `RiderDeliveryPolicyRecord`, the row that `findRiderDeliveryById` returns.
pub record DeliveryDetail : Type 0 where
  pub delivery : Delivery
  pub order : Order

unfoldable pub has_rider_scope : User → DeliveryDetail → Bool
has_rider_scope u d = elim u.actor_context.rider_id [
  | none ↦ false
  | some k ↦ option_is d.delivery.rider_id k
]

unfoldable pub can_rider_accept_delivery_request : User → DeliveryDetail → Bool
unfolding has_rider_scope
can_rider_accept_delivery_request u d =
    has_rider_scope u d
    && order_is d.order.status OrderStatus.rider_assigned
    && delivery_is d.delivery.status DeliveryStatus.assigned

unfoldable pub can_rider_reject_delivery_request : User → DeliveryDetail → Bool
unfolding can_rider_accept_delivery_request
can_rider_reject_delivery_request u d = can_rider_accept_delivery_request u d

unfoldable pub can_rider_mark_delivery_picked_up : User → DeliveryDetail → Bool
unfolding has_rider_scope
can_rider_mark_delivery_picked_up u d =
    has_rider_scope u d
    && order_is d.order.status OrderStatus.ready
    && (delivery_is d.delivery.status DeliveryStatus.accepted
        || delivery_is d.delivery.status DeliveryStatus.assigned)

unfoldable pub can_rider_mark_delivery_on_the_way : User → DeliveryDetail → Bool
unfolding has_rider_scope
can_rider_mark_delivery_on_the_way u d =
    has_rider_scope u d
    && order_is d.order.status OrderStatus.picked_up
    && delivery_is d.delivery.status DeliveryStatus.picked_up

unfoldable pub can_rider_mark_delivery_delivered : User → DeliveryDetail → Bool
unfolding has_rider_scope
can_rider_mark_delivery_delivered u d =
    has_rider_scope u d
    && order_is d.order.status OrderStatus.on_the_way
    && delivery_is d.delivery.status DeliveryStatus.on_the_way

unfoldable pub can_rider_mark_delivery_failed : User → DeliveryDetail → Bool
unfolding has_rider_scope
can_rider_mark_delivery_failed u d =
    let can_fail_order =
      order_is d.order.status OrderStatus.picked_up
      || order_is d.order.status OrderStatus.on_the_way in
    let can_fail_delivery =
      delivery_is d.delivery.status DeliveryStatus.picked_up
      || delivery_is d.delivery.status DeliveryStatus.on_the_way in
    has_rider_scope u d && can_fail_order && can_fail_delivery

abbrev cancellable_order : OrderStatus → Bool
cancellable_order OrderStatus.rider_assigned = true
cancellable_order OrderStatus.rider_accepted = true
cancellable_order OrderStatus.preparing = true
cancellable_order OrderStatus.ready = true
cancellable_order _ = false

abbrev cancellable_delivery : DeliveryStatus → Bool
cancellable_delivery DeliveryStatus.assigned = true
cancellable_delivery DeliveryStatus.accepted = true
cancellable_delivery _ = false

-- Allowed until the rider has the food in hand.
unfoldable pub can_rider_cancel_pre_pickup : User → DeliveryDetail → Bool
unfolding has_rider_scope
can_rider_cancel_pre_pickup u d =
    has_rider_scope u d
    && cancellable_order d.order.status
    && cancellable_delivery d.delivery.status
