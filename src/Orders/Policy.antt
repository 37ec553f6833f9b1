-- ===== src/Orders/Policy.antt =====
-- orders/policies: order-access-policy.helper.ts, order-policy.service.ts and
-- order-inventory-lifecycle.helper.ts.
use wer_te_backend.Prelude.{Bool, true, false, not, ◌&&◌, ◌||◌, Option, none, some, if◌then◌else◌}
use wer_te_backend.Domain.Enums.{UserRole, OrderStatus, DeliveryType, order_is}
use wer_te_backend.Domain.Entities.{User}
use wer_te_backend.Access.{has_role, has_owned_resource_access}
use wer_te_backend.Orders.View.{OrderSummary, DeliverySummary, RiderSummary}

unfoldable pub has_customer_order_access : User → OrderSummary → Bool
unfolding has_owned_resource_access
has_customer_order_access u o =
    has_owned_resource_access u UserRole.customer o.customer_user_id o.customer_profile_id
      u.actor_context.customer_profile_id

unfoldable pub has_merchant_order_access : User → OrderSummary → Bool
unfolding has_owned_resource_access
has_merchant_order_access u o =
    has_owned_resource_access u UserRole.merchant o.merchant_user_id o.merchant_id
      u.actor_context.merchant_id

-- `order.delivery?.rider`
abbrev assigned_rider : Option DeliverySummary → Option RiderSummary
assigned_rider none = none
assigned_rider (some d) = d.rider

unfoldable pub has_rider_order_access : User → OrderSummary → Bool
unfolding has_owned_resource_access
has_rider_order_access u o = elim (assigned_rider o.delivery) [
  | none ↦ false
  | some rider ↦
      has_owned_resource_access u UserRole.rider rider.user_id rider.rider_id
        u.actor_context.rider_id
]

abbrev pub customer_cancellable : OrderStatus → Bool
customer_cancellable OrderStatus.placed = true
customer_cancellable OrderStatus.merchant_accepted = true
customer_cancellable OrderStatus.preparing = true
customer_cancellable OrderStatus.ready = true
customer_cancellable _ = false

abbrev pub admin_cancellable : OrderStatus → Bool
admin_cancellable OrderStatus.placed = true
admin_cancellable OrderStatus.merchant_accepted = true
admin_cancellable OrderStatus.preparing = true
admin_cancellable OrderStatus.ready = true
admin_cancellable OrderStatus.rider_assigned = true
admin_cancellable OrderStatus.rider_accepted = true
admin_cancellable OrderStatus.picked_up = true
admin_cancellable OrderStatus.on_the_way = true
admin_cancellable _ = false

abbrev pub rider_failable : OrderStatus → Bool
rider_failable OrderStatus.picked_up = true
rider_failable OrderStatus.on_the_way = true
rider_failable _ = false

abbrev pub is_pickup : DeliveryType → Bool
is_pickup DeliveryType.pickup = true
is_pickup DeliveryType.delivery = false

unfoldable pub can_view_admin_orders : User → Bool
can_view_admin_orders u = has_role u UserRole.admin

unfoldable pub can_view_order : User → OrderSummary → Bool
unfolding can_view_admin_orders has_customer_order_access has_merchant_order_access
    has_rider_order_access
can_view_order u o =
    can_view_admin_orders u
    || has_customer_order_access u o
    || has_merchant_order_access u o
    || has_rider_order_access u o

unfoldable pub can_cancel_customer_order : User → OrderSummary → Bool
unfolding has_customer_order_access
can_cancel_customer_order u o = has_customer_order_access u o && customer_cancellable o.status

unfoldable pub can_merchant_accept : User → OrderSummary → Bool
unfolding has_merchant_order_access
can_merchant_accept u o = has_merchant_order_access u o && order_is o.status OrderStatus.placed

unfoldable pub can_merchant_reject : User → OrderSummary → Bool
unfolding has_merchant_order_access
can_merchant_reject u o = has_merchant_order_access u o && order_is o.status OrderStatus.placed

-- A pickup order has no rider step; a delivery waits for the rider to accept.
unfoldable pub can_mark_preparing : User → OrderSummary → Bool
unfolding has_merchant_order_access
can_mark_preparing u o =
    if not (has_merchant_order_access u o)
    then false
    else if is_pickup o.delivery_type
    then order_is o.status OrderStatus.merchant_accepted
    else order_is o.status OrderStatus.rider_accepted

unfoldable pub can_mark_ready : User → OrderSummary → Bool
unfolding has_merchant_order_access
can_mark_ready u o = has_merchant_order_access u o && order_is o.status OrderStatus.preparing

unfoldable pub can_merchant_confirm_pickup : User → OrderSummary → Bool
unfolding has_merchant_order_access
can_merchant_confirm_pickup u o =
    has_merchant_order_access u o
    && is_pickup o.delivery_type
    && order_is o.status OrderStatus.ready

unfoldable pub can_rider_accept_assignment : User → OrderSummary → Bool
unfolding has_rider_order_access
can_rider_accept_assignment u o =
    has_rider_order_access u o && order_is o.status OrderStatus.rider_assigned

unfoldable pub can_rider_reject_assignment : User → OrderSummary → Bool
unfolding has_rider_order_access
can_rider_reject_assignment u o =
    has_rider_order_access u o && order_is o.status OrderStatus.rider_assigned

unfoldable pub can_rider_mark_picked_up : User → OrderSummary → Bool
unfolding has_rider_order_access
can_rider_mark_picked_up u o = has_rider_order_access u o && order_is o.status OrderStatus.ready

unfoldable pub can_rider_mark_on_the_way : User → OrderSummary → Bool
unfolding has_rider_order_access
can_rider_mark_on_the_way u o =
    has_rider_order_access u o && order_is o.status OrderStatus.picked_up

unfoldable pub can_rider_mark_delivered : User → OrderSummary → Bool
unfolding has_rider_order_access
can_rider_mark_delivered u o =
    has_rider_order_access u o && order_is o.status OrderStatus.on_the_way

unfoldable pub can_rider_mark_failed_delivery : User → OrderSummary → Bool
unfolding has_rider_order_access
can_rider_mark_failed_delivery u o = has_rider_order_access u o && rider_failable o.status

unfoldable pub can_admin_override_status : User → Bool
can_admin_override_status u = has_role u UserRole.admin

unfoldable pub can_admin_assign_rider : User → OrderSummary → Bool
unfolding can_view_admin_orders
can_admin_assign_rider u o =
    can_view_admin_orders u
    && (order_is o.status OrderStatus.merchant_accepted
        || order_is o.status OrderStatus.rider_assigned)

unfoldable pub can_admin_cancel_order : User → OrderSummary → Bool
unfolding can_view_admin_orders
can_admin_cancel_order u o = can_view_admin_orders u && admin_cancellable o.status

abbrev release_to : OrderStatus → Bool
release_to OrderStatus.cancelled = true
release_to OrderStatus.merchant_rejected = true
release_to _ = false

abbrev releasable_from : OrderStatus → Bool
releasable_from OrderStatus.placed = true
releasable_from OrderStatus.merchant_accepted = true
releasable_from _ = false

-- `shouldReleaseInventoryForOrderTransition`
unfoldable pub should_release_inventory : OrderStatus → OrderStatus → Bool
should_release_inventory from_status to_status =
    if order_is from_status to_status
    then false
    else release_to to_status && releasable_from from_status
