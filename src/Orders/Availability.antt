-- ===== src/Orders/Availability.antt =====
-- What `computeOrderAvailableActions` offers.
use wer_te_backend.Prelude.{true, false, [], ◌≡◌, arith}
use wer_te_backend.Domain.Enums.{UserRole}
use wer_te_backend.Domain.Entities.{User}
use wer_te_backend.Access.{has_role}
use wer_te_backend.Orders.View.{OrderSummary}
use wer_te_backend.Orders.Policy.{
  can_cancel_customer_order, can_merchant_accept, can_merchant_reject, can_mark_preparing,
  can_mark_ready, can_merchant_confirm_pickup, can_rider_accept_assignment,
  can_rider_reject_assignment, can_rider_mark_picked_up, can_rider_mark_on_the_way,
  can_rider_mark_delivered, can_rider_mark_failed_delivery, can_admin_assign_rider,
  can_admin_cancel_order, can_admin_override_status, can_view_admin_orders,
}
use wer_te_backend.Orders.Actions.{compute_order_available_actions}
use wer_te_backend.Flow.Diagram.{is_terminal}

-- An order that is delivered, cancelled, rejected or failed offers no action to a user who is not an
-- admin.
pub terminal-compute_order_available_actions :
    (u : User) (o : OrderSummary)
    → is_terminal o.status ≡ true
    → has_role u UserRole.admin ≡ false
    → compute_order_available_actions u o ≡ []
unfolding compute_order_available_actions can_cancel_customer_order can_merchant_accept
    can_merchant_reject can_mark_preparing can_mark_ready can_merchant_confirm_pickup
    can_rider_accept_assignment can_rider_reject_assignment can_rider_mark_picked_up
    can_rider_mark_on_the_way can_rider_mark_delivered can_rider_mark_failed_delivery
    can_admin_assign_rider can_admin_cancel_order can_admin_override_status can_view_admin_orders
terminal-compute_order_available_actions u o h a = ground arith
