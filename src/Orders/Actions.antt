-- ===== src/Orders/Actions.antt =====
-- orders/policies/order-available-actions.helper.ts.
use wer_te_backend.Prelude.{Bool, List, [], ◌∷◌, if◌then◌else◌}
use wer_te_backend.Domain.Entities.{User}
use wer_te_backend.Orders.View.{OrderSummary}
use wer_te_backend.Orders.Policy.{
  can_cancel_customer_order, can_merchant_accept, can_merchant_reject, can_mark_preparing,
  can_mark_ready, can_merchant_confirm_pickup, can_rider_accept_assignment,
  can_rider_reject_assignment, can_rider_mark_picked_up, can_rider_mark_on_the_way,
  can_rider_mark_delivered, can_rider_mark_failed_delivery, can_admin_assign_rider,
  can_admin_cancel_order, can_admin_override_status,
}

pub data OrderAction : Type 0 where
  cancel merchant_accept merchant_reject mark_preparing mark_ready : OrderAction
  merchant_confirm_pickup rider_accept_assignment rider_reject_assignment : OrderAction
  rider_mark_picked_up rider_mark_on_the_way rider_mark_delivered : OrderAction
  rider_mark_failed_delivery admin_assign_rider admin_cancel admin_override_status : OrderAction

-- One step of `if (…) actions.push(…)`, before the actions of the later steps.
abbrev push_if : Bool → OrderAction → List OrderAction → List OrderAction
push_if test action rest = if test then action ∷ rest else rest

unfoldable pub compute_order_available_actions : User → OrderSummary → List OrderAction
compute_order_available_actions u o = push_if (can_cancel_customer_order u o) OrderAction.cancel (
    push_if (can_merchant_accept u o) OrderAction.merchant_accept (
      push_if (can_merchant_reject u o) OrderAction.merchant_reject (
        push_if (can_mark_preparing u o) OrderAction.mark_preparing (
          push_if (can_mark_ready u o) OrderAction.mark_ready (
            push_if (can_merchant_confirm_pickup u o) OrderAction.merchant_confirm_pickup (
              push_if (can_rider_accept_assignment u o) OrderAction.rider_accept_assignment (
                push_if (can_rider_reject_assignment u o) OrderAction.rider_reject_assignment
                  rider_and_admin_actions)))))))
  where
    admin_actions : List OrderAction
    admin_actions = push_if (can_admin_assign_rider u o) OrderAction.admin_assign_rider (
        push_if (can_admin_cancel_order u o) OrderAction.admin_cancel
          (push_if (can_admin_override_status u) OrderAction.admin_override_status []))

    rider_and_admin_actions : List OrderAction
    rider_and_admin_actions =
        push_if (can_rider_mark_picked_up u o) OrderAction.rider_mark_picked_up (
          push_if (can_rider_mark_on_the_way u o) OrderAction.rider_mark_on_the_way (
            push_if (can_rider_mark_delivered u o) OrderAction.rider_mark_delivered (
              push_if (can_rider_mark_failed_delivery u o) OrderAction.rider_mark_failed_delivery
                admin_actions)))
