-- ===== src/Orders/Admin.antt =====
-- orders/services/admin-order-operations.service.ts.
use wer_te_backend.Prelude.{
  ℕ, Option, some, if◌then◌else◌, Text, codes, or_else, normalize_optional_string,
}
use wer_te_backend.Domain.Enums.{OrderStatus, order_is}
use wer_te_backend.Domain.Entities.{User, Order}
use wer_te_backend.Domain.Store.{
  Db, Action, Error, MessageCode, ◌>>=◌, ◌>>◌, pure, gets, modify, require, throw_unless,
  transaction,
}
use wer_te_backend.Orders.View.{
  find_order, build_order_summary, update_order_status, apply_status, StatusUpdate,
}
use wer_te_backend.Orders.Policy.{
  can_view_admin_orders, can_admin_cancel_order, can_admin_override_status,
}
use wer_te_backend.Orders.Effects.{
  Services, OrderView, publish_order_event, publish_restored_inventory_alerts, release_inventory,
  attach_available_actions,
}
use wer_te_backend.Orders.Merchant.{ActionInput}
use wer_te_backend.Orders.Cancellation.{commit_cancellation, cancel_update}

abbrev pub admin_cancel_update : User → ActionInput → Order → StatusUpdate
admin_cancel_update u input order =
    cancel_update u.user_id
      (some (or_else (normalize_optional_string input.reason_code) (codes "admin_cancelled")))
      (normalize_optional_string input.note) order

unfoldable pub cancel_found_admin_order : Services → User → ActionInput → Order → Action OrderView
cancel_found_admin_order sv u input order = do
  detail ← gets (λ db. build_order_summary db order)
  (if order_is detail.status OrderStatus.cancelled
      then pure (attach_available_actions u detail)
      else do
        throw_unless (can_admin_cancel_order u detail) Error.conflict
        transaction
            (modify (commit_cancellation input.order_id (admin_cancel_update u input order) order))
        updated ←
            gets (λ db.
              build_order_summary db (apply_status (admin_cancel_update u input order) order))
        publish_order_event sv input.order_id MessageCode.order_cancelled
        publish_restored_inventory_alerts sv
        pure (attach_available_actions u updated))

unfoldable pub cancel_admin_order : Services → User → ActionInput → Action OrderView
cancel_admin_order sv u input = do
  throw_unless (can_view_admin_orders u) Error.forbidden
  found ← gets (find_order input.order_id)
  order ← require found Error.not_found
  cancel_found_admin_order sv u input order

-- `AdminUpdateOrderStatusInput`
pub record OverrideInput : Type 0 where
  pub order_id : ℕ
  pub status : OrderStatus
  pub reason_code : Text
  pub note : Option Text

abbrev pub override_update : User → OverrideInput → Text → Order → StatusUpdate
override_update u input reason order = record {
  status = input.status;
  from_status = order.status;
  changed_by_user_id = u.user_id;
  reason_code = some reason;
  note = normalize_optional_string input.note;
}

unfoldable pub commit_override : User → OverrideInput → Text → Order → Db → Db
commit_override u input reason order db =
    release_inventory order input.status
      (update_order_status input.order_id (override_update u input reason order) db)

unfoldable pub override_found_order :
    Services → User → OverrideInput → Text → Order → Action OrderView
override_found_order sv u input reason order = do
  detail ← gets (λ db. build_order_summary db order)
  (if order_is detail.status input.status then pure (attach_available_actions u detail) else do
    throw_unless (can_admin_override_status u) Error.forbidden
    transaction (modify (commit_override u input reason order))
    updated ←
        gets
          (λ db. build_order_summary db (apply_status (override_update u input reason order) order))
    publish_order_event sv input.order_id MessageCode.admin_intervention
    publish_restored_inventory_alerts sv
    pure (attach_available_actions u updated))

unfoldable pub override_admin_order_status : Services → User → OverrideInput → Action OrderView
override_admin_order_status sv u input = do
  throw_unless (can_view_admin_orders u) Error.forbidden
  reason ← require (normalize_optional_string (some input.reason_code)) Error.unprocessable_entity
  found ← gets (find_order input.order_id)
  order ← require found Error.not_found
  override_found_order sv u input reason order
