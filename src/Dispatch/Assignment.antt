-- ===== src/Dispatch/Assignment.antt =====
-- The admin's assignment: dispatch/services/dispatch-assignment.service.ts.
use wer_te_backend.Prelude.{
  ℕ, Bool, ◌&&◌, Option, none, some, option_is, if◌then◌else◌, or_else, Text, codes,
  normalize_optional_string,
}
use wer_te_backend.Domain.Enums.{OrderStatus, order_is}
use wer_te_backend.Domain.Entities.{User, Order, Rider}
use wer_te_backend.Domain.Store.{
  Db, Action, Error, MessageCode, ◌>>=◌, ◌>>◌, pure, gets, modify, require, throw_unless,
  transaction,
}
use wer_te_backend.Orders.View.{
  OrderSummary, DeliverySummary, StatusUpdate, find_order, find_rider, build_order_summary,
  update_order_status,
}
use wer_te_backend.Orders.Policy.{can_view_admin_orders, can_admin_assign_rider}
use wer_te_backend.Orders.Effects.{OrderView, attach_available_actions, publish_order_event}
use wer_te_backend.Dispatch.Eligibility.{is_dispatch_eligible_rider}
use wer_te_backend.Dispatch.Auto.{Run, upsert_assigned_delivery}

-- `AssignRiderInput`
pub record AssignRiderInput : Type 0 where
  pub order_id : ℕ
  pub rider_id : ℕ
  pub eta_minutes : Option ℕ
  pub reason_code : Option Text
  pub note : Option Text

abbrev rider_of : Option DeliverySummary → Option ℕ
rider_of none = none
rider_of (some d) = d.rider_id

-- The order is with this rider already.
unfoldable pub is_assigned_to : OrderSummary → ℕ → Bool
is_assigned_to detail rider_id =
    order_is detail.status OrderStatus.rider_assigned
    && option_is (rider_of detail.delivery) rider_id

abbrev pub assign_update : User → AssignRiderInput → Order → StatusUpdate
assign_update u input order = record {
  status = OrderStatus.rider_assigned;
  from_status = order.status;
  changed_by_user_id = u.user_id;
  reason_code =
      some (or_else (normalize_optional_string input.reason_code) (codes "admin_assigned_rider"));
  note = normalize_optional_string input.note;
}

-- The transaction.
unfoldable pub commit_admin_assignment : Run → User → AssignRiderInput → Order → Rider → Db → Db
commit_admin_assignment run u input order rider db =
    update_order_status input.order_id (assign_update u input order) (record db {
      deliveries =
          upsert_assigned_delivery run.delivery_id input.order_id rider.id input.eta_minutes run.now
            db.deliveries;
    })

unfoldable pub assign_eligible_rider : Run → User → AssignRiderInput → Order → Action OrderView
assign_eligible_rider run u input order = do
  found ← gets (find_rider input.rider_id)
  rider ← require found Error.not_found
  throw_unless (is_dispatch_eligible_rider rider) Error.conflict
  transaction (modify (commit_admin_assignment run u input order rider))
  reloaded ← gets (find_order input.order_id)
  updated ← require reloaded Error.not_found
  publish_order_event run.services input.order_id MessageCode.rider_assigned
  detail ← gets (λ db. build_order_summary db updated)
  pure (attach_available_actions u detail)

unfoldable pub assign_rider_to_found_order :
    Run → User → AssignRiderInput → Order → Action OrderView
assign_rider_to_found_order run u input order = do
  detail ← gets (λ db. build_order_summary db order)
  (if is_assigned_to detail input.rider_id then pure (attach_available_actions u detail) else do
    throw_unless (can_admin_assign_rider u detail) Error.conflict
    assign_eligible_rider run u input order)

unfoldable pub assign_rider_to_order : Run → User → AssignRiderInput → Action OrderView
assign_rider_to_order run u input = do
  throw_unless (can_view_admin_orders u) Error.forbidden
  found ← gets (find_order input.order_id)
  order ← require found Error.not_found
  assign_rider_to_found_order run u input order
