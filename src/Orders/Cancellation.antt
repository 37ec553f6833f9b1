-- ===== src/Orders/Cancellation.antt =====
-- orders/services/order-cancellation.service.ts and jobs/order-timeout.job.ts.
use wer_te_backend.Prelude.{
  ℕ, Bool, true, false, not, ◌||◌, Option, none, some, if◌then◌else◌, Text, codes, or_else,
}
use wer_te_backend.Domain.Enums.{OrderStatus, order_is}
use wer_te_backend.Domain.Entities.{User, Order, Delivery}
use wer_te_backend.Domain.Store.{
  Db, Action, Error, MessageCode, ◌>>=◌, ◌>>◌, pure, gets, modify, require, throw_unless,
  transaction, publish,
}
use wer_te_backend.Orders.View.{
  find_order, find_customer_order, find_delivery_of, build_order_summary, update_order_status,
  apply_status, StatusUpdate,
}
use wer_te_backend.Orders.Policy.{can_cancel_customer_order}
use wer_te_backend.Orders.Effects.{
  Services, OrderView, publish_order_event, publish_restored_inventory_alerts, release_inventory,
  attach_available_actions,
}
use wer_te_backend.Orders.Merchant.{ActionInput}

-- The transaction that every cancellation runs: the status, then the stock.
unfoldable pub commit_cancellation : ℕ → StatusUpdate → Order → Db → Db
commit_cancellation order_id update order db =
    release_inventory order OrderStatus.cancelled (update_order_status order_id update db)

abbrev pub cancel_update : ℕ → Option Text → Option Text → Order → StatusUpdate
cancel_update actor reason note order = record {
  status = OrderStatus.cancelled;
  from_status = order.status;
  changed_by_user_id = actor;
  reason_code = reason;
  note = note;
}

abbrev pub customer_update : User → ActionInput → Order → StatusUpdate
customer_update u input order =
    cancel_update u.user_id (some (or_else input.reason_code (codes "customer_cancelled")))
      input.note order

-- `cancelCurrentCustomerOrder`, once the order is found.
unfoldable pub cancel_found_customer_order :
    Services → User → ActionInput → Order → Action OrderView
cancel_found_customer_order sv u input order = do
  detail ← gets (λ db. build_order_summary db order)
  (if order_is detail.status OrderStatus.cancelled
      then pure (attach_available_actions u detail)
      else do
        throw_unless (can_cancel_customer_order u detail) Error.conflict
        transaction
            (modify (commit_cancellation input.order_id (customer_update u input order) order))
        cancelled ←
            gets (λ db. build_order_summary db (apply_status (customer_update u input order) order))
        publish_order_event sv input.order_id MessageCode.order_cancelled
        publish_restored_inventory_alerts sv
        pure (attach_available_actions u cancelled))

unfoldable pub cancel_current_customer_order : Services → User → ActionInput → Action OrderView
cancel_current_customer_order sv u input = do
  profile_id ← require u.actor_context.customer_profile_id Error.forbidden
  found ← gets (find_customer_order input.order_id profile_id)
  order ← require found Error.not_found
  cancel_found_customer_order sv u input order

-- `cancelOrderForSystem`: from any status but CANCELLED. The customer's notification is an event of
-- the outbox.
unfoldable pub cancel_order_for_system : ℕ → ℕ → Text → Bool → Db → Db
cancel_order_for_system order_id actor reason notify db = elim (find_order order_id db) [
  | none ↦ db
  | some order ↦
      if order_is order.status OrderStatus.cancelled
      then db
      else if notify
      then publish order_id MessageCode.order_auto_cancelled (cancelled order)
      else cancelled order
]
  where
    cancelled : Order → Db
    cancelled order =
        commit_cancellation order_id (cancel_update actor (some reason) none order) order db

-- The user id of `createSystemAuthenticatedActor('order-timeout')`.
abbrev pub order_timeout_actor : ℕ
order_timeout_actor = 0

-- `cancelAndNotify`; the row always has a customer, who is notified.
unfoldable pub cancel_and_notify : Order → Text → Db → Db
cancel_and_notify order reason db = publish order.id MessageCode.order_auto_cancelled (
    commit_cancellation order.id (cancel_update order_timeout_actor (some reason) none order) order
      db)

-- Thirty minutes after the order was placed.
unfoldable pub handle_merchant_timeout : ℕ → Db → Db
handle_merchant_timeout order_id db = elim (find_order order_id db) [
  | none ↦ db
  | some order ↦
      if not (order_is order.status OrderStatus.placed)
      then db
      else cancel_and_notify order (codes "merchant_timeout") db
]

-- `Boolean(order.delivery?.riderId)`
abbrev pub has_assigned_rider : Option Delivery → Bool
has_assigned_rider none = false
has_assigned_rider (some d) = elim d.rider_id [ none ↦ false | some k ↦ true ]

-- Thirty minutes after the merchant accepted.
unfoldable pub handle_rider_timeout : ℕ → Db → Db
handle_rider_timeout order_id db = elim (find_order order_id db) [
  | none ↦ db
  | some order ↦
      if not (order_is order.status OrderStatus.merchant_accepted)
        || has_assigned_rider (find_delivery_of order.id db)
      then db
      else cancel_and_notify order (codes "rider_timeout") db
]
