-- ===== src/Orders/Effects.antt =====
-- What the order handlers share: common/utils/run-best-effort.util.ts, the published events, the
-- release of the stock, and the settlement of a cash payment.
use wer_te_backend.Prelude.{ℕ, Bool, ◌&&◌, some, ◌==◌, if◌then◌else◌, update_by, List}
use wer_te_backend.Domain.Enums.{OrderStatus, PaymentMethod, PaymentStatus, payment_is}
use wer_te_backend.Domain.Entities.{Order, User}
use wer_te_backend.Domain.Store.{Db, Action, Result, Error, Job, MessageCode, publish, enqueue}
use wer_te_backend.Inventory.Reserve.{restore_tracked_inventory_for_order}
use wer_te_backend.Orders.View.{OrderSummary}
use wer_te_backend.Orders.Actions.{OrderAction, compute_order_available_actions}
use wer_te_backend.Orders.Policy.{should_release_inventory}

-- Which of the services behind the side effects answer.
pub record Services : Type 0 where
  pub messages_up : Bool
  pub queue_up : Bool
  pub alerts_up : Bool

-- `runBestEffort`: what the side effect did stays, and its failure is swallowed.
unfoldable pub run_best_effort : Action (Unit {0}) → Action (Unit {0})
run_best_effort m db = (Result.ok tt, (m db).1)

-- `SystemMessageService.publishOrderEvent`, which logs an error and returns.
unfoldable pub publish_order_event : Services → ℕ → MessageCode → Action (Unit {0})
publish_order_event sv order_id code db =
    (Result.ok tt, if sv.messages_up then publish order_id code db else db)

unfoldable pub add_job : Services → Job → Action (Unit {0})
add_job sv job db =
    if sv.queue_up then (Result.ok tt, enqueue job db) else (Result.err Error.infrastructure, db)

-- The notifications about returned stock; they are not part of the tables.
unfoldable pub publish_restored_inventory_alerts : Services → Action (Unit {0})
publish_restored_inventory_alerts sv db =
    (if sv.alerts_up then Result.ok tt else Result.err Error.infrastructure, db)

-- `if (shouldReleaseInventoryForOrderTransition(…)) restoreTrackedInventoryForOrder(…)`
unfoldable pub release_inventory : Order → OrderStatus → Db → Db
release_inventory order target db =
    if should_release_inventory order.status target
    then restore_tracked_inventory_for_order order.items db
    else db

abbrev pub is_cash : PaymentMethod → Bool
is_cash PaymentMethod.cash_on_delivery = Bool.true
is_cash _ = Bool.false

-- `payment.updateMany` on the pending cash payments of a delivered order.
unfoldable pub settle_cash_payment : ℕ → ℕ → Db → Db
settle_cash_payment order_id now db = record db {
  payments =
      update_by
        (λ p.
          p.order_id == order_id && is_cash p.method && payment_is p.status PaymentStatus.pending)
        (λ p. record p { status = PaymentStatus.succeeded; succeeded_at = some now }) db.payments;
}

-- `attachAvailableActions`
pub record OrderView : Type 0 where
  pub order : OrderSummary
  pub available_actions : List OrderAction

unfoldable pub attach_available_actions : User → OrderSummary → OrderView
attach_available_actions u o = record {
  order = o;
  available_actions = compute_order_available_actions u o;
}
