-- ===== src/Payments/Cash.antt =====
-- A cash payment and its order.
use wer_te_backend.Prelude.{ℕ, Bool, true, false, Option, none, some, ◌≡◌, refl, arith}
use wer_te_backend.Domain.Enums.{OrderStatus, PaymentStatus}
use wer_te_backend.Domain.Entities.{User, Order}
use wer_te_backend.Domain.Finance.{Payment}
use wer_te_backend.Domain.Store.{Db}
use wer_te_backend.Orders.View.{find_order}
use wer_te_backend.Orders.Effects.{
  Services, is_cash, publish_order_event, publish_restored_inventory_alerts,
}
use wer_te_backend.Payments.Lifecycle.{
  LifecycleInput, LifecycleConfig, find_payment, transition_payment_status,
  should_auto_cancel_order, cancel_unpaid_order, commit_payment, publish_system_messages,
  transition_payment, handle_payment_transition,
}

cash_not_cancelled :
    (p : Payment) (s : OrderStatus) (target : PaymentStatus)
    → is_cash p.method ≡ true
    → should_auto_cancel_order p s target ≡ false
unfolding should_auto_cancel_order
cash_not_cancelled p s target h = ground arith

commit_payment-orders :
    (now : ℕ) (u : User) (input : LifecycleInput) (cfg : LifecycleConfig) (p : Payment) (db : Db)
    → is_cash p.method ≡ true
    → (commit_payment now u input cfg p db).orders ≡ db.orders
unfolding commit_payment cancel_unpaid_order transition_payment_status
commit_payment-orders now u input cfg p db h = by_order (find_order p.order_id db) refl
  where
    by_order :
        (o : Option Order)
        → find_order p.order_id db ≡ o
        → (commit_payment now u input cfg p db).orders ≡ db.orders
    by_order none e = ground arith
    by_order (some o) e = ground (arith, cash_not_cancelled p o.status cfg.target_status h)

transition_payment-orders :
    (sv : Services) (now : ℕ) (u : User) (input : LifecycleInput) (cfg : LifecycleConfig)
    (p : Payment) (db : Db)
    → is_cash p.method ≡ true
    → (transition_payment sv now u input cfg p db).1.orders ≡ db.orders
unfolding transition_payment publish_system_messages publish_order_event
    publish_restored_inventory_alerts
transition_payment-orders sv now u input cfg p db h =
    ground (arith, commit_payment-orders now u input cfg p db h)

-- However a cash payment ends, and whether the call returns or throws, no order is changed.
pub cash-handle_payment_transition :
    (sv : Services) (now : ℕ) (skip : Bool) (u : User) (input : LifecycleInput)
    (cfg : LifecycleConfig) (p : Payment) (db : Db)
    → find_payment input.payment_id db ≡ some p
    → is_cash p.method ≡ true
    → (handle_payment_transition sv now skip u input cfg db).1.orders ≡ db.orders
unfolding handle_payment_transition
cash-handle_payment_transition sv now skip u input cfg p db found h =
    ground (arith, found, transition_payment-orders sv now u input cfg p db h)
