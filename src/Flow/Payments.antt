-- ===== src/Flow/Payments.antt =====
-- The payment lifecycle against the diagram of the orders.
use wer_te_backend.Prelude.{
  ℕ, Bool, true, none, some, ◌≡◌, ◌⊎◌, inl, inr, refl, arith, Option-cases,
}
use wer_te_backend.Domain.Enums.{OrderStatus, PaymentStatus}
use wer_te_backend.Domain.Entities.{User, Order}
use wer_te_backend.Domain.Finance.{Payment}
use wer_te_backend.Domain.Store.{Db}
use wer_te_backend.Orders.View.{find_order, update_order_status}
use wer_te_backend.Orders.Policy.{customer_cancellable}
use wer_te_backend.Orders.Effects.{
  Services, release_inventory, publish_order_event, publish_restored_inventory_alerts,
}
use wer_te_backend.Payments.Lifecycle.{
  LifecycleInput, LifecycleConfig, find_payment, transition_payment_status,
  should_auto_cancel_order, payment_update, cancel_unpaid_order, commit_payment,
  publish_system_messages, transition_payment, handle_payment_transition,
}
use wer_te_backend.Flow.Diagram.{Edge}
use wer_te_backend.Flow.Progress.{Steps, Steps-same, Steps-trans, update_order_status-Steps}
use wer_te_backend.Flow.Rules.{commit_or_same-Steps, release_inventory-Steps}

auto_cancel-placed :
    (p : Payment) (s : OrderStatus) (target : PaymentStatus)
    → should_auto_cancel_order p s target ≡ true
    → customer_cancellable s ≡ true
unfolding should_auto_cancel_order
auto_cancel-placed p s target h = ground arith

cancel_unpaid_order-Steps :
    (u : User) (input : LifecycleInput) (cfg : LifecycleConfig) (p : Payment) (db : Db)
    → Steps db (cancel_unpaid_order u input cfg p db)
unfolding cancel_unpaid_order
cancel_unpaid_order-Steps u input cfg p db = by_order (Option-cases (find_order p.order_id db))
  where
    by_order :
        (find_order p.order_id db ≡ none) ⊎ ((o : Order) × (find_order p.order_id db ≡ some o))
        → Steps db (cancel_unpaid_order u input cfg p db)
    by_order (inl missing) = Steps-same db _ (ground arith)
    by_order (inr (o, found)) =
        let written = update_order_status p.order_id (payment_update u input cfg o) db in
        commit_or_same-Steps (should_auto_cancel_order p o.status cfg.target_status ≡ true) db
          (release_inventory o OrderStatus.cancelled written) (cancel_unpaid_order u input cfg p db)
          (ground arith)
          (λ h.
            Steps-trans
              (update_order_status-Steps p.order_id (payment_update u input cfg o) db o found refl
                (Edge.cancel (auto_cancel-placed p o.status cfg.target_status h)))
              (release_inventory-Steps o OrderStatus.cancelled written))

commit_payment-Steps :
    (now : ℕ) (u : User) (input : LifecycleInput) (cfg : LifecycleConfig) (p : Payment) (db : Db)
    → Steps db (commit_payment now u input cfg p db)
unfolding commit_payment transition_payment_status
commit_payment-Steps now u input cfg p db =
    let moved = transition_payment_status input cfg.target_status now p db in
    Steps-trans (Steps-same db moved refl) (cancel_unpaid_order-Steps u input cfg p moved)

transition_payment-Steps :
    (sv : Services) (now : ℕ) (u : User) (input : LifecycleInput) (cfg : LifecycleConfig)
    (p : Payment) (db : Db)
    → Steps db (transition_payment sv now u input cfg p db).1
unfolding transition_payment publish_system_messages publish_order_event
    publish_restored_inventory_alerts
transition_payment-Steps sv now u input cfg p db =
    commit_or_same-Steps Unit db (commit_payment now u input cfg p db)
      (transition_payment sv now u input cfg p db).1 (ground arith)
      (λ x. commit_payment-Steps now u input cfg p db)

pub handle_payment_transition-Steps :
    (sv : Services) (now : ℕ) (skip : Bool) (u : User) (input : LifecycleInput)
    (cfg : LifecycleConfig) (db : Db)
    → Steps db (handle_payment_transition sv now skip u input cfg db).1
unfolding handle_payment_transition
handle_payment_transition-Steps sv now skip u input cfg db =
    by_payment (Option-cases (find_payment input.payment_id db))
  where
    by_payment :
        (find_payment input.payment_id db ≡ none)
          ⊎ ((p : Payment) × (find_payment input.payment_id db ≡ some p))
        → Steps db (handle_payment_transition sv now skip u input cfg db).1
    by_payment (inl missing) = Steps-same db _ (ground arith)
    by_payment (inr (p, found)) =
        commit_or_same-Steps Unit db (transition_payment sv now u input cfg p db).1
          (handle_payment_transition sv now skip u input cfg db).1 (ground arith)
          (λ x. transition_payment-Steps sv now u input cfg p db)
