-- ===== src/Flow/Cancellation.antt =====
-- The customer's cancellation and the two timeouts against the diagram.
use wer_te_backend.Prelude.{
  codes, ℕ, Bool, true, Option, none, some, ◌≡◌, ◌⊎◌, refl, arith, Text, Option-cases, inl, inr,
}
use wer_te_backend.Domain.Enums.{OrderStatus, order_is}
use wer_te_backend.Domain.Entities.{User, Order}
use wer_te_backend.Domain.Store.{Db}
use wer_te_backend.Orders.View.{
  find_order, find_customer_order, build_order_summary, update_order_status,
}
use wer_te_backend.Orders.Policy.{can_cancel_customer_order, customer_cancellable}
use wer_te_backend.Orders.Effects.{Services, publish_order_event, publish_restored_inventory_alerts}
use wer_te_backend.Orders.Merchant.{ActionInput}
use wer_te_backend.Orders.Cancellation.{
  commit_cancellation, cancel_update, customer_update, cancel_found_customer_order,
  cancel_current_customer_order, cancel_order_for_system, cancel_and_notify,
  handle_merchant_timeout, handle_rider_timeout, order_timeout_actor,
}
use wer_te_backend.Flow.Diagram.{Edge}
use wer_te_backend.Flow.Progress.{Steps, Steps-same, Steps-trans, update_order_status-Steps}
use wer_te_backend.Flow.Rules.{
  found_by_id, Steps-then-same, commit_or_same-Steps, release_inventory-Steps,
}

pub commit_cancellation-Steps :
    (k actor : ℕ) (reason note : Option Text) (order : Order) (db : Db)
    → find_order k db ≡ some order
    → Edge order.delivery_type order.status OrderStatus.cancelled
    → Steps db (commit_cancellation k (cancel_update actor reason note order) order db)
unfolding commit_cancellation
commit_cancellation-Steps k actor reason note order db found allowed =
    let update = cancel_update actor reason note order in
    Steps-trans (update_order_status-Steps k update db order found refl allowed)
      (release_inventory-Steps order OrderStatus.cancelled (update_order_status k update db))

summary_cancellable :
    (u : User) (order : Order) (db : Db)
    → can_cancel_customer_order u (build_order_summary db order) ≡ true
    → customer_cancellable order.status ≡ true
unfolding can_cancel_customer_order build_order_summary
summary_cancellable u order db h = ground arith

cancel_found_cases :
    (sv : Services) (u : User) (input : ActionInput) (order : Order) (db : Db)
    → ((cancel_found_customer_order sv u input order db).1.orders ≡ db.orders)
      ⊎ ((can_cancel_customer_order u (build_order_summary db order) ≡ true)
          × ((cancel_found_customer_order sv u input order db).1.orders
              ≡ (commit_cancellation input.order_id
                  (customer_update u input order)
                  order
                  db).orders))
unfolding cancel_found_customer_order publish_order_event publish_restored_inventory_alerts
cancel_found_cases sv u input order db = ground arith

cancel_found-Steps :
    (sv : Services) (u : User) (input : ActionInput) (order : Order) (db : Db)
    → find_order input.order_id db ≡ some order
    → Steps db (cancel_found_customer_order sv u input order db).1
cancel_found-Steps sv u input order db found =
    commit_or_same-Steps (can_cancel_customer_order u (build_order_summary db order) ≡ true) db
      (commit_cancellation input.order_id (customer_update u input order) order db)
      (cancel_found_customer_order sv u input order db).1 (cancel_found_cases sv u input order db)
      (λ allowed.
        commit_cancellation-Steps input.order_id u.user_id
          (customer_update u input order).reason_code input.note order db found
          (Edge.cancel (summary_cancellable u order db allowed)))

find_customer_order-found :
    (k m : ℕ) (db : Db) (order : Order)
    → find_customer_order k m db ≡ some order
    → find_order k db ≡ some order
unfolding find_customer_order
find_customer_order-found k m db order e = ground arith

pub customer_cancel-Steps :
    (sv : Services) (u : User) (input : ActionInput) (db : Db)
    → Steps db (cancel_current_customer_order sv u input db).1
unfolding cancel_current_customer_order
customer_cancel-Steps sv u input db = by_profile u.actor_context.customer_profile_id refl
  where
    by_order :
        (m : ℕ) (o : Option Order)
        → find_customer_order input.order_id m db ≡ o
        → u.actor_context.customer_profile_id ≡ some m
        → Steps db (cancel_current_customer_order sv u input db).1
    by_order m none missing e = Steps-same db _ (ground arith)
    by_order m (some order) found e =
        Steps-then-same
          (cancel_found-Steps sv u input order db
            (find_customer_order-found input.order_id m db order found))
          (cancel_current_customer_order sv u input db).1 (ground arith)

    by_profile :
        (m : Option ℕ)
        → u.actor_context.customer_profile_id ≡ m
        → Steps db (cancel_current_customer_order sv u input db).1
    by_profile none e = Steps-same db _ (ground arith)
    by_profile (some m) e = by_order m (find_customer_order input.order_id m db) refl e

-- The system's cancellation, where the order is in a status that may be cancelled.
pub cancel_order_for_system-Steps :
    (k actor : ℕ) (reason : Text) (notify : Bool) (db : Db)
    → ((o : Order) → find_order k db ≡ some o → customer_cancellable o.status ≡ true)
    → Steps db (cancel_order_for_system k actor reason notify db)
unfolding cancel_order_for_system
cancel_order_for_system-Steps k actor reason notify db allowed =
    by_row (Option-cases (find_order k db))
  where
    by_row :
        (find_order k db ≡ none) ⊎ ((o : Order) × (find_order k db ≡ some o))
        → Steps db (cancel_order_for_system k actor reason notify db)
    by_row (inl missing) = Steps-same db _ (ground arith)
    by_row (inr (o, found)) =
        commit_or_same-Steps (find_order k db ≡ some o) db
          (commit_cancellation k (cancel_update actor (some reason) none o) o db)
          (cancel_order_for_system k actor reason notify db) (ground arith)
          (λ e.
            commit_cancellation-Steps k actor (some reason) none o db found
              (Edge.cancel (allowed o found)))

pub handle_merchant_timeout-Steps : (k : ℕ) (db : Db) → Steps db (handle_merchant_timeout k db)
unfolding handle_merchant_timeout cancel_and_notify
handle_merchant_timeout-Steps k db = by_row (Option-cases (find_order k db))
  where
    by_row :
        (find_order k db ≡ none) ⊎ ((o : Order) × (find_order k db ≡ some o))
        → Steps db (handle_merchant_timeout k db)
    by_row (inl missing) = Steps-same db _ (ground arith)
    by_row (inr (o, found)) =
        commit_or_same-Steps (order_is o.status OrderStatus.placed ≡ true) db
          (commit_cancellation o.id
            (cancel_update order_timeout_actor (some (codes "merchant_timeout")) none o) o db)
          (handle_merchant_timeout k db) (ground arith)
          (λ e.
            commit_cancellation-Steps o.id order_timeout_actor _ none o db
              (found_by_id k o db found) (Edge.cancel (ground arith)))

pub handle_rider_timeout-Steps : (k : ℕ) (db : Db) → Steps db (handle_rider_timeout k db)
unfolding handle_rider_timeout cancel_and_notify
handle_rider_timeout-Steps k db = by_row (Option-cases (find_order k db))
  where
    by_row :
        (find_order k db ≡ none) ⊎ ((o : Order) × (find_order k db ≡ some o))
        → Steps db (handle_rider_timeout k db)
    by_row (inl missing) = Steps-same db _ (ground arith)
    by_row (inr (o, found)) =
        commit_or_same-Steps (order_is o.status OrderStatus.merchant_accepted ≡ true) db
          (commit_cancellation o.id
            (cancel_update order_timeout_actor (some (codes "rider_timeout")) none o) o db)
          (handle_rider_timeout k db) (ground arith)
          (λ e.
            commit_cancellation-Steps o.id order_timeout_actor _ none o db
              (found_by_id k o db found) (Edge.cancel (ground arith)))
