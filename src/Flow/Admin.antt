-- ===== src/Flow/Admin.antt =====
-- The admin's assignment of a rider and cancellation against the diagram.
use wer_te_backend.Prelude.{◌||◌, true, none, some, ◌≡◌, ◌⊎◌, refl, arith, Option-cases, inl, inr}
use wer_te_backend.Domain.Enums.{OrderStatus, DeliveryType, order_is}
use wer_te_backend.Domain.Entities.{User, Order, Rider}
use wer_te_backend.Domain.Store.{Db}
use wer_te_backend.Orders.View.{find_order, find_rider, build_order_summary, update_order_status}
use wer_te_backend.Orders.Policy.{can_admin_assign_rider, can_admin_cancel_order, admin_cancellable}
use wer_te_backend.Orders.Effects.{Services, publish_order_event, publish_restored_inventory_alerts}
use wer_te_backend.Orders.Merchant.{ActionInput}
use wer_te_backend.Orders.Cancellation.{commit_cancellation}
use wer_te_backend.Orders.Admin.{admin_cancel_update, cancel_found_admin_order, cancel_admin_order}
use wer_te_backend.Flow.Cancellation.{commit_cancellation-Steps}
use wer_te_backend.Dispatch.Auto.{Run}
use wer_te_backend.Dispatch.Assignment.{
  AssignRiderInput, assign_update, commit_admin_assignment, assign_eligible_rider,
  assign_rider_to_found_order, assign_rider_to_order,
}
use wer_te_backend.Flow.Diagram.{Edge}
use wer_te_backend.Flow.Progress.{Steps, Steps-same, update_order_status-Steps}
use wer_te_backend.Flow.Rules.{commit_or_same-Steps}

assignable-Edge :
    (t : DeliveryType) (s : OrderStatus)
    → (order_is s OrderStatus.merchant_accepted || order_is s OrderStatus.rider_assigned) ≡ true
    → Edge t s OrderStatus.rider_assigned
assignable-Edge t OrderStatus.merchant_accepted h = Edge.assign
assignable-Edge t OrderStatus.rider_assigned h = Edge.reassign
assignable-Edge t OrderStatus.placed h = absurd (cc h)
assignable-Edge t OrderStatus.preparing h = absurd (cc h)
assignable-Edge t OrderStatus.ready h = absurd (cc h)
assignable-Edge t OrderStatus.rider_accepted h = absurd (cc h)
assignable-Edge t OrderStatus.picked_up h = absurd (cc h)
assignable-Edge t OrderStatus.on_the_way h = absurd (cc h)
assignable-Edge t OrderStatus.delivered h = absurd (cc h)
assignable-Edge t OrderStatus.cancelled h = absurd (cc h)
assignable-Edge t OrderStatus.merchant_rejected h = absurd (cc h)
assignable-Edge t OrderStatus.failed_delivery h = absurd (cc h)

assign_found_cases :
    (run : Run) (u : User) (input : AssignRiderInput) (o : Order) (db : Db)
    → ((assign_rider_to_found_order run u input o db).1.orders ≡ db.orders)
      ⊎ ((can_admin_assign_rider u (build_order_summary db o) ≡ true)
          × ((assign_rider_to_found_order run u input o db).1.orders
              ≡ (update_order_status input.order_id (assign_update u input o) db).orders))
unfolding assign_rider_to_found_order assign_eligible_rider commit_admin_assignment
    update_order_status publish_order_event
assign_found_cases run u input o db = by_rider (Option-cases (find_rider input.rider_id db))
  where
    by_rider :
        (find_rider input.rider_id db ≡ none)
          ⊎ ((r : Rider) × (find_rider input.rider_id db ≡ some r))
        → ((assign_rider_to_found_order run u input o db).1.orders ≡ db.orders)
          ⊎ ((can_admin_assign_rider u (build_order_summary db o) ≡ true)
              × ((assign_rider_to_found_order run u input o db).1.orders
                  ≡ (update_order_status input.order_id (assign_update u input o) db).orders))
    by_rider (inl e) = ground (arith, e)
    by_rider (inr (r, e)) = ground (arith, e)

summary_assignable :
    (u : User) (o : Order) (db : Db)
    → can_admin_assign_rider u (build_order_summary db o) ≡ true
    → (order_is o.status OrderStatus.merchant_accepted
        || order_is o.status OrderStatus.rider_assigned)
      ≡ true
unfolding can_admin_assign_rider build_order_summary
summary_assignable u o db h = ground arith

assign_rider_to_found_order-Steps :
    (run : Run) (u : User) (input : AssignRiderInput) (o : Order) (db : Db)
    → find_order input.order_id db ≡ some o
    → Steps db (assign_rider_to_found_order run u input o db).1
assign_rider_to_found_order-Steps run u input o db found =
    commit_or_same-Steps (can_admin_assign_rider u (build_order_summary db o) ≡ true) db
      (update_order_status input.order_id (assign_update u input o) db)
      (assign_rider_to_found_order run u input o db).1 (assign_found_cases run u input o db)
      (λ allowed.
        update_order_status-Steps input.order_id (assign_update u input o) db o found refl
          (assignable-Edge o.delivery_type o.status (summary_assignable u o db allowed)))

pub assign_rider_to_order-Steps :
    (run : Run) (u : User) (input : AssignRiderInput) (db : Db)
    → Steps db (assign_rider_to_order run u input db).1
unfolding assign_rider_to_order
assign_rider_to_order-Steps run u input db = by_order (Option-cases (find_order input.order_id db))
  where
    by_order :
        (find_order input.order_id db ≡ none)
          ⊎ ((o : Order) × (find_order input.order_id db ≡ some o))
        → Steps db (assign_rider_to_order run u input db).1
    by_order (inl e) = Steps-same db _ (ground (arith, e))
    by_order (inr (o, e)) =
        commit_or_same-Steps Unit db (assign_rider_to_found_order run u input o db).1
          (assign_rider_to_order run u input db).1 (ground (arith, e))
          (λ x. assign_rider_to_found_order-Steps run u input o db e)

summary_cancellable :
    (u : User) (o : Order) (db : Db)
    → can_admin_cancel_order u (build_order_summary db o) ≡ true
    → admin_cancellable o.status ≡ true
unfolding can_admin_cancel_order build_order_summary
summary_cancellable u o db h = ground arith

cancel_found_cases :
    (sv : Services) (u : User) (input : ActionInput) (o : Order) (db : Db)
    → ((cancel_found_admin_order sv u input o db).1.orders ≡ db.orders)
      ⊎ ((can_admin_cancel_order u (build_order_summary db o) ≡ true)
          × ((cancel_found_admin_order sv u input o db).1.orders
              ≡ (commit_cancellation input.order_id (admin_cancel_update u input o) o db).orders))
unfolding cancel_found_admin_order publish_order_event publish_restored_inventory_alerts
cancel_found_cases sv u input o db = ground arith

cancel_found-Steps :
    (sv : Services) (u : User) (input : ActionInput) (o : Order) (db : Db)
    → find_order input.order_id db ≡ some o
    → Steps db (cancel_found_admin_order sv u input o db).1
cancel_found-Steps sv u input o db found =
    let update = admin_cancel_update u input o in
    commit_or_same-Steps (can_admin_cancel_order u (build_order_summary db o) ≡ true) db
      (commit_cancellation input.order_id update o db) (cancel_found_admin_order sv u input o db).1
      (cancel_found_cases sv u input o db)
      (λ allowed.
        commit_cancellation-Steps input.order_id u.user_id update.reason_code update.note o db found
          (Edge.cancel_by_admin (summary_cancellable u o db allowed)))

pub cancel_admin_order-Steps :
    (sv : Services) (u : User) (input : ActionInput) (db : Db)
    → Steps db (cancel_admin_order sv u input db).1
unfolding cancel_admin_order
cancel_admin_order-Steps sv u input db = by_order (Option-cases (find_order input.order_id db))
  where
    by_order :
        (find_order input.order_id db ≡ none)
          ⊎ ((o : Order) × (find_order input.order_id db ≡ some o))
        → Steps db (cancel_admin_order sv u input db).1
    by_order (inl e) = Steps-same db _ (ground (arith, e))
    by_order (inr (o, e)) =
        commit_or_same-Steps Unit db (cancel_found_admin_order sv u input o db).1
          (cancel_admin_order sv u input db).1 (ground (arith, e))
          (λ x. cancel_found-Steps sv u input o db e)
