-- ===== src/Flow/Dispatch.antt =====
-- The dispatch of a rider and its timeout against the diagram.
use wer_te_backend.Prelude.{
  ℕ, Bool, true, false, Option, none, some, ◌≡◌, ◌⊎◌, refl, sym, arith, Option-cases, Bool-cases,
  inl, inr, leb, codes, ◌==◌, ==_refl, update_by,
}
use wer_te_backend.Domain.Enums.{OrderStatus, AttemptOutcome, order_is}
use wer_te_backend.Domain.Entities.{Order, Rider, Delivery}
use wer_te_backend.Domain.Store.{Db}
use wer_te_backend.Orders.View.{
  find_order, find_order_where, find_delivery_of, update_order_status, apply_status,
  find_order-update_order_status,
}
use wer_te_backend.Orders.Effects.{publish_order_event, add_job}
use wer_te_backend.Orders.Policy.{customer_cancellable}
use wer_te_backend.Dispatch.Eligibility.{get_tried_rider_ids, pick_eligible_rider}
use wer_te_backend.Dispatch.Auto.{
  Run, max_failed_attempts, auto_dispatch_actor, auto_update, timeout_update, assign_in_transaction,
  create_attempt, resolve_attempt, after_assignment, assign_and_notify, cancel_order_no_rider,
  failed_count, assign_if_found, dispatch_or_cancel, awaits_rider, handle_auto_dispatch_order,
  still_assigned, unassign_row, unassign, retry_dispatch, handle_rider_dispatch_timeout,
}
use wer_te_backend.Flow.Diagram.{Edge, IsGivenUp}
use wer_te_backend.Flow.Progress.{Steps, Steps-same, Steps-trans, update_order_status-Steps}
use wer_te_backend.Flow.Rules.{Steps-refl, Steps-then-same, commit_or_same-Steps, found_by_id}
use wer_te_backend.Flow.Cancellation.{cancel_order_for_system-Steps}

-- The order waits for a rider.
abbrev pub IsWaiting : ℕ → Db → Type 0
IsWaiting k db =
    (o : Order) × (find_order k db ≡ some o) × (o.status ≡ OrderStatus.merchant_accepted)

from_accepted :
    {s : OrderStatus} → s ≡ OrderStatus.merchant_accepted → customer_cancellable s ≡ true
from_accepted e = rw e refl

assign-Edge :
    (o : Order)
    → o.status ≡ OrderStatus.merchant_accepted
    → Edge o.delivery_type o.status OrderStatus.rider_assigned
assign-Edge o e = rw e Edge.assign

pub assign_cases :
    (run : Run) (k : ℕ) (rider : Rider) (db : Db)
    → ((assign_and_notify run k rider db).1.orders ≡ db.orders)
      ⊎ (Unit {0}
          × ((assign_and_notify run k rider db).1.orders
              ≡ (update_order_status k auto_update db).orders))
unfolding assign_and_notify assign_in_transaction create_attempt after_assignment resolve_attempt
    add_job publish_order_event update_order_status
assign_cases run k rider db = ground arith

pub assign_and_notify-Steps :
    (run : Run) (k : ℕ) (rider : Rider) (db : Db)
    → IsWaiting k db
    → Steps db (assign_and_notify run k rider db).1
assign_and_notify-Steps run k rider db (o, found, waiting) =
    commit_or_same-Steps Unit db (update_order_status k auto_update db)
      (assign_and_notify run k rider db).1 (assign_cases run k rider db)
      (λ x.
        update_order_status-Steps k auto_update db o found (sym waiting) (assign-Edge o waiting))

assign_if_found-Steps :
    (run : Run) (k : ℕ) (rider : Option Rider) (db : Db)
    → IsWaiting k db
    → Steps db (assign_if_found run k rider db).1
assign_if_found-Steps run k none db w = Steps-refl db
assign_if_found-Steps run k (some rider) db w = assign_and_notify-Steps run k rider db w

cancel_order_no_rider-Steps :
    (k : ℕ) (db : Db) → IsWaiting k db → Steps db (cancel_order_no_rider k db).1
unfolding cancel_order_no_rider
cancel_order_no_rider-Steps k db (o, found, waiting) =
    cancel_order_for_system-Steps k auto_dispatch_actor (codes "no_rider_available") true db
      (λ p e. cancellable p e)
  where
    cancellable : (p : Order) → find_order k db ≡ some p → customer_cancellable p.status ≡ true
    cancellable p e = ground (arith, found, waiting)

pub dispatch_or_cancel-Steps :
    (run : Run) (order : Order) (db : Db)
    → IsWaiting order.id db
    → Steps db (dispatch_or_cancel run order db).1
unfolding dispatch_or_cancel
dispatch_or_cancel-Steps run order db w =
    by_count (Bool-cases (leb max_failed_attempts (failed_count order.id db)))
  where
    rider : Option Rider
    rider = pick_eligible_rider order.delivery_township (get_tried_rider_ids order.id db) db

    by_count :
        (leb max_failed_attempts (failed_count order.id db) ≡ true)
          ⊎ (leb max_failed_attempts (failed_count order.id db) ≡ false)
        → Steps db (dispatch_or_cancel run order db).1
    by_count (inl many) =
        Steps-then-same (cancel_order_no_rider-Steps order.id db w)
          (dispatch_or_cancel run order db).1 (ground arith)
    by_count (inr few) =
        Steps-then-same (assign_if_found-Steps run order.id rider db w)
          (dispatch_or_cancel run order db).1 (ground arith)

awaits_rider-status :
    (db : Db) (o : Order) → awaits_rider db o ≡ true → o.status ≡ OrderStatus.merchant_accepted
awaits_rider-status db o h = is_accepted o.status (ground arith)
  where
    is_accepted :
        (s : OrderStatus)
        → order_is s OrderStatus.merchant_accepted ≡ true
        → s ≡ OrderStatus.merchant_accepted
    is_accepted OrderStatus.merchant_accepted h = refl
    is_accepted _ h = absurd cc

find_order_where-found :
    (test : Order → Bool) (k : ℕ) (db : Db) (o : Order)
    → find_order_where test k db ≡ some o
    → (find_order k db ≡ some o) × (test o ≡ true)
find_order_where-found test k db o e = ground arith

pub handle_auto_dispatch_order-Steps :
    (run : Run) (k : ℕ) (db : Db) → Steps db (handle_auto_dispatch_order run k db).1
unfolding handle_auto_dispatch_order
handle_auto_dispatch_order-Steps run k db =
    by_row (Option-cases (find_order_where (awaits_rider db) k db))
  where
    by_row :
        (find_order_where (awaits_rider db) k db ≡ none)
          ⊎ ((o : Order) × (find_order_where (awaits_rider db) k db ≡ some o))
        → Steps db (handle_auto_dispatch_order run k db).1
    by_row (inl missing) = Steps-same db _ (ground arith)
    by_row (inr (o, e)) =
        let (found, waits) = find_order_where-found (awaits_rider db) k db o e in
        Steps-then-same
          (dispatch_or_cancel-Steps run o db
            (o, found_by_id k o db found, awaits_rider-status db o waits))
          (handle_auto_dispatch_order run k db).1 (ground arith)

-- The order that a silent rider had is taken back, and waits.
unassigned : (o : Order) (db : Db) → find_order o.id db ≡ some o → IsWaiting o.id (unassign o db)
unfolding unassign apply_status
unassigned o db found =
    let moved = record db {
      deliveries = update_by (λ d. d.order_id == o.id) unassign_row db.deliveries;
    } in
    (
      apply_status timeout_update o,
      ground (
        arith,
        found,
        ==_refl o.id,
        find_order-update_order_status o.id o.id timeout_update moved,
      ),
      refl,
    )

rider_assigned-status :
    (o : Order) (d : Option Delivery)
    → still_assigned o d ≡ true
    → o.status ≡ OrderStatus.rider_assigned
rider_assigned-status o none h = absurd cc
rider_assigned-status o (some d) h = is_assigned o.status (ground arith)
  where
    is_assigned :
        (s : OrderStatus)
        → order_is s OrderStatus.rider_assigned ≡ true
        → s ≡ OrderStatus.rider_assigned
    is_assigned OrderStatus.rider_assigned h = refl
    is_assigned _ h = absurd cc

unassign-Steps :
    (o : Order) (db : Db)
    → find_order o.id db ≡ some o
    → o.status ≡ OrderStatus.rider_assigned
    → Steps db (unassign o db)
unfolding unassign
unassign-Steps o db found assigned = Steps-trans (Steps-same db _ refl) (
    update_order_status-Steps o.id timeout_update _ o found (sym assigned)
      (rw assigned (Edge.give_up IsGivenUp.assigned)))

retry_dispatch-Steps : (run : Run) (k : ℕ) (db : Db) → Steps db (retry_dispatch run k db).1
unfolding retry_dispatch
retry_dispatch-Steps run k db =
    by_row (Option-cases (find_order_where (λ o. still_assigned o (find_delivery_of o.id db)) k db))
  where
    test : Order → Bool
    test o = still_assigned o (find_delivery_of o.id db)

    by_row :
        (find_order_where test k db ≡ none) ⊎ ((o : Order) × (find_order_where test k db ≡ some o))
        → Steps db (retry_dispatch run k db).1
    by_row (inl missing) = Steps-same db _ (ground arith)
    by_row (inr (o, e)) =
        let (found, assigned) = find_order_where-found test k db o e in
        let by_id : find_order o.id db ≡ some o = found_by_id k o db found in
        Steps-then-same
          (Steps-trans
            (unassign-Steps o db by_id
              (rider_assigned-status o (find_delivery_of o.id db) assigned))
            (dispatch_or_cancel-Steps run o (unassign o db) (unassigned o db by_id)))
          (retry_dispatch run k db).1 (ground arith)

resolve_attempt-Steps :
    (attempt : ℕ) (outcome : AttemptOutcome) (now : ℕ) (db : Db)
    → Steps db (resolve_attempt attempt outcome now db)
unfolding resolve_attempt
resolve_attempt-Steps attempt outcome now db = Steps-same db _ refl

pub handle_rider_dispatch_timeout-Steps :
    (run : Run) (k attempt : ℕ) (db : Db)
    → Steps db (handle_rider_dispatch_timeout run k attempt db).1
unfolding handle_rider_dispatch_timeout
handle_rider_dispatch_timeout-Steps run k attempt db =
    let marked = resolve_attempt attempt AttemptOutcome.timeout run.now db in
    commit_or_same-Steps Unit db (retry_dispatch run k marked).1
      (handle_rider_dispatch_timeout run k attempt db).1 (ground arith)
      (λ x.
        Steps-trans (resolve_attempt-Steps attempt AttemptOutcome.timeout run.now db)
          (retry_dispatch-Steps run k marked))
