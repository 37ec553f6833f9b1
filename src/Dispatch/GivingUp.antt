-- ===== src/Dispatch/GivingUp.antt =====
-- When the dispatch gives an order up.
use wer_te_backend.Prelude.{
  Bool, Option, List, [], ◌∷◌, ◌&&◌, ◌==◌, false, count_by, ℕ, true, false, none, some, ◌≡◌, ◌⊎◌,
  inl, inr, Bool-cases, codes, refl, arith, ==_refl, leb,
}
use wer_te_backend.Domain.Enums.{OrderStatus, DeliveryType, AttemptOutcome, order_is}
use wer_te_backend.Domain.Entities.{Order, Rider, DispatchAttempt}
use wer_te_backend.Domain.Store.{Db}
use wer_te_backend.Orders.View.{
  find_order, update_order_status, apply_status, StatusUpdate, find_order-update_order_status,
}
use wer_te_backend.Orders.Cancellation.{cancel_update, commit_cancellation, cancel_order_for_system}
use wer_te_backend.Orders.Cancellation.{has_assigned_rider}
use wer_te_backend.Orders.View.{find_delivery_of}
use wer_te_backend.Dispatch.Eligibility.{pick_eligible_rider, get_tried_rider_ids}
use wer_te_backend.Flow.Dispatch.{assign_cases}
use wer_te_backend.Dispatch.Auto.{
  is_failed_outcome, assign_if_found, assign_and_notify, auto_update, awaits_rider,
  handle_auto_dispatch_order, auto_dispatch_actor, Run, cancel_order_no_rider, failed_count,
  dispatch_or_cancel,
}
use wer_te_backend.Flow.Rules.{release_inventory-orders}

commit_cancellation-status :
    (k : ℕ) (u : StatusUpdate) (o : Order) (db : Db)
    → find_order k db ≡ some o
    → o.id ≡ k
    → find_order k (commit_cancellation k u o db) ≡ some (apply_status u o)
unfolding commit_cancellation
commit_cancellation-status k u o db found same = ground (
  arith,
  found,
  ==_refl k,
  same,
  find_order-update_order_status k k u db,
  release_inventory-orders o OrderStatus.cancelled (update_order_status k u db),
)

apply_status-status : (u : StatusUpdate) (o : Order) → (apply_status u o).status ≡ u.status
unfolding apply_status
apply_status-status u o = refl

cancel_order_no_rider-status :
    (db : Db) (o : Order)
    → find_order o.id db ≡ some o
    → (o' : Order) × (find_order o.id (cancel_order_no_rider o.id db).1 ≡ some o')
      × (o'.status ≡ OrderStatus.cancelled)
unfolding cancel_order_no_rider cancel_order_for_system
cancel_order_no_rider-status db o found =
    by_status (Bool-cases (order_is o.status OrderStatus.cancelled))
  where
    is_cancelled :
        (s : OrderStatus) → order_is s OrderStatus.cancelled ≡ true → s ≡ OrderStatus.cancelled
    is_cancelled OrderStatus.cancelled h = refl
    is_cancelled _ h = absurd cc

    update : StatusUpdate
    update = cancel_update auto_dispatch_actor (some (codes "no_rider_available")) none o

    by_status :
        (order_is o.status OrderStatus.cancelled ≡ true)
          ⊎ (order_is o.status OrderStatus.cancelled ≡ false)
        → (o' : Order) × (find_order o.id (cancel_order_no_rider o.id db).1 ≡ some o')
          × (o'.status ≡ OrderStatus.cancelled)
    by_status (inl same) = (o, ground (arith, found, same), is_cancelled o.status same)
    by_status (inr other) = (
      apply_status update o,
      ground (arith, found, other, commit_cancellation-status o.id update o db found refl),
      apply_status-status update o,
    )

-- The attempts at an order that a rider turned down or let run out.
abbrev pub in_vain : AttemptOutcome → Bool
in_vain AttemptOutcome.pending = false
in_vain AttemptOutcome.timeout = true
in_vain AttemptOutcome.rejected = true
in_vain AttemptOutcome.accepted = false
in_vain AttemptOutcome.failed = false

abbrev pub attempts_in_vain : ℕ → Db → ℕ
attempts_in_vain order_id db =
    count_by (λ a. a.order_id == order_id && in_vain a.outcome) db.dispatch_attempts

same_count :
    (k : ℕ) (rows : List DispatchAttempt)
    → count_by (λ a. a.order_id == k && is_failed_outcome a.outcome) rows
      ≡ count_by (λ a. a.order_id == k && in_vain a.outcome) rows
same_count k [] = refl
same_count k (a ∷ rows) = ground (arith, same_count k rows)

failed_count-in_vain : (k : ℕ) (db : Db) → failed_count k db ≡ attempts_in_vain k db
unfolding failed_count
failed_count-in_vain k db = same_count k db.dispatch_attempts

-- An offer does not cancel the order.
assign_if_found-status :
    (run : Run) (o : Order) (rider : Option Rider) (db : Db)
    → find_order o.id db ≡ some o
    → order_is o.status OrderStatus.cancelled ≡ false
    → (o' : Order) × (find_order o.id (assign_if_found run o.id rider db).1 ≡ some o')
      × (order_is o'.status OrderStatus.cancelled ≡ false)
assign_if_found-status run o none db found live = (o, found, live)
assign_if_found-status run o (some rider) db found live = by_end (assign_cases run o.id rider db)
  where
    after : Db
    after = (assign_and_notify run o.id rider db).1

    by_end :
        (after.orders ≡ db.orders)
          ⊎ (Unit {0} × (after.orders ≡ (update_order_status o.id auto_update db).orders))
        → (o' : Order) × (find_order o.id after ≡ some o')
          × (order_is o'.status OrderStatus.cancelled ≡ false)
    by_end (inl same) = (o, ground (arith, same, found), live)
    by_end (inr (_, e)) = (
      apply_status auto_update o,
      ground
          (arith, e, found, ==_refl o.id, find_order-update_order_status o.id o.id auto_update db),
      rw (apply_status-status auto_update o) refl,
    )

dispatch_or_cancel-status :
    (run : Run) (db : Db) (o : Order)
    → find_order o.id db ≡ some o
    → order_is o.status OrderStatus.cancelled ≡ false
    → (o' : Order) × (find_order o.id (dispatch_or_cancel run o db).1 ≡ some o')
      × (order_is o'.status OrderStatus.cancelled ≡ leb 3 (attempts_in_vain o.id db))
unfolding dispatch_or_cancel
dispatch_or_cancel-status run db o found live =
    by_count (Bool-cases (leb 3 (attempts_in_vain o.id db)))
  where
    rider : Option Rider
    rider = pick_eligible_rider o.delivery_township (get_tried_rider_ids o.id db) db

    by_count :
        (leb 3 (attempts_in_vain o.id db) ≡ true) ⊎ (leb 3 (attempts_in_vain o.id db) ≡ false)
        → (o' : Order) × (find_order o.id (dispatch_or_cancel run o db).1 ≡ some o')
          × (order_is o'.status OrderStatus.cancelled ≡ leb 3 (attempts_in_vain o.id db))
    by_count (inl many) =
        let (o', after, cancelled) = cancel_order_no_rider-status db o found in
        (
          o',
          ground (arith, many, after, failed_count-in_vain o.id db),
          ground (arith, many, cancelled),
        )
    by_count (inr few) =
        let (o', after, kept) = assign_if_found-status run o rider db found live in
        (o', ground (arith, few, after, failed_count-in_vain o.id db), ground (arith, few, kept))

-- The dispatch of a delivery order that its merchant has accepted and that has no rider cancels the order
-- exactly if three or more of its attempts were rejected or timed out; otherwise the order is left
-- in another status.
pub handle_auto_dispatch_order-attempts_in_vain :
    (run : Run) (db : Db) (o : Order)
    → find_order o.id db ≡ some o
    → o.status ≡ OrderStatus.merchant_accepted
    → o.delivery_type ≡ DeliveryType.delivery
    → has_assigned_rider (find_delivery_of o.id db) ≡ false
    → (o' : Order) × (find_order o.id (handle_auto_dispatch_order run o.id db).1 ≡ some o')
      × (order_is o'.status OrderStatus.cancelled ≡ leb 3 (attempts_in_vain o.id db))
unfolding handle_auto_dispatch_order
handle_auto_dispatch_order-attempts_in_vain run db o found accepted delivery no_rider =
    let (o', after, status) = dispatch_or_cancel-status run db o found (rw accepted refl) in
    let waits : awaits_rider db o ≡ true = ground (arith, accepted, delivery, no_rider) in
    (o', ground (arith, found, waits, after), status)
