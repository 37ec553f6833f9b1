-- ===== src/Dispatch/Booking.antt =====
-- What an automatic assignment does to the number of active deliveries of a rider.
use wer_te_backend.Prelude.{
  ℕ, ◌+◌, ◌≤◌, Option, none, List, [], ◌∷◌, arith, ◌==◌, if◌then◌else◌, update_by, count_by,
}
use wer_te_backend.Domain.Entities.{Rider, Delivery}
use wer_te_backend.Domain.Store.{Db}
use wer_te_backend.Orders.View.{update_order_status}
use wer_te_backend.Dispatch.Eligibility.{active_deliveries}
use wer_te_backend.Dispatch.Auto.{Run, assign_row, upsert_assigned_delivery, assign_in_transaction}

update_by-active :
    (r k rider : ℕ) (eta : Option ℕ) (now : ℕ) (rows : List Delivery)
    → active_deliveries r (update_by (λ d. d.order_id == k) (assign_row rider eta now) rows)
      ≤ active_deliveries r rows + (if rider == r then count_by (λ d. d.order_id == k) rows else 0)
update_by-active r k rider eta now [] = ground arith
update_by-active r k rider eta now (d ∷ rows) =
    ground (arith, update_by-active r k rider eta now rows)

upsert-active :
    (delivery_id r k rider : ℕ) (eta : Option ℕ) (now : ℕ) (rows : List Delivery)
    → count_by (λ d. d.order_id == k) rows ≤ 1
    → active_deliveries r (upsert_assigned_delivery delivery_id k rider eta now rows)
      ≤ active_deliveries r rows + (if rider == r then 1 else 0)
unfolding upsert_assigned_delivery
upsert-active delivery_id r k rider eta now rows one =
    ground (arith, update_by-active r k rider eta now rows)

-- Where an order has one delivery row at most, the transaction in which auto-dispatch assigns a rider
-- leaves a rider who had one active delivery at most with one at most; the assignment by an admin is
-- another.
pub assign_in_transaction-active :
    (run : Run) (k : ℕ) (rider : Rider) (r : ℕ) (db : Db)
    → count_by (λ d. d.order_id == k) db.deliveries ≤ 1
    → active_deliveries r db.deliveries ≤ 1
    → active_deliveries r (assign_in_transaction run k rider db).1.deliveries ≤ 1
unfolding assign_in_transaction update_order_status
assign_in_transaction-active run k rider r db one busy =
    ground (arith, upsert-active run.delivery_id r k rider.id none run.now db.deliveries)
