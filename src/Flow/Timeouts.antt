-- ===== src/Flow/Timeouts.antt =====
-- An order that waits for its merchant, against the timeout job.
use wer_te_backend.Prelude.{
  ℕ, true, false, some, none, List, [], ◌∷◌, ◌++◌, ◌≡◌, refl, ◌⊎◌, inl, inr, arith, codes,
  Bool-cases, ==_iff,
}
use wer_te_backend.Domain.Enums.{OrderStatus, DeliveryType, order_is}
use wer_te_backend.Domain.Entities.{Order}
use wer_te_backend.Domain.Store.{Db}
use wer_te_backend.Orders.View.{
  find_order, apply_status, update_order_status, find_order-update_order_status,
}
use wer_te_backend.Orders.Cancellation.{
  commit_cancellation, cancel_update, cancel_and_notify, handle_merchant_timeout,
  order_timeout_actor,
}
use wer_te_backend.Flow.Diagram.{Edge, Moves, stay, go}
use wer_te_backend.Flow.Rules.{release_inventory-orders}
use wer_te_backend.Flow.Commands.{Command, run_command, run_commands, run_commands-Steps}

-- No edge leads back to the status of a new order.
left_Edge :
    {t : DeliveryType} {a b : OrderStatus} → Edge t a b → order_is b OrderStatus.placed ≡ false
left_Edge Edge.accept = refl
left_Edge Edge.reject = refl
left_Edge Edge.prepare_pickup = refl
left_Edge Edge.prepare_delivery = refl
left_Edge Edge.finish_cooking = refl
left_Edge Edge.hand_over = refl
left_Edge Edge.assign = refl
left_Edge Edge.reassign = refl
left_Edge Edge.take_on = refl
left_Edge (Edge.give_up g) = refl
left_Edge Edge.pick_up = refl
left_Edge Edge.set_off = refl
left_Edge Edge.deliver = refl
left_Edge (Edge.lose h) = refl
left_Edge (Edge.cancel h) = refl
left_Edge (Edge.cancel_by_admin h) = refl

left_Moves :
    {t : DeliveryType} {a b : OrderStatus}
    → Moves t a b
    → order_is a OrderStatus.placed ≡ false
    → order_is b OrderStatus.placed ≡ false
left_Moves stay h = h
left_Moves (go e m) h = left_Moves m (left_Edge e)

timeout_update-found :
    (k : ℕ) (o : Order) (db : Db)
    → find_order k db ≡ some o
    → let u = cancel_update order_timeout_actor (some (codes "merchant_timeout")) none o in
      find_order k (update_order_status o.id u db) ≡ some (apply_status u o)
timeout_update-found k o db found =
    let u = cancel_update order_timeout_actor (some (codes "merchant_timeout")) none o in
    ground (arith, find_order-update_order_status k o.id u db, found, (==_iff o.id o.id).1 refl)

-- The timeout leaves no order waiting for its merchant.
handle_merchant_timeout-left :
    (k : ℕ) (o : Order) (db : Db)
    → find_order k db ≡ some o
    → (o' : Order) × (find_order k (handle_merchant_timeout k db) ≡ some o')
      × (order_is o'.status OrderStatus.placed ≡ false)
unfolding handle_merchant_timeout cancel_and_notify commit_cancellation apply_status
handle_merchant_timeout-left k o db found =
    by_status (Bool-cases (order_is o.status OrderStatus.placed))
  where
    by_status :
        (order_is o.status OrderStatus.placed ≡ true)
          ⊎ (order_is o.status OrderStatus.placed ≡ false)
        → (o' : Order) × (find_order k (handle_merchant_timeout k db) ≡ some o')
          × (order_is o'.status OrderStatus.placed ≡ false)
    by_status (inl e) =
        let u = cancel_update order_timeout_actor (some (codes "merchant_timeout")) none o in
        (
          apply_status u o,
          ground (
            arith,
            found,
            e,
            timeout_update-found k o db found,
            release_inventory-orders o OrderStatus.cancelled (update_order_status o.id u db),
          ),
          refl,
        )
    by_status (inr e) = (o, ground (arith, found, e), e)

run_commands_append :
    (cs ds : List Command) (db : Db)
    → run_commands (cs ++ ds) db ≡ run_commands ds (run_commands cs db)
unfolding run_commands
run_commands_append [] ds db = refl
run_commands_append (c ∷ cs) ds db = run_commands_append cs ds (run_command c db)

-- Whatever checkouts, requests, payments and jobs come before and after it, without the admin's override
-- of a status, once the timeout job of an order has run, the order is in the table and is not left
-- waiting for its merchant: it is no longer placed.
pub merchant_timeout-left :
    (before after : List Command) (db : Db) (k : ℕ) (o : Order)
    → find_order k db ≡ some o
    → (o' : Order) × (find_order k (run_commands (before ++ Command.merchant_timeout k ∷ after) db)
        ≡ some o')
      × (order_is o'.status OrderStatus.placed ≡ false)
unfolding run_commands run_command
merchant_timeout-left before after db k o found =
    let (o1, e1, _) = (run_commands-Steps before db).each k o found in
    let (o2, e2, left) = handle_merchant_timeout-left k o1 (run_commands before db) e1 in
    let timed_out = handle_merchant_timeout k (run_commands before db) in
    let (o3, e3, p) = (run_commands-Steps after timed_out).each k o2 e2 in
    (
      o3,
      rw (run_commands_append before (Command.merchant_timeout k ∷ after) db) e3,
      left_Moves p.moves left,
    )
