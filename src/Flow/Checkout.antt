-- ===== src/Flow/Checkout.antt =====
-- The submission of a checkout against the diagram: it adds an order and touches no other.
use wer_te_backend.Prelude.{
  ℕ, ◌-◌, min, Bool, Option, none, some, List, [], ◌∷◌, ◌++◌, ◌==◌, ◌≡◌, refl, ◌⊎◌, inl, inr, arith,
  find_by, Option-cases,
}
use wer_te_backend.Domain.Entities.{User, Order, OrderLine, SelectedOption}
use wer_te_backend.Domain.Store.{Db, Lot, Result, Error, Action, ◌>>=◌, transaction}
use wer_te_backend.Domain.Shop.{Cart}
use wer_te_backend.Promotions.Pricing.{PromotionEvaluation}
use wer_te_backend.Domain.Reads.{Result-cases}
use wer_te_backend.Inventory.Stock.{
  decrement_tracked_item_stock, decrement_tracked_option_stock, decrement_tracked_combination_stock,
  decrement_item_inventory_lot_quantity,
}
use wer_te_backend.Inventory.Lots.{allocate, available_lots, reserve_tracked_inventory_lots}
use wer_te_backend.Inventory.Reserve.{
  Reservation, reserve_lots_of_line, reserve_menu_item, reserve_combination, reserve_option,
  reserve_options, reserve_line, reserve_lines, reserve_tracked_inventory_for_order,
}
use wer_te_backend.Orders.Effects.{run_best_effort, publish_order_event, add_job}
use wer_te_backend.Checkout.Intent.{create_checkout_payment_intent}
use wer_te_backend.Checkout.Lines.{build_order_cart_items}
use wer_te_backend.Checkout.Submission.{
  CheckoutRun, SubmitCheckoutInput, CheckoutSubmission, Prepared, prepare_checkout,
  find_by_idempotency_key, with_allocations, checkout_order, create_checkout_order, check_out_cart,
  record_usage, place_order, replay_order, resolve_existing_or_create_payment_intent,
  place_or_replay, announce_order, submit_current_customer_checkout,
}
use wer_te_backend.Flow.Progress.{Steps, Steps-same, Steps-trans, Progress-refl, Began}
use wer_te_backend.Flow.Diagram.{stay}
use mathlib.Core.Path.{subst}
use wer_te_backend.Flow.Rules.{Steps-refl, Steps-then-same, bind-Steps}

allocate-orders :
    (ls : List Lot) (wanted : ℕ) (db : Db) → (allocate ls wanted db).1.orders ≡ db.orders
unfolding allocate decrement_item_inventory_lot_quantity
allocate-orders [] wanted db = refl
allocate-orders (l ∷ ls) wanted db = ground (
  arith,
  allocate-orders ls (wanted - min l.remaining_quantity wanted)
      (decrement_item_inventory_lot_quantity l.id (min l.remaining_quantity wanted) db).1,
)

reserve_lots-orders :
    (k q : ℕ) (db : Db) → (reserve_tracked_inventory_lots k q db).1.orders ≡ db.orders
unfolding reserve_tracked_inventory_lots
reserve_lots-orders k q db = ground (arith, allocate-orders (available_lots k db) q db)

reserve_menu_item-Steps :
    (l : OrderLine) (acc : Reservation) (db : Db) → Steps db (reserve_menu_item l acc db).1
unfolding reserve_menu_item reserve_lots_of_line decrement_tracked_item_stock
reserve_menu_item-Steps l acc db =
    Steps-same db (reserve_menu_item l acc db).1
      (ground (arith, reserve_lots-orders l.menu_item_id l.quantity db))

reserve_combination-Steps : (l : OrderLine) (db : Db) → Steps db (reserve_combination l db).1
unfolding reserve_combination decrement_tracked_combination_stock
reserve_combination-Steps l db = Steps-same db (reserve_combination l db).1 (ground arith)

reserve_option-Steps :
    (q : ℕ) (o : SelectedOption) (acc : Reservation) (db : Db)
    → Steps db (reserve_option q o acc db).1
unfolding reserve_option decrement_tracked_option_stock
reserve_option-Steps q o acc db = Steps-same db (reserve_option q o acc db).1 (ground arith)

reserve_options-Steps :
    (q : ℕ) (os : List SelectedOption) (acc : Reservation) (db : Db)
    → Steps db (reserve_options q os acc db).1
unfolding reserve_options
reserve_options-Steps q [] acc db = Steps-refl db
reserve_options-Steps q (o ∷ os) acc db =
    bind-Steps (reserve_option q o acc) (reserve_options q os) db (reserve_option-Steps q o acc db)
      (reserve_options-Steps q os)

reserve_line-Steps :
    (l : OrderLine) (acc : Reservation) (db : Db) → Steps db (reserve_line l acc db).1
unfolding reserve_line
reserve_line-Steps l acc db =
    bind-Steps (reserve_menu_item l acc)
      (λ acc'. reserve_combination l >>= (λ u. reserve_options l.quantity l.selected_options acc'))
      db (reserve_menu_item-Steps l acc db)
      (λ acc' db1.
        bind-Steps (reserve_combination l) (λ u. reserve_options l.quantity l.selected_options acc')
          db1 (reserve_combination-Steps l db1)
          (λ u db2. reserve_options-Steps l.quantity l.selected_options acc' db2))

reserve_lines-Steps :
    (ls : List OrderLine) (acc : Reservation) (db : Db) → Steps db (reserve_lines ls acc db).1
unfolding reserve_lines
reserve_lines-Steps [] acc db = Steps-refl db
reserve_lines-Steps (l ∷ ls) acc db =
    bind-Steps (reserve_line l acc) (reserve_lines ls) db (reserve_line-Steps l acc db)
      (reserve_lines-Steps ls)

reserve-Steps :
    (ls : List OrderLine) (db : Db) → Steps db (reserve_tracked_inventory_for_order ls db).1
unfolding reserve_tracked_inventory_for_order
reserve-Steps ls db = reserve_lines-Steps ls (record { alerts = []; allocations = [] }) db

find_by-append :
    (p : Order → Bool) (os : List Order) (new o : Order)
    → find_by p os ≡ some o
    → find_by p (os ++ new ∷ []) ≡ some o
find_by-append p [] new o h = cc
find_by-append p (x ∷ xs) new o h = ground (arith, h, find_by-append p xs new o)

find_by-new :
    (p : Order → Bool) (os : List Order) (new o : Order)
    → find_by p os ≡ none
    → find_by p (os ++ new ∷ []) ≡ some o
    → new ≡ o
find_by-new p [] new o h e = ground (arith, e)
find_by-new p (x ∷ xs) new o h e = find_by-new p xs new o (ground (arith, h)) (ground (arith, h, e))

-- A table of orders with one more at its end.
added-Steps :
    (new : Order) (db after : Db)
    → Began new
    → (after.orders ≡ db.orders) ⊎ (after.orders ≡ db.orders ++ new ∷ [])
    → Steps db after
added-Steps new db after b (inl same) = Steps-same db after same
added-Steps new db after b (inr more) = record {
  each = λ k o e. (o, rw more (find_by-append (λ r. r.id == k) db.orders new o e), Progress-refl o);
  fresh = λ k o e there.
      subst (λ x. Began x)
        (find_by-new (λ r. r.id == k) db.orders new o e (ground (arith, more, there))) b;
}

checkout_order-Began :
    (run : CheckoutRun) (u : User) (input : SubmitCheckoutInput) (p : Prepared)
    (lines : List OrderLine)
    → Began (checkout_order run u input p lines)
unfolding checkout_order
checkout_order-Began run u input p lines = record { history = (refl, refl); moves = stay }

create_checkout_order-Steps :
    (new : Order) (db : Db) → Began new → Steps db (create_checkout_order new db).1
unfolding create_checkout_order
create_checkout_order-Steps new db b =
    added-Steps new db (create_checkout_order new db).1 b (ground arith)

check_out_cart-orders :
    (now : ℕ) (c : Option Cart) (db : Db) → (check_out_cart now c db).orders ≡ db.orders
unfolding check_out_cart
check_out_cart-orders now none db = refl
check_out_cart-orders now (some c) db = refl

record_usage-orders :
    (k n : ℕ) (e : Option PromotionEvaluation) (db : Db)
    → (record_usage k n e db).orders ≡ db.orders
unfolding record_usage
record_usage-orders k n none db = refl
record_usage-orders k n (some e) db = refl

place_order-Steps :
    (run : CheckoutRun) (u : User) (input : SubmitCheckoutInput) (p : Prepared) (db : Db)
    → Steps db (place_order run u input p db).1
unfolding place_order create_checkout_order create_checkout_payment_intent
place_order-Steps run u input p db =
    by_lines (Result-cases (build_order_cart_items p.context.branch.id p.context.cart.items db))
  where
    new_order : List OrderLine → Reservation → Order
    new_order lines reserved = checkout_order run u input p (with_allocations reserved lines)

    by_cart :
        (new : Order) (db1 : Db)
        → Began new
        → (place_order run u input p db).1.orders ≡ (create_checkout_order new db1).1.orders
        → Steps db1 (place_order run u input p db).1
    by_cart new db1 b e =
        Steps-then-same (create_checkout_order-Steps new db1 b) (place_order run u input p db).1 e

    by_stock :
        (lines : List OrderLine)
        → build_order_cart_items p.context.branch.id p.context.cart.items db ≡ Result.ok lines
        → ((e : Error) × ((reserve_tracked_inventory_for_order lines db).0 ≡ Result.err e))
          ⊎ ((r : Reservation) × ((reserve_tracked_inventory_for_order lines db).0 ≡ Result.ok r))
        → Steps db (place_order run u input p db).1
    by_stock lines h (inr (r, e)) = Steps-trans (reserve-Steps lines db) (
        by_cart (new_order lines r) (reserve_tracked_inventory_for_order lines db).1
          (checkout_order-Began run u input p (with_allocations r lines))
          (grind (arith, h, e, check_out_cart-orders, record_usage-orders)))
    by_stock lines h (inl (x, e)) = Steps-trans (reserve-Steps lines db) (
        Steps-same (reserve_tracked_inventory_for_order lines db).1 (place_order run u input p db).1
          (ground (arith, h, e)))

    by_lines :
        ((e : Error) × (build_order_cart_items p.context.branch.id p.context.cart.items db
              ≡ Result.err e))
          ⊎ ((lines : List OrderLine) × (build_order_cart_items p.context.branch.id
                  p.context.cart.items db
                ≡ Result.ok lines))
        → Steps db (place_order run u input p db).1
    by_lines (inr (lines, h)) =
        by_stock lines h (Result-cases (reserve_tracked_inventory_for_order lines db).0)
    by_lines (inl (x, h)) = Steps-same db (place_order run u input p db).1 (ground (arith, h))

replay_order-Steps :
    (run : CheckoutRun) (u : User) (input : SubmitCheckoutInput) (p : Prepared) (o : Order)
    (db : Db)
    → Steps db (replay_order run u input p o db).1
unfolding replay_order resolve_existing_or_create_payment_intent create_checkout_payment_intent
replay_order-Steps run u input p o db =
    Steps-same db (replay_order run u input p o db).1 (ground arith)

place_or_replay-Steps :
    (run : CheckoutRun) (u : User) (input : SubmitCheckoutInput) (p : Prepared) (db : Db)
    → Steps db (place_or_replay run u input p db).1
unfolding place_or_replay
place_or_replay-Steps run u input p db =
    by_key (Option-cases (find_by_idempotency_key input.idempotency_key db))
  where
    by_key :
        (find_by_idempotency_key input.idempotency_key db ≡ none)
          ⊎ ((o : Order) × (find_by_idempotency_key input.idempotency_key db ≡ some o))
        → Steps db (place_or_replay run u input p db).1
    by_key (inl e) =
        Steps-then-same (place_order-Steps run u input p db) (place_or_replay run u input p db).1
          (ground (arith, e))
    by_key (inr (o, e)) =
        Steps-then-same (replay_order-Steps run u input p o db) (place_or_replay run u input p db).1
          (ground (arith, e))

transaction-Steps :
    {A : Type 0} (m : Action A) (db : Db) → Steps db (m db).1 → Steps db (transaction m db).1
transaction-Steps {A} m db s = by_result (Result-cases (m db).0)
  where
    by_result :
        ((e : Error) × ((m db).0 ≡ Result.err e)) ⊎ ((a : A) × ((m db).0 ≡ Result.ok a))
        → Steps db (transaction m db).1
    by_result (inl (x, e)) = Steps-same db (transaction m db).1 (ground (arith, e))
    by_result (inr (a, e)) = Steps-then-same s (transaction m db).1 (ground (arith, e))

announce_order-Steps :
    (run : CheckoutRun) (s : CheckoutSubmission) (db : Db) → Steps db (announce_order run s db).1
unfolding announce_order run_best_effort publish_order_event add_job
announce_order-Steps run s db = Steps-same db (announce_order run s db).1 (ground arith)

pub submit_current_customer_checkout-Steps :
    (run : CheckoutRun) (u : User) (input : SubmitCheckoutInput) (db : Db)
    → Steps db (submit_current_customer_checkout run u input db).1
unfolding submit_current_customer_checkout
submit_current_customer_checkout-Steps run u input db =
    by_read (Result-cases (prepare_checkout run u input db))
  where
    commit : Prepared → Action CheckoutSubmission
    commit p = transaction (place_or_replay run u input p) >>= announce_order run

    commit-Steps : (p : Prepared) → Steps db (commit p db).1
    commit-Steps p =
        bind-Steps (transaction (place_or_replay run u input p)) (announce_order run) db
          (transaction-Steps (place_or_replay run u input p) db
            (place_or_replay-Steps run u input p db))
          (announce_order-Steps run)

    by_read :
        ((e : Error) × (prepare_checkout run u input db ≡ Result.err e))
          ⊎ ((p : Prepared) × (prepare_checkout run u input db ≡ Result.ok p))
        → Steps db (submit_current_customer_checkout run u input db).1
    by_read (inl (x, e)) =
        Steps-same db (submit_current_customer_checkout run u input db).1 (ground (arith, e))
    by_read (inr (p, e)) =
        Steps-then-same (commit-Steps p) (submit_current_customer_checkout run u input db).1
          (ground (arith, e))
