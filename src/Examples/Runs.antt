-- ===== src/Examples/Runs.antt =====
-- What the concrete runs come to, and the theorems applied to them.
use wer_te_backend.Prelude.{◌≤◌, none, some, List, [], ◌∷◌, ◌≡◌, refl, arith}
use wer_te_backend.Domain.Enums.{OrderStatus, DeliveryType}
use wer_te_backend.Domain.Entities.{Order, LotAllocation}
use wer_te_backend.Domain.Store.{Db, Result}
use wer_te_backend.Domain.Ensures.{Ensures}
use wer_te_backend.Inventory.Stock.{
  level, lot_level, decrement_stock, decrement_lot, decrement_item_inventory_lot_quantity,
  decrement_tracked_item_stock, decrement_tracked_option_stock, decrement_tracked_combination_stock,
}
use wer_te_backend.Inventory.Lots.{
  reserve_tracked_inventory_lots, allocate, available_lots, available_quantity, sort_lots,
  insert_lot, compare_lots, compare_optional_dates,
}
use wer_te_backend.Inventory.Reserve.{
  Reservation, record_allocations, reserve_lots_of_line, reserve_menu_item, reserve_combination,
  reserve_option, reserve_options, reserve_line, reserve_lines, reserve_tracked_inventory_for_order,
  restore_lots, restore_tracked_inventory_for_order,
}
use wer_te_backend.Inventory.Conservation.{Taken, reserve_lines-Taken}
use wer_te_backend.Inventory.Expiry.{IsFirstExpiredFirst, available_lots-IsFirstExpiredFirst}
use wer_te_backend.Prelude.{◌==◌, ◌&&◌, not, count_by}
use wer_te_backend.Inventory.LotUse.{Drawn, total_allocated, reserve_tracked_inventory_lots-Drawn}
use wer_te_backend.Inventory.Restoration.{
  Returned, restore-Returned, restore-reserve, restore_lots-reserve,
}
use wer_te_backend.Orders.View.{find_order, find_merchant_order, build_order_summary}
use wer_te_backend.Orders.Policy.{can_merchant_accept}
use wer_te_backend.Orders.Actions.{compute_order_available_actions}
use wer_te_backend.Orders.Effects.{OrderView}
use wer_te_backend.Orders.Merchant.{
  accept_config, confirm_pickup_config, commit_merchant_action, handle_merchant_action,
}
use wer_te_backend.Orders.Pickup.{accept_current_merchant_order-pickup}
use wer_te_backend.Orders.Merchant.{accept_current_merchant_order}
use wer_te_backend.Examples.Data.{pickup_order}
use wer_te_backend.Orders.Outcome.{handle_merchant_action-ok}
use wer_te_backend.Orders.Availability.{terminal-compute_order_available_actions}
use wer_te_backend.Orders.Settlement.{unpaid_cash, delivered-unpaid_cash}
use wer_te_backend.Deliveries.Actions.{delivered_config}
use wer_te_backend.Deliveries.Transition.{commit_transition}
use wer_te_backend.Dispatch.Eligibility.{active_deliveries}
use wer_te_backend.Dispatch.Auto.{assign_in_transaction, handle_auto_dispatch_order}
use wer_te_backend.Domain.Enums.{order_is}
use wer_te_backend.Prelude.{true}
use wer_te_backend.Dispatch.Booking.{assign_in_transaction-active}
use wer_te_backend.Dispatch.GivingUp.{handle_auto_dispatch_order-attempts_in_vain}
use wer_te_backend.Flow.Diagram.{Moves}
use wer_te_backend.Flow.Progress.{HasHistory}
use wer_te_backend.Flow.Commands.{
  run_commands, run_commands-Moves, run_commands-HasHistory, run_commands-terminal,
}
use wer_te_backend.Examples.Data.{
  shop, day, services, run, rider, merchant, customer, noodles, order_input, delivery_order,
  waiting_order, delivered_order, order_view, out_for_delivery, exhausted,
}

run_commands-Moves_example :
    (o' : Order) × (find_order 1 (run_commands day shop) ≡ some o')
    × Moves DeliveryType.delivery OrderStatus.placed o'.status
    × (o'.delivery_type ≡ DeliveryType.delivery)
    × (o'.items ≡ noodles ∷ [])
    × (o'.customer_profile_id ≡ 20)
    × (o'.merchant_id ≡ 30)
run_commands-Moves_example = run_commands-Moves day shop 1 delivery_order refl

run_commands-HasHistory_example :
    (o' : Order) × (find_order 1 (run_commands day shop) ≡ some o') × HasHistory o'
run_commands-HasHistory_example =
    run_commands-HasHistory day shop 1 delivery_order refl (refl, refl)

run_commands-terminal_example :
    (o' : Order) × (find_order 4 (run_commands day shop) ≡ some o')
    × (o'.status ≡ OrderStatus.delivered)
run_commands-terminal_example = run_commands-terminal day shop 4 delivered_order refl refl

reserve_lines-Taken_example :
    Ensures
      (λ _ db'. Taken 100 200 300 2 2 2 shop db')
      (reserve_lines (noodles ∷ []) (record { alerts = []; allocations = [] }) shop)
reserve_lines-Taken_example =
    reserve_lines-Taken 100 200 300 (noodles ∷ []) (record { alerts = []; allocations = [] }) shop

reserve_tracked_inventory_lots-Drawn_example :
    Ensures
      (λ used db'. Drawn 401 shop used db' × (total_allocated used ≡ 6))
      (reserve_tracked_inventory_lots 100 6 shop)
reserve_tracked_inventory_lots-Drawn_example = reserve_tracked_inventory_lots-Drawn 401 100 6 shop

restore-Returned_example :
    Returned 100 200 300 401 2 2 2 2 shop (restore_tracked_inventory_for_order (noodles ∷ []) shop)
restore-Returned_example = restore-Returned 100 200 300 401 (noodles ∷ []) shop

-- What a run that returned has returned.
abbrev result_or {ℓ} : {A : Type ℓ} → A → Result A → A
result_or d (Result.ok a) = a
result_or d (Result.err e) = d

abbrev reserved : Result Reservation × Db
reserved = reserve_tracked_inventory_for_order (noodles ∷ []) shop

restore-reserve_example :
    (level 100 (restore_tracked_inventory_for_order (noodles ∷ []) reserved.1).menu_items
      ≡ level 100 shop.menu_items)
    × (level 200 (restore_tracked_inventory_for_order (noodles ∷ []) reserved.1).item_options
        ≡ level 200 shop.item_options)
    × (level 300 (restore_tracked_inventory_for_order (noodles ∷ []) reserved.1).combinations
        ≡ level 300 shop.combinations)
unfolding reserve_tracked_inventory_for_order reserve_lines reserve_line reserve_menu_item
    reserve_combination reserve_options reserve_option reserve_lots_of_line record_allocations
    reserve_tracked_inventory_lots allocate available_lots available_quantity sort_lots insert_lot
    compare_lots compare_optional_dates decrement_item_inventory_lot_quantity decrement_lot
    decrement_stock decrement_tracked_item_stock decrement_tracked_option_stock
    decrement_tracked_combination_stock
restore-reserve_example =
    restore-reserve 100 200 300 401 (noodles ∷ []) shop reserved.1
      (result_or (record { alerts = []; allocations = [] }) reserved.0) refl

abbrev drawn : Result (List LotAllocation) × Db
drawn = reserve_tracked_inventory_lots 100 6 shop

restore_lots-reserve_example :
    lot_level 402 (restore_lots (result_or [] drawn.0) drawn.1).lots ≡ lot_level 402 shop.lots
unfolding reserve_tracked_inventory_lots allocate available_lots available_quantity sort_lots
    insert_lot compare_lots compare_optional_dates decrement_item_inventory_lot_quantity
    decrement_lot
restore_lots-reserve_example =
    restore_lots-reserve 100 200 300 402 100 6 shop drawn.1 (result_or [] drawn.0) refl

assign_in_transaction-active_example :
    active_deliveries 40 (assign_in_transaction run 3 rider shop).1.deliveries ≤ 1
assign_in_transaction-active_example =
    assign_in_transaction-active run 3 rider 40 shop (omega arith) (omega arith)

handle_auto_dispatch_order-attempts_in_vain_example :
    (o' : Order) × (find_order 3 (handle_auto_dispatch_order run 3 exhausted).1 ≡ some o')
    × (order_is o'.status OrderStatus.cancelled ≡ true)
handle_auto_dispatch_order-attempts_in_vain_example =
    handle_auto_dispatch_order-attempts_in_vain run exhausted waiting_order refl refl refl refl

handle_merchant_action-ok_example :
    (v : OrderView) × ((handle_merchant_action 2 services 1000 merchant
        (order_input 1)
        accept_config
        shop).0
      ≡ Result.ok v)
    × (v.order.status ≡ OrderStatus.merchant_accepted)
unfolding find_merchant_order build_order_summary can_merchant_accept
handle_merchant_action-ok_example =
    handle_merchant_action-ok 1 services 1000 merchant (order_input 1) accept_config 30
      delivery_order shop refl refl refl refl refl

delivered-unpaid_cash_example :
    (unpaid_cash 1
        (commit_transition 1000 merchant delivered_config none none out_for_delivery shop)
      ≡ 0)
    × (unpaid_cash 1 (
          commit_merchant_action 1000 merchant
            (order_input 1)
            confirm_pickup_config
            delivery_order
            shop)
        ≡ 0)
delivered-unpaid_cash_example =
    delivered-unpaid_cash 1000 merchant none none out_for_delivery (order_input 1) delivery_order
      shop

terminal-compute_order_available_actions_example :
    compute_order_available_actions customer order_view ≡ []
terminal-compute_order_available_actions_example =
    terminal-compute_order_available_actions customer order_view refl refl

available_lots-IsFirstExpiredFirst_example :
    IsFirstExpiredFirst (available_lots 100 shop)
    × (count_by (λ l. l.id == 402) (available_lots 100 shop)
        ≡ count_by
            (λ l. l.menu_item_id == 100 && not (l.remaining_quantity == 0) && l.id == 402)
            shop.lots)
available_lots-IsFirstExpiredFirst_example =
    available_lots-IsFirstExpiredFirst (λ l. l.id == 402) 100 shop

accept_current_merchant_order-pickup_example :
    (o' : Order) × (find_order 2
        (accept_current_merchant_order services 1000 merchant (order_input 2) shop).1
      ≡ some o')
    × (o'.status ≡ OrderStatus.ready)
unfolding can_merchant_accept build_order_summary
accept_current_merchant_order-pickup_example =
    accept_current_merchant_order-pickup services 1000 merchant (order_input 2) 30 pickup_order shop
      refl refl refl refl refl refl
