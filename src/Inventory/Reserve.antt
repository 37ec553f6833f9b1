-- ===== src/Inventory/Reserve.antt =====
-- `reserveTrackedInventoryForOrder` and `restoreTrackedInventoryForOrder` of
-- menus/services/menu-inventory-lifecycle.service.ts.
use wer_te_backend.Prelude.{
  ℕ, Bool, true, false, not, Option, none, some, List, [], ◌∷◌, ◌==◌, ltb, if◌then◌else◌, count_by,
}
use wer_te_backend.Domain.Entities.{OrderLine, SelectedOption, LotAllocation}
use wer_te_backend.Domain.Store.{Db, Action, Error, ◌>>=◌, ◌>>◌, pure, gets, throw_unless}
use wer_te_backend.Inventory.Stock.{
  find_row, decrement_tracked_item_stock, decrement_tracked_option_stock,
  decrement_tracked_combination_stock, increment_item_stock, increment_option_stock,
  increment_combination_stock, increment_item_inventory_lot,
}
use wer_te_backend.Inventory.Lots.{reserve_tracked_inventory_lots}
use wer_te_backend.Inventory.Alerts.{Alert, ResourceType, build_alert_event, record_alert}

-- What the loop gathers: the alerts, and the lots used by each line that has a key.
pub record Reservation : Type 0 where
  pub alerts : List Alert
  pub allocations : List (ℕ × List LotAllocation)

-- `allocationsByLineKey[lineKey] = allocations`, only for a line with a key and some allocation.
unfoldable pub record_allocations :
    Option ℕ → List LotAllocation → List (ℕ × List LotAllocation) → List (ℕ × List LotAllocation)
record_allocations none used table = table
record_allocations (some key) [] table = table
record_allocations (some key) (a ∷ used) [] = (key, a ∷ used) ∷ []
record_allocations (some key) (a ∷ used) ((k, old) ∷ table) =
    if k == key
    then (key, a ∷ used) ∷ table
    else (k, old) ∷ record_allocations (some key) (a ∷ used) table

-- Items that are kept in lots take their quantity from the lots as well.
unfoldable pub reserve_lots_of_line : OrderLine → Action (List LotAllocation)
reserve_lots_of_line l = do
  lots ← gets (λ db. count_by (λ m. m.menu_item_id == l.menu_item_id) db.lots)
  (if ltb 0 lots then reserve_tracked_inventory_lots l.menu_item_id l.quantity else pure [])

unfoldable pub reserve_menu_item : OrderLine → Reservation → Action Reservation
reserve_menu_item l acc = if not l.menu_item_stock_tracked_snapshot then pure acc else do
  previous ← gets (λ db. find_row l.menu_item_id db.menu_items)
  used ← reserve_lots_of_line l
  reserved ← decrement_tracked_item_stock l.menu_item_id l.quantity
  throw_unless reserved Error.conflict
  next ← gets (λ db. find_row l.menu_item_id db.menu_items)
  pure (record {
    alerts = record_alert (build_alert_event ResourceType.menu_item previous next) acc.alerts;
    allocations = record_allocations l.line_key used acc.allocations;
  })

abbrev reserve_combination_of : Bool → Option ℕ → ℕ → Action (Unit {0})
reserve_combination_of true (some k) q = do
  reserved ← decrement_tracked_combination_stock k q
  throw_unless reserved Error.conflict
reserve_combination_of true none q = pure tt
reserve_combination_of false k q = pure tt

unfoldable pub reserve_combination : OrderLine → Action (Unit {0})
reserve_combination l =
    reserve_combination_of l.variant_combination_stock_tracked_snapshot
      l.selected_variant_combination_id l.quantity

unfoldable pub reserve_option : ℕ → SelectedOption → Reservation → Action Reservation
reserve_option q o acc = if not o.stock_tracked_snapshot then pure acc else do
  previous ← gets (λ db. find_row o.item_option_id db.item_options)
  reserved ← decrement_tracked_option_stock o.item_option_id q
  throw_unless reserved Error.conflict
  next ← gets (λ db. find_row o.item_option_id db.item_options)
  pure (record acc {
    alerts = record_alert (build_alert_event ResourceType.item_option previous next) acc.alerts;
  })

unfoldable pub reserve_options : ℕ → List SelectedOption → Reservation → Action Reservation
reserve_options q [] acc = pure acc
reserve_options q (o ∷ os) acc = reserve_option q o acc >>= λ acc'. reserve_options q os acc'

unfoldable pub reserve_line : OrderLine → Reservation → Action Reservation
reserve_line l acc = do
  acc' ← reserve_menu_item l acc
  reserve_combination l
  reserve_options l.quantity l.selected_options acc'

unfoldable pub reserve_lines : List OrderLine → Reservation → Action Reservation
reserve_lines [] acc = pure acc
reserve_lines (l ∷ ls) acc = reserve_line l acc >>= λ acc'. reserve_lines ls acc'

unfoldable pub reserve_tracked_inventory_for_order : List OrderLine → Action Reservation
reserve_tracked_inventory_for_order items =
    reserve_lines items (record { alerts = []; allocations = [] })

unfoldable pub restore_lots : List LotAllocation → Db → Db
restore_lots [] db = db
restore_lots (a ∷ as') db =
    restore_lots as' (increment_item_inventory_lot a.inventory_lot_id a.quantity db)

unfoldable pub restore_menu_item : OrderLine → Db → Db
restore_menu_item l db =
    if l.menu_item_stock_tracked_snapshot
    then restore_lots l.inventory_lot_allocations
        (increment_item_stock l.menu_item_id l.quantity db)
    else db

abbrev pub restore_combination_of : Bool → Option ℕ → ℕ → Db → Db
restore_combination_of true (some k) q db = increment_combination_stock k q db
restore_combination_of true none q db = db
restore_combination_of false k q db = db

unfoldable pub restore_combination : OrderLine → Db → Db
restore_combination l =
    restore_combination_of l.variant_combination_stock_tracked_snapshot
      l.selected_variant_combination_id l.quantity

unfoldable pub restore_options : ℕ → List SelectedOption → Db → Db
restore_options q [] db = db
restore_options q (o ∷ os) db =
    restore_options q os
      (if o.stock_tracked_snapshot then increment_option_stock o.item_option_id q db else db)

unfoldable pub restore_line : OrderLine → Db → Db
restore_line l db =
    restore_options l.quantity l.selected_options (restore_combination l (restore_menu_item l db))

unfoldable pub restore_tracked_inventory_for_order : List OrderLine → Db → Db
restore_tracked_inventory_for_order [] db = db
restore_tracked_inventory_for_order (l ∷ ls) db =
    restore_tracked_inventory_for_order ls (restore_line l db)
