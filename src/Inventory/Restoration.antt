-- ===== src/Inventory/Restoration.antt =====
-- What `restoreTrackedInventoryForOrder` gives back.
use wer_te_backend.Prelude.{ℕ, ◌+◌, List, [], ◌∷◌, ◌≡◌, arith, if◌then◌else◌, sum_of}
use wer_te_backend.Domain.Entities.{OrderLine, SelectedOption, LotAllocation}
use wer_te_backend.Domain.Store.{Db, Result}
use wer_te_backend.Inventory.Stock.{
  level, present, lot_level, lot_present, increment_item_stock, increment_option_stock,
  increment_combination_stock, increment_item_inventory_lot,
}
use wer_te_backend.Inventory.Levels.{
  if_there, level-increment_stock, present-increment_stock, level_absent, lot_level-increment_lot,
  lot_present-increment_lot, lot_level_absent,
}
use wer_te_backend.Inventory.Lots.{reserve_tracked_inventory_lots}
use wer_te_backend.Inventory.Reserve.{
  Reservation, restore_lots, restore_menu_item, restore_combination, restore_options, restore_line,
  restore_tracked_inventory_for_order, reserve_tracked_inventory_for_order,
}
use wer_te_backend.Inventory.Demand.{
  item_demand_of, option_demand_at, combination_demand_of, option_demand_of, lot_demand_of,
  item_demand, option_demand, combination_demand, lot_demand, allocated_from,
}
use wer_te_backend.Inventory.Conservation.{reserve_lines-Taken}
use wer_te_backend.Inventory.LotUse.{reserve_tracked_inventory_lots-Drawn}

module _ (i o c j : ℕ) where
  -- What has come back, on the four rows that are watched.
  abbrev pub Returned : ℕ → ℕ → ℕ → ℕ → Db → Db → Type 0
  Returned di do' dc dl db db' =
      (level i db'.menu_items ≡ level i db.menu_items + if_there (present i db.menu_items) di)
      × (level o db'.item_options
          ≡ level o db.item_options + if_there (present o db.item_options) do')
      × (level c db'.combinations
          ≡ level c db.combinations + if_there (present c db.combinations) dc)
      × (lot_level j db'.lots ≡ lot_level j db.lots + if_there (lot_present j db.lots) dl)
      × (present i db'.menu_items ≡ present i db.menu_items)
      × (present o db'.item_options ≡ present o db.item_options)
      × (present c db'.combinations ≡ present c db.combinations)
      × (lot_present j db'.lots ≡ lot_present j db.lots)

  restore_lots-Returned :
      (used : List LotAllocation) (db : Db)
      → Returned 0 0 0 (allocated_from j used) db (restore_lots used db)
  unfolding restore_lots increment_item_inventory_lot
  restore_lots-Returned [] db = ground arith
  restore_lots-Returned (a ∷ used) db = ground (
    arith,
    restore_lots-Returned used (increment_item_inventory_lot a.inventory_lot_id a.quantity db),
    lot_level-increment_lot j a.inventory_lot_id a.quantity db.lots,
    lot_present-increment_lot j a.inventory_lot_id a.quantity db.lots,
  )

  restore_menu_item-Returned :
      (l : OrderLine) (db : Db)
      → Returned (item_demand_of i l) 0 0 (lot_demand_of j l) db (restore_menu_item l db)
  unfolding restore_menu_item increment_item_stock
  restore_menu_item-Returned l db = ground (
    arith,
    restore_lots-Returned l.inventory_lot_allocations
        (increment_item_stock l.menu_item_id l.quantity db),
    level-increment_stock i l.menu_item_id l.quantity db.menu_items,
    present-increment_stock i l.menu_item_id l.quantity db.menu_items,
  )

  restore_combination-Returned :
      (l : OrderLine) (db : Db)
      → Returned 0 0 (combination_demand_of c l) 0 db (restore_combination l db)
  unfolding restore_combination increment_combination_stock
  restore_combination-Returned l db = grind (arith, level-increment_stock, present-increment_stock)

  restore_options-Returned :
      (q : ℕ) (os : List SelectedOption) (db : Db)
      → Returned 0 (sum_of (option_demand_at o q) os) 0 0 db (restore_options q os db)
  unfolding restore_options increment_option_stock
  restore_options-Returned q [] db = ground arith
  restore_options-Returned q (s ∷ os) db = ground (
    arith,
    restore_options-Returned q os
        (if s.stock_tracked_snapshot then increment_option_stock s.item_option_id q db else db),
    level-increment_stock o s.item_option_id q db.item_options,
    present-increment_stock o s.item_option_id q db.item_options,
  )

  restore_line-Returned :
      (l : OrderLine) (db : Db)
      → Returned
          (item_demand_of i l)
          (option_demand_of o l)
          (combination_demand_of c l)
          (lot_demand_of j l)
          db
          (restore_line l db)
  unfolding restore_line
  restore_line-Returned l db = ground (
    arith,
    restore_menu_item-Returned l db,
    restore_combination-Returned l (restore_menu_item l db),
    restore_options-Returned l.quantity l.selected_options
        (restore_combination l (restore_menu_item l db)),
  )

  -- A restoration gives every watched row that exists exactly what the lines ask of it, and removes
  -- or adds no row.
  pub restore-Returned :
      (ls : List OrderLine) (db : Db)
      → Returned
          (item_demand i ls)
          (option_demand o ls)
          (combination_demand c ls)
          (lot_demand j ls)
          db
          (restore_tracked_inventory_for_order ls db)
  unfolding restore_tracked_inventory_for_order
  restore-Returned [] db = ground arith
  restore-Returned (l ∷ ls) db =
      ground (arith, restore_line-Returned l db, restore-Returned ls (restore_line l db))

  -- Cancelling undoes placing: once the lines of an order have been reserved, restoring them brings
  -- every menu item, option and variant combination back to the level that it had before.
  pub restore-reserve :
      (ls : List OrderLine) (db db' : Db) (r : Reservation)
      → reserve_tracked_inventory_for_order ls db ≡ (Result.ok r, db')
      → let after = restore_tracked_inventory_for_order ls db' in
        (level i after.menu_items ≡ level i db.menu_items)
        × (level o after.item_options ≡ level o db.item_options)
        × (level c after.combinations ≡ level c db.combinations)
  unfolding reserve_tracked_inventory_for_order
  restore-reserve ls db db' r e = ground (
    arith,
    restore-Returned ls db',
    rw e at (reserve_lines-Taken i o c ls (record { alerts = []; allocations = [] }) db),
    level_absent i db.menu_items,
    level_absent i db'.menu_items,
    level_absent o db.item_options,
    level_absent o db'.item_options,
    level_absent c db.combinations,
    level_absent c db'.combinations,
  )

  -- The lots too: putting back what a reservation of lots reported restores every lot.
  pub restore_lots-reserve :
      (m q : ℕ) (db db' : Db) (used : List LotAllocation)
      → reserve_tracked_inventory_lots m q db ≡ (Result.ok used, db')
      → lot_level j (restore_lots used db').lots ≡ lot_level j db.lots
  restore_lots-reserve m q db db' used e = ground (
    arith,
    restore_lots-Returned used db',
    rw e at (reserve_tracked_inventory_lots-Drawn j m q db),
    lot_level_absent j db.lots,
    lot_level_absent j db'.lots,
  )
