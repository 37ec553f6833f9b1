-- ===== src/Inventory/Untouched.antt =====
-- What the return of stock leaves alone.
use wer_te_backend.Prelude.{
  ℕ, Bool, true, false, Option, none, some, List, [], ◌∷◌, ◌≡◌, refl, ◌∙◌, if◌then◌else◌,
}
use wer_te_backend.Domain.Entities.{OrderLine, SelectedOption, LotAllocation}
use wer_te_backend.Domain.Store.{Db, StockRow, Lot}
use wer_te_backend.Inventory.Stock.{
  increment_item_stock, increment_option_stock, increment_combination_stock,
  increment_item_inventory_lot,
}
use wer_te_backend.Inventory.Reserve.{
  restore_lots, restore_menu_item, restore_combination, restore_combination_of, restore_options,
  restore_line, restore_tracked_inventory_for_order,
}

-- A part of the tables that does not depend on the stock.
module _ {A : Type 0} (part : Db → A)
    (on_lots : (rows : List Lot) (db : Db) → part (record db { lots = rows }) ≡ part db)
    (on_items : (rows : List StockRow) (db : Db) → part (record db { menu_items = rows }) ≡ part db)
    (on_options : (rows : List StockRow) (db : Db)
      → part (record db { item_options = rows }) ≡ part db)
    (on_combinations : (rows : List StockRow) (db : Db)
      → part (record db { combinations = rows }) ≡ part db) where
  restore_lots-part : (used : List LotAllocation) (db : Db) → part (restore_lots used db) ≡ part db
  unfolding restore_lots increment_item_inventory_lot
  restore_lots-part [] db = refl
  restore_lots-part (a ∷ used) db =
      let db' = increment_item_inventory_lot a.inventory_lot_id a.quantity db in
      restore_lots-part used db' ∙ on_lots db'.lots db

  restore_menu_item-part : (l : OrderLine) (db : Db) → part (restore_menu_item l db) ≡ part db
  unfolding restore_menu_item increment_item_stock
  restore_menu_item-part l db = go l.menu_item_stock_tracked_snapshot
    where
      go :
          (b : Bool)
          → part (
              if b
              then restore_lots l.inventory_lot_allocations
                  (increment_item_stock l.menu_item_id l.quantity db)
              else db)
            ≡ part db
      go true =
          let db' = increment_item_stock l.menu_item_id l.quantity db in
          restore_lots-part l.inventory_lot_allocations db' ∙ on_items db'.menu_items db
      go false = refl

  restore_combination-part : (l : OrderLine) (db : Db) → part (restore_combination l db) ≡ part db
  unfolding restore_combination increment_combination_stock
  restore_combination-part l db =
      go l.variant_combination_stock_tracked_snapshot l.selected_variant_combination_id
    where
      go : (b : Bool) (k : Option ℕ) → part (restore_combination_of b k l.quantity db) ≡ part db
      go true (some k) =
          on_combinations (increment_combination_stock k l.quantity db).combinations db
      go true none = refl
      go false k = refl

  restore_options-part :
      (q : ℕ) (os : List SelectedOption) (db : Db) → part (restore_options q os db) ≡ part db
  unfolding restore_options increment_option_stock
  restore_options-part q [] db = refl
  restore_options-part q (o ∷ os) db =
      restore_options-part q os
        (if o.stock_tracked_snapshot then increment_option_stock o.item_option_id q db else db)
      ∙ one o.stock_tracked_snapshot
    where
      one :
          (b : Bool)
          → part (if b then increment_option_stock o.item_option_id q db else db) ≡ part db
      one true = on_options (increment_option_stock o.item_option_id q db).item_options db
      one false = refl

  restore_line-part : (l : OrderLine) (db : Db) → part (restore_line l db) ≡ part db
  unfolding restore_line
  restore_line-part l db =
      restore_options-part l.quantity l.selected_options
        (restore_combination l (restore_menu_item l db))
      ∙ restore_combination-part l (restore_menu_item l db)
      ∙ restore_menu_item-part l db

  -- The return of the stock of an order leaves such a part alone.
  pub restore_tracked_inventory_for_order-part :
      (ls : List OrderLine) (db : Db) → part (restore_tracked_inventory_for_order ls db) ≡ part db
  unfolding restore_tracked_inventory_for_order
  restore_tracked_inventory_for_order-part [] db = refl
  restore_tracked_inventory_for_order-part (l ∷ ls) db =
      restore_tracked_inventory_for_order-part ls (restore_line l db) ∙ restore_line-part l db
