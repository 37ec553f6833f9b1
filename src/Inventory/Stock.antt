-- ===== src/Inventory/Stock.antt =====
-- The stock statements of menus/repositories/menus.repository.ts, on a table of stock rows and on
-- the lots. An id is a primary key, so a guarded `updateMany` is a test on the row that has it.
use wer_te_backend.Prelude.{
  ℕ, ◌+◌, ◌-◌, Bool, true, false, ◌&&◌, Option, none, some, List, ◌==◌, leb, if◌then◌else◌, find_by,
  update_by, or_else,
}
use wer_te_backend.Domain.Store.{StockRow, Lot, Db, Action, Result}

abbrev pub find_row : ℕ → List StockRow → Option StockRow
find_row k rows = find_by (λ r. r.id == k) rows

-- `isStockTracked: true, stockQuantity: { not: null, gte: quantity }`
abbrev pub covers : Option ℕ → ℕ → Bool
covers none q = false
covers (some n) q = leb q n

abbrev pub lower : ℕ → StockRow → StockRow
lower q r = record r { stock_quantity = some (or_else r.stock_quantity 0 - q) }

abbrev pub raise : ℕ → StockRow → StockRow
raise q r = record r { stock_quantity = some (or_else r.stock_quantity 0 + q) }

-- The guarded decrement, with `result.count > 0`.
unfoldable pub decrement_stock : ℕ → ℕ → List StockRow → Bool × List StockRow
decrement_stock k q rows = elim (find_row k rows) [
  | none ↦ (false, rows)
  | some r ↦
      if r.is_stock_tracked && covers r.stock_quantity q
      then (true, update_by (λ s. s.id == k) (lower q) rows)
      else (false, rows)
]

-- `COALESCE("stockQuantity", 0) + quantity`
unfoldable pub increment_stock : ℕ → ℕ → List StockRow → List StockRow
increment_stock k q rows = update_by (λ s. s.id == k) (raise q) rows

unfoldable pub decrement_tracked_item_stock : ℕ → ℕ → Action Bool
unfolding decrement_stock
decrement_tracked_item_stock k q db =
    let (done, rows) = decrement_stock k q db.menu_items in
    (Result.ok done, record db { menu_items = rows })

unfoldable pub decrement_tracked_option_stock : ℕ → ℕ → Action Bool
unfolding decrement_stock
decrement_tracked_option_stock k q db =
    let (done, rows) = decrement_stock k q db.item_options in
    (Result.ok done, record db { item_options = rows })

unfoldable pub decrement_tracked_combination_stock : ℕ → ℕ → Action Bool
unfolding decrement_stock
decrement_tracked_combination_stock k q db =
    let (done, rows) = decrement_stock k q db.combinations in
    (Result.ok done, record db { combinations = rows })

unfoldable pub increment_item_stock : ℕ → ℕ → Db → Db
unfolding increment_stock
increment_item_stock k q db = record db { menu_items = increment_stock k q db.menu_items }

unfoldable pub increment_option_stock : ℕ → ℕ → Db → Db
unfolding increment_stock
increment_option_stock k q db = record db { item_options = increment_stock k q db.item_options }

unfoldable pub increment_combination_stock : ℕ → ℕ → Db → Db
unfolding increment_stock
increment_combination_stock k q db = record db {
  combinations = increment_stock k q db.combinations;
}

abbrev pub find_lot : ℕ → List Lot → Option Lot
find_lot k lots = find_by (λ l. l.id == k) lots

abbrev pub take_lot : ℕ → Lot → Lot
take_lot q l = record l { remaining_quantity = l.remaining_quantity - q }

abbrev pub put_lot : ℕ → Lot → Lot
put_lot q l = record l { remaining_quantity = l.remaining_quantity + q }

unfoldable pub decrement_lot : ℕ → ℕ → List Lot → Bool × List Lot
decrement_lot k q lots = elim (find_lot k lots) [
  | none ↦ (false, lots)
  | some l ↦
      if leb q l.remaining_quantity
      then (true, update_by (λ m. m.id == k) (take_lot q) lots)
      else (false, lots)
]

unfoldable pub increment_lot : ℕ → ℕ → List Lot → List Lot
increment_lot k q lots = update_by (λ m. m.id == k) (put_lot q) lots

unfoldable pub decrement_item_inventory_lot_quantity : ℕ → ℕ → Action Bool
unfolding decrement_lot
decrement_item_inventory_lot_quantity k q db =
    let (done, lots) = decrement_lot k q db.lots in (Result.ok done, record db { lots = lots })

unfoldable pub increment_item_inventory_lot : ℕ → ℕ → Db → Db
unfolding increment_lot
increment_item_inventory_lot k q db = record db { lots = increment_lot k q db.lots }

-- The level that a table shows for an id: 0 where there is no row, or no count.
abbrev row_level : Option StockRow → ℕ
row_level none = 0
row_level (some r) = or_else r.stock_quantity 0

unfoldable pub level : ℕ → List StockRow → ℕ
level k rows = row_level (find_row k rows)

abbrev lot_remaining : Option Lot → ℕ
lot_remaining none = 0
lot_remaining (some l) = l.remaining_quantity

unfoldable pub lot_level : ℕ → List Lot → ℕ
lot_level k lots = lot_remaining (find_lot k lots)

-- Whether a table has a row of the id.
unfoldable pub present : ℕ → List StockRow → Bool
present k rows = elim (find_row k rows) [ none ↦ false | some r ↦ true ]

unfoldable pub lot_present : ℕ → List Lot → Bool
lot_present k lots = elim (find_lot k lots) [ none ↦ false | some l ↦ true ]
