-- ===== src/Inventory/LotUse.antt =====
-- What `reserveTrackedInventoryLots` takes from the lots.
use wer_te_backend.Prelude.{ℕ, ◌+◌, ◌-◌, min, List, [], ◌∷◌, ◌≡◌, arith, sum_of}
use wer_te_backend.Domain.Entities.{LotAllocation}
use wer_te_backend.Domain.Store.{Lot, Db}
use wer_te_backend.Domain.Ensures.{Ensures}
use wer_te_backend.Inventory.Stock.{lot_level, lot_present, decrement_item_inventory_lot_quantity}
use wer_te_backend.Inventory.Levels.{lot_level-decrement_lot, lot_present-decrement_lot}
use wer_te_backend.Inventory.Lots.{
  available_lots, available_quantity, allocate, reserve_tracked_inventory_lots,
}
use wer_te_backend.Inventory.Demand.{allocated_from}

abbrev pub total_allocated : List LotAllocation → ℕ
total_allocated used = sum_of (λ a. a.quantity) used

-- Each lot loses what is allocated from it, and the allocations add up to what was wanted.
abbrev pub Drawn : ℕ → Db → List LotAllocation → Db → Type 0
Drawn j db used db' =
    (lot_level j db.lots ≡ lot_level j db'.lots + allocated_from j used)
    × (lot_present j db'.lots ≡ lot_present j db.lots)

allocate-Drawn :
    (j : ℕ) (ls : List Lot) (w : ℕ) (db : Db)
    → Ensures
        (λ used db'. Drawn j db used db' × (total_allocated used ≡ min (available_quantity ls) w))
        (allocate ls w db)
unfolding allocate decrement_item_inventory_lot_quantity available_quantity
allocate-Drawn j [] w db = ground arith
allocate-Drawn j (l ∷ ls) w db = ground (
  arith,
  lot_level-decrement_lot j l.id (min l.remaining_quantity w) db.lots,
  lot_present-decrement_lot j l.id (min l.remaining_quantity w) db.lots,
  allocate-Drawn j ls (w - min l.remaining_quantity w)
      (decrement_item_inventory_lot_quantity l.id (min l.remaining_quantity w) db).1,
)

-- A reservation of lots that returns has taken from each lot exactly what it reports, and the
-- reported quantities add up to the quantity asked for.
pub reserve_tracked_inventory_lots-Drawn :
    (j m q : ℕ) (db : Db)
    → Ensures
        (λ used db'. Drawn j db used db' × (total_allocated used ≡ q))
        (reserve_tracked_inventory_lots m q db)
unfolding reserve_tracked_inventory_lots
reserve_tracked_inventory_lots-Drawn j m q db =
    ground (arith, allocate-Drawn j (available_lots m db) q db)
