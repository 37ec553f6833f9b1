-- ===== src/Inventory/Conservation.antt =====
-- What a reservation takes from each row.
use wer_te_backend.Prelude.{ℕ, ◌+◌, ◌-◌, min, List, [], ◌∷◌, ◌≡◌, refl, arith, sum_of}
use wer_te_backend.Domain.Entities.{OrderLine, SelectedOption}
use wer_te_backend.Domain.Store.{Lot, Db, Result, Action, ◌>>=◌, ◌>>◌}
use wer_te_backend.Domain.Ensures.{Ensures, Ensures-bind}
use wer_te_backend.Inventory.Stock.{
  level, present, decrement_tracked_item_stock, decrement_tracked_option_stock,
  decrement_tracked_combination_stock, decrement_item_inventory_lot_quantity,
}
use wer_te_backend.Inventory.Levels.{level-decrement_stock, present-decrement_stock}
use wer_te_backend.Inventory.Lots.{available_lots, allocate, reserve_tracked_inventory_lots}
use wer_te_backend.Inventory.Reserve.{
  Reservation, reserve_lots_of_line, reserve_menu_item, reserve_combination, reserve_option,
  reserve_options, reserve_line, reserve_lines,
}
use wer_te_backend.Inventory.Demand.{
  item_demand_of, option_demand_at, combination_demand_of, option_demand_of, item_demand,
  option_demand, combination_demand,
}

-- The tables of rows are left alone.
abbrev SameRows : Db → Db → Type 0
SameRows db db' =
    (db'.menu_items ≡ db.menu_items)
    × (db'.item_options ≡ db.item_options)
    × (db'.combinations ≡ db.combinations)

allocate-SameRows : (ls : List Lot) (w : ℕ) (db : Db) → SameRows db (allocate ls w db).1
unfolding allocate
allocate-SameRows [] w db = (refl, refl, refl)
allocate-SameRows (l ∷ ls) w db = ground (
  arith,
  allocate-SameRows ls (w - min l.remaining_quantity w)
      (decrement_item_inventory_lot_quantity l.id (min l.remaining_quantity w) db).1,
)

reserve_lots_of_line-SameRows :
    (l : OrderLine) (db : Db) → SameRows db (reserve_lots_of_line l db).1
unfolding reserve_lots_of_line reserve_tracked_inventory_lots
reserve_lots_of_line-SameRows l db =
    ground (arith, allocate-SameRows (available_lots l.menu_item_id db) l.quantity db)

-- What a step that returned has taken from the three rows that are watched.
module _ (i o c : ℕ) where
  abbrev pub Taken : ℕ → ℕ → ℕ → Db → Db → Type 0
  Taken di do' dc db db' =
      (level i db.menu_items ≡ level i db'.menu_items + di)
      × (level o db.item_options ≡ level o db'.item_options + do')
      × (level c db.combinations ≡ level c db'.combinations + dc)
      × (present i db'.menu_items ≡ present i db.menu_items)
      × (present o db'.item_options ≡ present o db.item_options)
      × (present c db'.combinations ≡ present c db.combinations)

  -- What two steps in sequence take adds up.
  bind-Taken :
      {A B : Type 0} (di do' dc ei eo ec ti t_o tc : ℕ) (m : Action A) (f : A → Action B) (db : Db)
      → (ti ≡ di + ei) × (t_o ≡ do' + eo) × (tc ≡ dc + ec)
      → Ensures (λ _ db1. Taken di do' dc db db1) (m db)
      → ((a : A) (db1 : Db) → Ensures (λ _ db2. Taken ei eo ec db1 db2) (f a db1))
      → Ensures (λ _ db2. Taken ti t_o tc db db2) ((m >>= f) db)
  bind-Taken di do' dc ei eo ec ti t_o tc m f db sums t k =
      Ensures-bind (λ _ db1. Taken di do' dc db db1) (λ _ db2. Taken ti t_o tc db db2) m f db t
        (λ a db1 u. add db1 (f a db1) u (k a db1))
    where
      add :
          {B : Type 0} (db1 : Db) (r : Result B × Db)
          → Taken di do' dc db db1
          → Ensures (λ _ db2. Taken ei eo ec db1 db2) r
          → Ensures (λ _ db2. Taken ti t_o tc db db2) r
      add db1 (Result.ok b, db2) t u = ground arith
      add db1 (Result.err e, db2) t u = tt

  reserve_menu_item-Taken :
      (l : OrderLine) (acc : Reservation) (db : Db)
      → Ensures (λ _ db'. Taken (item_demand_of i l) 0 0 db db') (reserve_menu_item l acc db)
  unfolding reserve_menu_item decrement_tracked_item_stock
  reserve_menu_item-Taken l acc db = ground (
    arith,
    reserve_lots_of_line-SameRows l db,
    level-decrement_stock i l.menu_item_id l.quantity (reserve_lots_of_line l db).1.menu_items,
    present-decrement_stock i l.menu_item_id l.quantity (reserve_lots_of_line l db).1.menu_items,
  )

  reserve_combination-Taken :
      (l : OrderLine) (db : Db)
      → Ensures (λ _ db'. Taken 0 0 (combination_demand_of c l) db db') (reserve_combination l db)
  unfolding reserve_combination decrement_tracked_combination_stock
  reserve_combination-Taken l db = grind (arith, level-decrement_stock, present-decrement_stock)

  reserve_option-Taken :
      (q : ℕ) (s : SelectedOption) (acc : Reservation) (db : Db)
      → Ensures (λ _ db'. Taken 0 (option_demand_at o q s) 0 db db') (reserve_option q s acc db)
  unfolding reserve_option decrement_tracked_option_stock
  reserve_option-Taken q s acc db = ground (
    arith,
    level-decrement_stock o s.item_option_id q db.item_options,
    present-decrement_stock o s.item_option_id q db.item_options,
  )

  reserve_options-Taken :
      (q : ℕ) (os : List SelectedOption) (acc : Reservation) (db : Db)
      → Ensures
          (λ _ db'. Taken 0 (sum_of (option_demand_at o q) os) 0 db db')
          (reserve_options q os acc db)
  unfolding reserve_options
  reserve_options-Taken q [] acc db = ground arith
  reserve_options-Taken q (s ∷ os) acc db =
      bind-Taken 0 (option_demand_at o q s) 0 0 (sum_of (option_demand_at o q) os) 0 0
        (sum_of (option_demand_at o q) (s ∷ os)) 0 (reserve_option q s acc)
        (λ acc'. reserve_options q os acc') db (omega arith) (reserve_option-Taken q s acc db)
        (λ acc' db1. reserve_options-Taken q os acc' db1)

  reserve_line-Taken :
      (l : OrderLine) (acc : Reservation) (db : Db)
      → Ensures
          (λ _ db'.
            Taken (item_demand_of i l) (option_demand_of o l) (combination_demand_of c l) db db')
          (reserve_line l acc db)
  unfolding reserve_line
  reserve_line-Taken l acc db =
      bind-Taken (item_demand_of i l) 0 0 0 (option_demand_of o l) (combination_demand_of c l)
        (item_demand_of i l) (option_demand_of o l) (combination_demand_of c l)
        (reserve_menu_item l acc)
        (λ acc'. reserve_combination l >> reserve_options l.quantity l.selected_options acc') db
        (omega arith) (reserve_menu_item-Taken l acc db)
        λ acc' db1.
          bind-Taken 0 0 (combination_demand_of c l) 0 (option_demand_of o l) 0 0
            (option_demand_of o l) (combination_demand_of c l) (reserve_combination l)
            (λ _. reserve_options l.quantity l.selected_options acc') db1 (omega arith)
            (reserve_combination-Taken l db1)
            (λ _ db2. reserve_options-Taken l.quantity l.selected_options acc' db2)

  -- A reservation that returns has taken from every menu item, option and combination exactly what
  -- its lines ask of it.
  pub reserve_lines-Taken :
      (ls : List OrderLine) (acc : Reservation) (db : Db)
      → Ensures
          (λ _ db'. Taken (item_demand i ls) (option_demand o ls) (combination_demand c ls) db db')
          (reserve_lines ls acc db)
  unfolding reserve_lines
  reserve_lines-Taken [] acc db = ground arith
  reserve_lines-Taken (l ∷ ls) acc db =
      bind-Taken (item_demand_of i l) (option_demand_of o l) (combination_demand_of c l)
        (item_demand i ls) (option_demand o ls) (combination_demand c ls) (item_demand i (l ∷ ls))
        (option_demand o (l ∷ ls)) (combination_demand c (l ∷ ls)) (reserve_line l acc)
        (λ acc'. reserve_lines ls acc') db (omega arith) (reserve_line-Taken l acc db)
        (λ acc' db1. reserve_lines-Taken ls acc' db1)
