-- ===== src/Inventory/Demand.antt =====
-- What the lines of an order ask of each row of stock and of each lot: the independent description
-- that reservation and restoration are held to.
use wer_te_backend.Prelude.{ℕ, List, ◌==◌, if◌then◌else◌, sum_of, option_is}
use wer_te_backend.Domain.Entities.{OrderLine, SelectedOption, LotAllocation}

abbrev pub item_demand_of : ℕ → OrderLine → ℕ
item_demand_of k l =
    if l.menu_item_stock_tracked_snapshot
    then (if l.menu_item_id == k then l.quantity else 0)
    else 0

abbrev pub combination_demand_of : ℕ → OrderLine → ℕ
combination_demand_of k l =
    if l.variant_combination_stock_tracked_snapshot
    then (if option_is l.selected_variant_combination_id k then l.quantity else 0)
    else 0

abbrev pub option_demand_at : ℕ → ℕ → SelectedOption → ℕ
option_demand_at k q o =
    if o.stock_tracked_snapshot then (if o.item_option_id == k then q else 0) else 0

abbrev pub option_demand_of : ℕ → OrderLine → ℕ
option_demand_of k l = sum_of (option_demand_at k l.quantity) l.selected_options

abbrev pub item_demand : ℕ → List OrderLine → ℕ
item_demand k ls = sum_of (item_demand_of k) ls

abbrev pub option_demand : ℕ → List OrderLine → ℕ
option_demand k ls = sum_of (option_demand_of k) ls

abbrev pub combination_demand : ℕ → List OrderLine → ℕ
combination_demand k ls = sum_of (combination_demand_of k) ls

-- What a list of allocations takes from a lot.
abbrev pub allocated_from : ℕ → List LotAllocation → ℕ
allocated_from k used = sum_of (λ a. if a.inventory_lot_id == k then a.quantity else 0) used

abbrev pub lot_demand_of : ℕ → OrderLine → ℕ
lot_demand_of k l =
    if l.menu_item_stock_tracked_snapshot then allocated_from k l.inventory_lot_allocations else 0

abbrev pub lot_demand : ℕ → List OrderLine → ℕ
lot_demand k ls = sum_of (lot_demand_of k) ls
