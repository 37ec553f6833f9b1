-- ===== src/Checkout/Lines.antt =====
-- `buildOrderCartItems` of checkout/services/checkout-submission.service.ts.
use wer_te_backend.Prelude.{
  ℕ, Bool, true, false, ◌&&◌, Option, none, some, List, [], ◌∷◌, ◌==◌, find_by, map,
}
use wer_te_backend.Domain.Entities.{OrderLine, SelectedOption}
use wer_te_backend.Domain.Shop.{Catalog, ItemOption, CartItem, CartItemOption, selects_variant}
use wer_te_backend.Domain.Store.{Db, StockRow, Error, Result}
use wer_te_backend.Domain.Reads.{Read, ◌>>=◌, pure}
use wer_te_backend.Carts.Selection.{find_active_variant_combination}

-- Whether the menu item of the option's group is one of the branch.
abbrev is_of_branch : ℕ → Catalog → ItemOption → Bool
is_of_branch branch_id cat o = elim (find_by (λ g. g.id == o.group_id) cat.option_groups) [
  | none ↦ false
  | some g ↦ elim (find_by (λ m. m.id == g.menu_item_id) cat.items) [
    | none ↦ false
    | some m ↦ m.branch_id == branch_id
  ]
]

-- `optionById.get(id)`, where `optionById` has the options of the branch.
unfoldable pub find_branch_option : ℕ → ℕ → Catalog → Option ItemOption
find_branch_option branch_id option_id cat =
    find_by (λ o. o.id == option_id && is_of_branch branch_id cat o) cat.options

unfoldable pub selected_variant_option_ids : ℕ → List CartItemOption → Catalog → List ℕ
selected_variant_option_ids branch_id [] cat = []
selected_variant_option_ids branch_id (s ∷ ss) cat =
    let rest = selected_variant_option_ids branch_id ss cat in
    elim (find_branch_option branch_id s.item_option_id cat) [
      | none ↦ rest
      | some o ↦ elim (selects_variant o.group_kind) [ true ↦ o.id ∷ rest | false ↦ rest ]
    ]

-- `isStockTracked ?? false`
unfoldable pub is_tracked : ℕ → List StockRow → Bool
is_tracked row_id rows = elim (find_by (λ r. r.id == row_id) rows) [
  | none ↦ false
  | some r ↦ r.is_stock_tracked
]

abbrev option_is_tracked : ℕ → ℕ → Db → Bool
option_is_tracked branch_id option_id db =
    elim (find_branch_option branch_id option_id db.catalog) [
      | none ↦ false
      | some o ↦ is_tracked o.id db.item_options
    ]

abbrev option_lines : ℕ → Db → List CartItemOption → List SelectedOption
option_lines branch_id db ss =
    map
      (λ s. record {
        item_option_id = s.item_option_id;
        stock_tracked_snapshot = option_is_tracked branch_id s.item_option_id db;
      })
      ss

abbrev order_line : ℕ → CartItem → Option ℕ → Bool → Db → OrderLine
order_line branch_id i combination_id tracked db = record {
  line_key = some i.id;
  menu_item_id = i.menu_item_id;
  quantity = i.quantity;
  menu_item_stock_tracked_snapshot = is_tracked i.menu_item_id db.menu_items;
  selected_variant_combination_id = combination_id;
  variant_combination_stock_tracked_snapshot = tracked;
  inventory_lot_allocations = [];
  selected_options = option_lines branch_id db i.selected_options;
}

abbrev line_with_variants : ℕ → CartItem → List ℕ → Read OrderLine
line_with_variants branch_id i [] db = Result.ok (order_line branch_id i none false db)
line_with_variants branch_id i (k ∷ ks) db =
    elim (find_active_variant_combination i.menu_item_id (k ∷ ks) db.catalog) [
      | none ↦ Result.err Error.conflict
      | some c ↦ Result.ok (order_line branch_id i (some c.id) (is_tracked c.id db.combinations) db)
    ]

-- One line of the order; its lots are filled in after the reservation.
unfoldable pub build_order_line : ℕ → CartItem → Read OrderLine
build_order_line branch_id i db =
    line_with_variants branch_id i
      (selected_variant_option_ids branch_id i.selected_options db.catalog) db

unfoldable pub build_order_cart_items : ℕ → List CartItem → Read (List OrderLine)
build_order_cart_items branch_id [] = pure []
build_order_cart_items branch_id (i ∷ is) = do
  line ← build_order_line branch_id i
  lines ← build_order_cart_items branch_id is
  pure (line ∷ lines)
