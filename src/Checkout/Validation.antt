-- ===== src/Checkout/Validation.antt =====
-- checkout/services/checkout-validation.service.ts.
use wer_te_backend.Prelude.{
  Bool, true, false, not, ◌&&◌, none, some, List, [], ◌∷◌, ◌==◌, if◌then◌else◌, is_none, map,
}
use wer_te_backend.Domain.Shop.{
  Branch, OptionGroup, ItemOption, CartItem, branch_is_active, merchant_is_active,
}
use wer_te_backend.Domain.Store.{Db, Error, Result}
use wer_te_backend.Domain.Reads.{Read, ◌>>◌, throw_unless}
use wer_te_backend.Carts.Selection.{
  Counts, find_menu_item, active_groups, active_options, zero_counts, select_options,
  groups_are_satisfied, lacks_stock, options_have_stock, selected_variant_is_valid,
}
use wer_te_backend.Carts.Lookup.{CartAggregate}

-- `assertBranchIsOrderable`
abbrev pub branch_is_orderable : Branch → Bool
branch_is_orderable b = branch_is_active b.status && merchant_is_active b.merchant_status

abbrev has_items : List CartItem → Bool
has_items [] = false
has_items (i ∷ is) = true

-- The negation of the test of `assertCartIsNotEmpty`.
abbrev pub is_filled : CartAggregate → Bool
is_filled cart = not (is_none cart.cart) && has_items cart.items

-- `assertMenuItemIsAvailable` and `assertMenuItemInventoryRemainsAvailable`; the branch of the cart
-- item is the branch of the same row.
unfoldable pub menu_item_remains_available : CartItem → Db → Bool
menu_item_remains_available i db = elim (find_menu_item i.menu_item_id db) [
  | none ↦ false
  | some m ↦ m.is_available && not (lacks_stock m.id i.quantity db.menu_items)
]

abbrev selections_hold : CartItem → List OptionGroup → Db → Result (List ItemOption × Counts) → Bool
selections_hold i groups db (Result.err e) = false
selections_hold i groups db (Result.ok (os, counts)) =
    options_have_stock os i.quantity db
    && groups_are_satisfied groups counts
    && selected_variant_is_valid i.menu_item_id os i.quantity db

-- `assertCartItemSelectionsRemainValid`: every check fails with the same error.
unfoldable pub selections_remain_valid : CartItem → Db → Bool
selections_remain_valid i db =
    let groups = active_groups i.menu_item_id db.catalog in
    selections_hold i groups db (
      select_options (active_options groups db.catalog)
        (map (λ o. o.item_option_id) i.selected_options) (zero_counts groups))

-- The loop over the items.
unfoldable pub items_remain_valid : List CartItem → Db → Bool
items_remain_valid [] db = true
items_remain_valid (i ∷ is) db =
    if menu_item_remains_available i db && selections_remain_valid i db
    then items_remain_valid is db
    else false

unfoldable pub assert_cart_ready_for_checkout : Branch → CartAggregate → Read (Unit {0})
assert_cart_ready_for_checkout branch cart = do
  throw_unless (λ db. branch_is_orderable branch) Error.unprocessable_entity
  throw_unless (λ db. is_filled cart) Error.unprocessable_entity
  throw_unless (λ db. cart.branch_id == branch.id) Error.unprocessable_entity
  throw_unless (items_remain_valid cart.items) Error.unprocessable_entity
