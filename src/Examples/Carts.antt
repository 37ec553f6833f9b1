-- ===== src/Examples/Carts.antt =====
-- The theorems on carts, promotions and checkouts, applied.
use wer_te_backend.Prelude.{[], ◌∷◌, ◌≡◌, refl, filter, includes}
use wer_te_backend.Domain.Store.{Result}
use wer_te_backend.Carts.Selection.{
  active_groups, active_options, count_of, set_count, zero_counts, select_options,
  groups_are_satisfied, lacks_stock, options_have_stock, selected_variant_is_valid, has_duplicates,
  resolve_selected_options_for_menu_item,
}
use wer_te_backend.Carts.Choices.{
  IsValidSelection, resolve_selected_options_for_menu_item-IsValidSelection,
}
use wer_te_backend.Carts.Totals.{AreConsistent}
use wer_te_backend.Carts.Requests.{CartCommand, run_carts}
use wer_te_backend.Carts.Kept.{run_carts-AreConsistent}
use wer_te_backend.Examples.Data.{customer}
use wer_te_backend.Examples.Market.{add_on, market, cart_run, addition}

two_portions :
    resolve_selected_options_for_menu_item 100 (200 ∷ []) 2 market ≡ Result.ok (add_on ∷ [])
unfolding resolve_selected_options_for_menu_item active_groups active_options zero_counts
    select_options count_of set_count groups_are_satisfied lacks_stock options_have_stock
    selected_variant_is_valid has_duplicates filter includes
two_portions = refl

resolve_selected_options_for_menu_item-IsValidSelection_example :
    IsValidSelection market 100 2 (200 ∷ []) (add_on ∷ [])
resolve_selected_options_for_menu_item-IsValidSelection_example =
    resolve_selected_options_for_menu_item-IsValidSelection 100 2 (200 ∷ []) (add_on ∷ []) market
      two_portions

market-AreConsistent : AreConsistent market
market-AreConsistent = record {
  totals = (record { quantity = refl; subtotal = refl; total = refl }, tt);
  priced = (refl, tt);
}

run_carts-AreConsistent_example : AreConsistent (
    run_carts
      ((cart_run, customer, CartCommand.add_item 60 addition)
        ∷ (cart_run, customer, CartCommand.remove_item 810)
        ∷ (cart_run, customer, CartCommand.clear_cart 60)
        ∷ [])
      market)
run_carts-AreConsistent_example =
    run_carts-AreConsistent
      ((cart_run, customer, CartCommand.add_item 60 addition)
        ∷ (cart_run, customer, CartCommand.remove_item 810)
        ∷ (cart_run, customer, CartCommand.clear_cart 60)
        ∷ [])
      market market-AreConsistent
