-- ===== src/Carts/Mutation.antt =====
-- The operations of carts/services/cart-mutation.service.ts.
use wer_te_backend.Prelude.{
  ℕ, not, Option, none, some, List, [], ◌∷◌, ◌++◌, ◌==◌, leb, or_else, filter, update_first,
  delete_first, map,
}
use wer_te_backend.Domain.Entities.{User}
use wer_te_backend.Domain.Shop.{
  CustomerProfile, MenuItem, ItemOption, Cart, CartItem, CartItemOption, CartStatus,
}
use wer_te_backend.Domain.Store.{Db, Action, Error, Result}
use wer_te_backend.Domain.Reads.{Read, ◌>>=◌, ◌>>◌, pure, throw_unless, commit_after}
use wer_te_backend.Carts.Selection.{resolve_selected_options_for_menu_item}
use wer_te_backend.Carts.Lookup.{
  CartAggregate, OwnedItem, find_active_cart, compute_unit_price_snapshot, compute_line_total,
  recompute_cart_totals, resolve_current_customer_profile, resolve_owned_cart_item,
  resolve_menu_item_for_branch, resolve_cart_aggregate_or_throw,
}

pub record AddCartItemInput : Type 0 where
  pub menu_item_id : ℕ
  pub quantity : ℕ
  pub selected_option_ids : Option (List ℕ)

pub record UpdateCartItemInput : Type 0 where
  pub quantity : ℕ
  pub selected_option_ids : Option (List ℕ)

-- The ids that the database gives to new rows, and the time.
pub record CartRun : Type 0 where
  pub cart_id : ℕ
  pub cart_item_id : ℕ
  pub now : ℕ

-- The options of a new or changed cart item, as `createCartItemOptions` stores them.
abbrev pub option_snapshots : List ItemOption → List CartItemOption
option_snapshots os =
    map (λ o. record { item_option_id = o.id; price_delta_snapshot = o.price_delta }) os

abbrev resolve_options : ℕ → List ℕ → ℕ → Read (List ItemOption)
resolve_options item_id ids quantity db =
    resolve_selected_options_for_menu_item item_id ids quantity db

-- What `addCurrentCustomerCartItem` has found; its transaction starts with the active cart.
pub record Addition : Type 0 where
  pub profile : CustomerProfile
  pub item : MenuItem
  pub options : List ItemOption
  pub active_cart : Option Cart

unfoldable pub prepare_addition : User → ℕ → AddCartItemInput → Read Addition
prepare_addition u branch_id input = do
  throw_unless (λ db. leb 1 input.quantity) Error.unprocessable_entity
  profile ← resolve_current_customer_profile u
  item ← resolve_menu_item_for_branch branch_id input.menu_item_id
  options ← resolve_options item.id (or_else input.selected_option_ids []) input.quantity
  active_cart ← (λ db. Result.ok (find_active_cart profile.id branch_id db))
  pure (record { profile = profile; item = item; options = options; active_cart = active_cart })

abbrev pub new_cart : CartRun → CustomerProfile → ℕ → Cart
new_cart run profile branch_id = record {
  id = run.cart_id;
  customer_profile_id = profile.id;
  customer_user_id = profile.user_id;
  branch_id = branch_id;
  status = CartStatus.active;
  total_quantity = 0;
  subtotal_amount = 0;
  total_amount = 0;
  updated_at = run.now;
  created_at = run.now;
}

-- `findActiveCart… ?? createCart`: the id of the cart, and the carts.
abbrev pub open_cart_id : CartRun → Option Cart → ℕ
open_cart_id run none = run.cart_id
open_cart_id run (some c) = c.id

abbrev pub open_cart : CartRun → CustomerProfile → ℕ → Option Cart → List Cart → List Cart
open_cart run profile branch_id none carts = carts ++ new_cart run profile branch_id ∷ []
open_cart run profile branch_id (some c) carts = carts

abbrev pub new_cart_item : CartRun → ℕ → Addition → CartItem
new_cart_item run quantity found =
    let price = compute_unit_price_snapshot found.item.base_price found.options in
    record {
      id = run.cart_item_id;
      cart_id = open_cart_id run found.active_cart;
      menu_item_id = found.item.id;
      quantity = quantity;
      unit_price_snapshot = price;
      line_total = compute_line_total quantity price;
      selected_options = option_snapshots found.options;
    }

unfoldable pub commit_addition : CartRun → ℕ → ℕ → Addition → Db → Db
commit_addition run branch_id quantity found db =
    recompute_cart_totals run.now (open_cart_id run found.active_cart) (record db {
      carts = open_cart run found.profile branch_id found.active_cart db.carts;
      cart_items = db.cart_items ++ new_cart_item run quantity found ∷ [];
    })

unfoldable pub add_current_customer_cart_item :
    CartRun → User → ℕ → AddCartItemInput → Action CartAggregate
add_current_customer_cart_item run u branch_id input =
    commit_after (prepare_addition u branch_id input) (commit_addition run branch_id input.quantity)
      (λ found. resolve_cart_aggregate_or_throw (open_cart_id run found.active_cart))

-- What `updateCurrentCustomerCartItem` has found; `options` only if the payload selects some.
pub record Change : Type 0 where
  pub owned : OwnedItem
  pub item : MenuItem
  pub options : Option (List ItemOption)

abbrev resolve_changed_options :
    OwnedItem → MenuItem → UpdateCartItemInput → Option (List ℕ) → Read (Option (List ItemOption))
resolve_changed_options owned item input (some ids) = do
  options ← resolve_options item.id ids input.quantity
  pure (some options)
resolve_changed_options owned item input none = do
  options ←
      resolve_options item.id (map (λ o. o.item_option_id) owned.item.selected_options)
        input.quantity
  pure none

unfoldable pub prepare_change : User → ℕ → UpdateCartItemInput → Read Change
prepare_change u item_id input = do
  throw_unless (λ db. leb 1 input.quantity) Error.unprocessable_entity
  owned ← resolve_owned_cart_item u item_id
  item ← resolve_menu_item_for_branch owned.cart.branch_id owned.item.menu_item_id
  options ← resolve_changed_options owned item input input.selected_option_ids
  pure (record { owned = owned; item = item; options = options })

-- The unit price and the options of the row.
abbrev pub reprice : ℕ → Change → CartItem → CartItem
reprice quantity found i = elim found.options [
  | none ↦ record i {
    quantity = quantity;
    unit_price_snapshot = found.owned.item.unit_price_snapshot;
    line_total = compute_line_total quantity found.owned.item.unit_price_snapshot;
  }
  | some os ↦ record i {
    quantity = quantity;
    unit_price_snapshot = compute_unit_price_snapshot found.item.base_price os;
    line_total = compute_line_total quantity (compute_unit_price_snapshot found.item.base_price os);
    selected_options = option_snapshots os;
  }
]

unfoldable pub commit_change : ℕ → ℕ → Change → Db → Db
commit_change now quantity found db = recompute_cart_totals now found.owned.cart.id (record db {
  cart_items =
      update_first (λ i. i.id == found.owned.item.id) (reprice quantity found) db.cart_items;
})

unfoldable pub update_current_customer_cart_item :
    CartRun → User → ℕ → UpdateCartItemInput → Action CartAggregate
update_current_customer_cart_item run u item_id input =
    commit_after (prepare_change u item_id input) (commit_change run.now input.quantity)
      (λ found. resolve_cart_aggregate_or_throw found.owned.cart.id)

unfoldable pub commit_removal : ℕ → OwnedItem → Db → Db
commit_removal now owned db =
    recompute_cart_totals now owned.cart.id
      (record db { cart_items = delete_first (λ i. i.id == owned.item.id) db.cart_items })

unfoldable pub remove_current_customer_cart_item : CartRun → User → ℕ → Action CartAggregate
remove_current_customer_cart_item run u item_id =
    commit_after (resolve_owned_cart_item u item_id) (commit_removal run.now)
      (λ owned. resolve_cart_aggregate_or_throw owned.cart.id)

-- The active cart of the branch, if there is one.
abbrev pub prepare_clearing : User → ℕ → Read (Option Cart)
prepare_clearing u branch_id = do
  profile ← resolve_current_customer_profile u
  (λ db. Result.ok (find_active_cart profile.id branch_id db))

unfoldable pub commit_clearing : ℕ → Option Cart → Db → Db
commit_clearing now none db = db
commit_clearing now (some c) db =
    recompute_cart_totals now c.id
      (record db { cart_items = filter (λ i. not (i.cart_id == c.id)) db.cart_items })

abbrev pub cleared_aggregate : ℕ → Option Cart → Read CartAggregate
cleared_aggregate branch_id none = pure (record { cart = none; branch_id = branch_id; items = [] })
cleared_aggregate branch_id (some c) = resolve_cart_aggregate_or_throw c.id

unfoldable pub clear_current_customer_branch_cart : CartRun → User → ℕ → Action CartAggregate
clear_current_customer_branch_cart run u branch_id =
    commit_after (prepare_clearing u branch_id) (commit_clearing run.now)
      (cleared_aggregate branch_id)
