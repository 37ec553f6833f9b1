-- ===== src/Carts/Lookup.antt =====
-- What the operations on carts read and compute: carts/services/cart-pricing.service.ts, the
-- `resolve…` methods of carts/services/cart-mutation.service.ts,
-- carts/policies/customer-cart-access-policy.helper.ts and carts/repositories/carts.repository.ts.
use wer_te_backend.Prelude.{
  ℕ, ◌+◌, ◌*◌, Bool, ◌&&◌, Option, none, some, List, [], ◌∷◌, ◌==◌, if◌then◌else◌, filter, find_by,
  newest, update_by,
}
use wer_te_backend.Domain.Enums.{UserRole}
use wer_te_backend.Domain.Entities.{User}
use wer_te_backend.Domain.Finance.{Decimal}
use wer_te_backend.Domain.Shop.{
  CustomerProfile, MenuItem, ItemOption, Cart, CartItem, cart_is_active,
}
use wer_te_backend.Domain.Store.{Db, Error, Result}
use wer_te_backend.Domain.Reads.{Read, ◌>>=◌, ◌>>◌, pure, require, throw_unless}
use wer_te_backend.Access.{has_owned_resource_access}
use wer_te_backend.Carts.Selection.{find_menu_item}

-- `CartAggregateEntity`; an empty aggregate has no cart.
pub record CartAggregate : Type 0 where
  pub cart : Option Cart
  pub branch_id : ℕ
  pub items : List CartItem

-- `hasCustomerCartAccess`
abbrev pub has_customer_cart_access : User → ℕ → ℕ → Bool
has_customer_cart_access u owner_user_id profile_id =
    has_owned_resource_access u UserRole.customer owner_user_id profile_id
      u.actor_context.customer_profile_id

abbrev pub find_cart : ℕ → Db → Option Cart
find_cart cart_id db = find_by (λ c. c.id == cart_id) db.carts

abbrev pub find_cart_item : ℕ → Db → Option CartItem
find_cart_item item_id db = find_by (λ i. i.id == item_id) db.cart_items

-- `listCartItemsByCartIdWithClient`; new rows are added at the end.
abbrev pub items_of : ℕ → List CartItem → List CartItem
items_of cart_id items = filter (λ i. i.cart_id == cart_id) items

-- `findActiveCartByCustomerProfileIdAndBranchId`
unfoldable pub find_active_cart : ℕ → ℕ → Db → Option Cart
find_active_cart profile_id branch_id db =
    newest (λ c. c.updated_at) (λ c. c.created_at)
      (filter
        (λ c.
          c.customer_profile_id == profile_id
          && c.branch_id == branch_id
          && cart_is_active c.status)
        db.carts)

-- `computeUnitPriceSnapshot`
unfoldable pub compute_unit_price_snapshot : Decimal → List ItemOption → Decimal
compute_unit_price_snapshot total [] = total
compute_unit_price_snapshot total (o ∷ os) = compute_unit_price_snapshot (total + o.price_delta) os

-- `computeLineTotal`
abbrev pub compute_line_total : ℕ → Decimal → Decimal
compute_line_total quantity unit_price_snapshot = unit_price_snapshot * quantity

-- The two `reduce` of `computeCartTotals`.
unfoldable pub add_line_totals : Decimal → List CartItem → Decimal
add_line_totals total [] = total
add_line_totals total (i ∷ is) = add_line_totals (total + i.line_total) is

unfoldable pub add_quantities : ℕ → List CartItem → ℕ
add_quantities total [] = total
add_quantities total (i ∷ is) = add_quantities (total + i.quantity) is

-- `computeCartTotals` and the update of the cart.
abbrev pub with_totals : ℕ → List CartItem → Cart → Cart
with_totals now items c = record c {
  total_quantity = add_quantities 0 items;
  subtotal_amount = add_line_totals 0 items;
  total_amount = add_line_totals 0 items;
  updated_at = now;
}

unfoldable pub recompute_cart_totals : ℕ → ℕ → Db → Db
recompute_cart_totals now cart_id db = record db {
  carts =
      update_by (λ c. c.id == cart_id) (with_totals now (items_of cart_id db.cart_items)) db.carts;
}

abbrev find_profile : User → Db → Option CustomerProfile
find_profile u db = elim u.actor_context.customer_profile_id [
  | none ↦ find_by (λ p. p.user_id == u.user_id) db.catalog.profiles
  | some k ↦ elim (find_by (λ p. p.id == k) db.catalog.profiles) [
    | none ↦ none
    | some p ↦ if p.user_id == u.user_id then some p else none
  ]
]

unfoldable pub resolve_current_customer_profile : User → Read CustomerProfile
resolve_current_customer_profile u = do
  profile ← require (find_profile u) Error.not_found
  throw_unless (λ db. has_customer_cart_access u profile.user_id profile.id) Error.forbidden
  pure profile

-- A cart item with its cart.
pub record OwnedItem : Type 0 where
  pub item : CartItem
  pub cart : Cart

abbrev find_owned_item : User → ℕ → Db → Option OwnedItem
find_owned_item u item_id db = elim (find_cart_item item_id db) [
  | none ↦ none
  | some i ↦ elim (find_cart i.cart_id db) [
    | none ↦ none
    | some c ↦
        if has_customer_cart_access u c.customer_user_id c.customer_profile_id
        then some (record { item = i; cart = c })
        else none
  ]
]

unfoldable pub resolve_owned_cart_item : User → ℕ → Read OwnedItem
resolve_owned_cart_item u item_id = require (find_owned_item u item_id) Error.not_found

abbrev find_item_of_branch : ℕ → ℕ → Db → Option MenuItem
find_item_of_branch branch_id item_id db = elim (find_menu_item item_id db) [
  | none ↦ none
  | some m ↦ if m.branch_id == branch_id then some m else none
]

unfoldable pub resolve_menu_item_for_branch : ℕ → ℕ → Read MenuItem
resolve_menu_item_for_branch branch_id item_id = do
  item ← require (find_item_of_branch branch_id item_id) Error.not_found
  throw_unless (λ db. item.is_available) Error.unprocessable_entity
  pure item

-- `resolveCartAggregateOrThrow`
unfoldable pub resolve_cart_aggregate_or_throw : ℕ → Read CartAggregate
resolve_cart_aggregate_or_throw cart_id = do
  cart ← require (find_cart cart_id) Error.internal_server_error
  (λ db. Result.ok (record {
    cart = some cart;
    branch_id = cart.branch_id;
    items = items_of cart_id db.cart_items;
  }))
