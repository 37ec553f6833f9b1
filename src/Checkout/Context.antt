-- ===== src/Checkout/Context.antt =====
-- checkout/services/checkout-context.service.ts, checkout/services/checkout-pricing.service.ts,
-- checkout/policies and carts/services/cart-query.service.ts.
use wer_te_backend.Prelude.{
  ℕ, ◌+◌, ◌-◌, Bool, true, false, ◌&&◌, ◌||◌, Option, none, some, [], ◌==◌, if◌then◌else◌, is_none,
  filter, find_by, newest, Text,
}
use wer_te_backend.Domain.Enums.{UserRole, DeliveryType}
use wer_te_backend.Domain.Entities.{User}
use wer_te_backend.Domain.Finance.{Decimal}
use wer_te_backend.Domain.Shop.{CustomerProfile, Branch, Address, Cart, cart_is_active}
use wer_te_backend.Domain.Store.{Db, Error, Result}
use wer_te_backend.Domain.Reads.{Read, ◌>>=◌, ◌>>◌, pure, require}
use wer_te_backend.Access.{has_owned_resource_access}
use wer_te_backend.Carts.Lookup.{CartAggregate, items_of, resolve_current_customer_profile}
use wer_te_backend.Promotions.Pricing.{
  Platform, PromotionEvaluation, evaluate_promotion_for_checkout,
}
use wer_te_backend.Checkout.Validation.{assert_cart_ready_for_checkout}

-- `CheckoutContextEntity`
pub record CheckoutContext : Type 0 where
  pub customer : CustomerProfile
  pub address : Option Address
  pub branch : Branch
  pub cart : CartAggregate

pub record ContextInput : Type 0 where
  pub branch_id : ℕ
  pub address_id : Option ℕ
  pub delivery_type : Option DeliveryType

abbrev pub is_pickup : Option DeliveryType → Bool
is_pickup (some DeliveryType.pickup) = true
is_pickup (some DeliveryType.delivery) = false
is_pickup none = false

-- `findActiveCartAggregateByUserIdAndBranchId`
unfoldable pub find_active_cart_of_user : ℕ → ℕ → Db → Option Cart
find_active_cart_of_user user_id branch_id db =
    newest (λ c. c.updated_at) (λ c. c.created_at)
      (filter
        (λ c. c.branch_id == branch_id && cart_is_active c.status && c.customer_user_id == user_id)
        db.carts)

-- `getOwnedActiveCartAggregateOrEmpty`
unfoldable pub get_owned_active_cart_aggregate_or_empty : ℕ → ℕ → Db → CartAggregate
get_owned_active_cart_aggregate_or_empty user_id branch_id db =
    elim (find_active_cart_of_user user_id branch_id db) [
      | none ↦ record { cart = none; branch_id = branch_id; items = [] }
      | some c ↦ record {
        cart = some c;
        branch_id = c.branch_id;
        items = items_of c.id db.cart_items;
      }
    ]

-- The user that `resolveCheckoutAddress` makes of the profile.
abbrev checkout_user : CustomerProfile → User
checkout_user p = record {
  user_id = p.user_id;
  role = p.user_role;
  actor_context = record { customer_profile_id = some p.id; merchant_id = none; rider_id = none };
}

abbrev find_own_address : CustomerProfile → ℕ → Db → Option Address
find_own_address p address_id db = elim (find_by (λ a. a.id == address_id) db.catalog.addresses) [
  | none ↦ none
  | some a ↦
      if has_owned_resource_access (checkout_user p) UserRole.customer a.customer_user_id
          a.customer_profile_id (some p.id)
        && a.customer_profile_id == p.id
      then some a
      else none
]

-- `findDefaultByCustomerProfileId`
abbrev find_default_address : CustomerProfile → Db → Option Address
find_default_address p db =
    newest (λ a. a.updated_at) (λ a. a.created_at)
      (filter (λ a. a.customer_profile_id == p.id && a.is_default) db.catalog.addresses)

unfoldable pub resolve_checkout_address : CustomerProfile → Option ℕ → Read Address
resolve_checkout_address p (some address_id) =
    require (find_own_address p address_id) Error.not_found
resolve_checkout_address p none = require (find_default_address p) Error.unprocessable_entity

abbrev some_address : CustomerProfile → Option ℕ → Read (Option Address)
some_address p address_id = do address ← resolve_checkout_address p address_id; pure (some address)

unfoldable pub get_validated_current_customer_checkout_context :
    User → ContextInput → Read CheckoutContext
get_validated_current_customer_checkout_context u input = do
  profile ← resolve_current_customer_profile u
  address ←
      (if is_pickup input.delivery_type then pure none else some_address profile input.address_id)
  branch ←
      require (λ db. find_by (λ b. b.id == input.branch_id) db.catalog.branches) Error.not_found
  cart ← (λ db. Result.ok (get_owned_active_cart_aggregate_or_empty u.user_id input.branch_id db))
  assert_cart_ready_for_checkout branch cart
  pure (record { customer = profile; address = address; branch = branch; cart = cart })

-- `CheckoutPricingBreakdown`
pub record PricingBreakdown : Type 0 where
  pub subtotal_amount : Decimal
  pub discount_amount : Decimal
  pub delivery_fee : Decimal
  pub total_amount : Decimal
  pub applied_promotion : Option PromotionEvaluation

abbrev pub cart_subtotal : Option Cart → Decimal
cart_subtotal none = 0
cart_subtotal (some c) = c.subtotal_amount

abbrev pub applied_discount : Option PromotionEvaluation → Decimal
applied_discount none = 0
applied_discount (some e) = e.discount_amount

abbrev waives_fee : Option PromotionEvaluation → Bool
waives_fee none = false
waives_fee (some e) = e.delivery_fee_waived

-- 1500 in millionths.
abbrev pub standard_delivery_fee : Decimal
standard_delivery_fee = 1500000000

-- The discount is at most the subtotal, so the subtraction does not stop at zero early.
unfoldable pub price : CheckoutContext → Option PromotionEvaluation → PricingBreakdown
price ctx promotion =
    let subtotal = cart_subtotal ctx.cart.cart in
    let discount = applied_discount promotion in
    let fee = if is_none ctx.address || waives_fee promotion then 0 else standard_delivery_fee in
    record {
      subtotal_amount = subtotal;
      discount_amount = discount;
      delivery_fee = fee;
      total_amount = (subtotal - discount) + fee;
      applied_promotion = promotion;
    }

unfoldable pub build_pricing_breakdown :
    Platform → ℕ → CheckoutContext → Option Text → Read PricingBreakdown
build_pricing_breakdown pf now ctx code = do
  promotion ←
      evaluate_promotion_for_checkout pf now ctx.branch.id (cart_subtotal ctx.cart.cart) code
        (some ctx.customer.id)
  pure (price ctx promotion)
