-- ===== src/Examples/Market.antt =====
-- A branch with a menu, a customer with a cart, and a promotion.
use wer_te_backend.Prelude.{◌*◌, ◌/◌, true, none, some, [], ◌∷◌, codes}
use wer_te_backend.Domain.Enums.{UserRole, DiscountType, DeliveryType, PaymentMethod}
use wer_te_backend.Domain.Shop.{
  Catalog, BranchStatus, MerchantStatus, OptionGroupKind, ItemOption, Promotion, Cart, CartStatus,
  CartItem,
}
use wer_te_backend.Domain.Store.{Db}
use wer_te_backend.Carts.Mutation.{CartRun, AddCartItemInput}
use wer_te_backend.Promotions.Pricing.{Platform}
use wer_te_backend.Checkout.Submission.{CheckoutRun, SubmitCheckoutInput}
use wer_te_backend.Examples.Data.{shop, services}

abbrev pub add_on : ItemOption
add_on = record {
  id = 200;
  group_id = 70;
  group_kind = OptionGroupKind.add_on;
  price_delta = 500;
  is_active = true;
}

abbrev pub half_price : Promotion
half_price = record {
  id = 90;
  branch_id = 60;
  code = codes "HALF";
  discount_type = DiscountType.percentage;
  discount_value = 50000000;
  minimum_subtotal_amount = 1000;
  maximum_discount_amount = some 2000;
  per_customer_limit = some 1;
  starts_at = some 100;
  ends_at = none;
  is_active = true;
  deleted_at = none;
}

abbrev catalog : Catalog
catalog = record {
  profiles = record { id = 20; user_id = 21; user_role = UserRole.customer } ∷ [];
  branches =
      record {
        id = 60;
        status = BranchStatus.active;
        merchant_id = 30;
        merchant_user_id = 31;
        merchant_status = MerchantStatus.active;
      }
      ∷ [];
  addresses = [];
  items = record { id = 100; branch_id = 60; base_price = 2500; is_available = true } ∷ [];
  option_groups =
      record {
        id = 70;
        menu_item_id = 100;
        kind = OptionGroupKind.add_on;
        min_select = 1;
        max_select = 2;
        is_active = true;
      }
      ∷ [];
  options = add_on ∷ [];
  variant_combinations = [];
  promotions = half_price ∷ [];
}

-- The shop with its menu, without a cart.
abbrev pub empty_market : Db
empty_market = record shop { catalog = catalog }

abbrev pub cart : Cart
cart = record {
  id = 800;
  customer_profile_id = 20;
  customer_user_id = 21;
  branch_id = 60;
  status = CartStatus.active;
  total_quantity = 2;
  subtotal_amount = 6000;
  total_amount = 6000;
  updated_at = 900;
  created_at = 900;
}

abbrev pub cart_item : CartItem
cart_item = record {
  id = 810;
  cart_id = 800;
  menu_item_id = 100;
  quantity = 2;
  unit_price_snapshot = 3000;
  line_total = 6000;
  selected_options = record { item_option_id = 200; price_delta_snapshot = 500 } ∷ [];
}

-- The shop with a cart of two portions.
abbrev pub market : Db
market = record empty_market { carts = cart ∷ []; cart_items = cart_item ∷ [] }

abbrev pub cart_run : CartRun
cart_run = record { cart_id = 801; cart_item_id = 811; now = 1000 }

abbrev pub addition : AddCartItemInput
addition = record { menu_item_id = 100; quantity = 2; selected_option_ids = some (200 ∷ []) }

-- An uppercase that is right for texts without small letters, and a percentage that is cut off.
abbrev pub platform : Platform
platform = record {
  to_upper_case = λ s. s;
  percent_of = λ amount percent. (amount * percent) / 100000000;
}

abbrev pub checkout_run : CheckoutRun
checkout_run = record {
  platform = platform;
  order_id = 9;
  payment_id = 709;
  now = 1000;
  services = services;
}

abbrev pub submission : SubmitCheckoutInput
submission = record {
  branch_id = 60;
  address_id = none;
  delivery_type = some DeliveryType.pickup;
  idempotency_key = 77;
  payment_method = some PaymentMethod.cash_on_delivery;
  payment_provider = none;
  promotion_code = some (codes " HALF ");
}
