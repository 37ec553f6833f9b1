-- ===== src/Examples/Checkout.antt =====
-- The theorems on promotions and checkouts, applied.
use wer_te_backend.Prelude.{
  List, none, some, [], ◌∷◌, ◌++◌, ◌≡◌, refl, codes, false, true, trim, filter, newest,
}
use wer_te_backend.Domain.Enums.{
  OrderStatus, DeliveryType, order_is, UserRole, PaymentMethod, PaymentProvider, PaymentStatus,
}
use wer_te_backend.Domain.Finance.{Payment}
use wer_te_backend.Domain.Shop.{BranchStatus, MerchantStatus}
use wer_te_backend.Domain.Entities.{Order, OrderLine}
use wer_te_backend.Domain.Store.{Db, Result, Error}
use wer_te_backend.Access.{has_owned_resource_access, matches_actor_scoped_resource}
use wer_te_backend.Carts.Selection.{
  active_groups, active_options, count_of, set_count, zero_counts, select_options,
  groups_are_satisfied, lacks_stock, options_have_stock, selected_variant_is_valid,
}
use wer_te_backend.Carts.Lookup.{resolve_current_customer_profile}
use wer_te_backend.Promotions.Pricing.{
  normalize_promotion_code, find_promotion_by_branch_id_and_code, count_customer_usage, discount_of,
  evaluation_of, evaluate_code, evaluate_promotion_for_checkout,
}
use wer_te_backend.Checkout.Validation.{
  menu_item_remains_available, selections_remain_valid, items_remain_valid,
  assert_cart_ready_for_checkout,
}
use wer_te_backend.Checkout.Context.{
  CheckoutContext, find_active_cart_of_user, get_owned_active_cart_aggregate_or_empty,
  get_validated_current_customer_checkout_context, PricingBreakdown, price, build_pricing_breakdown,
}
use wer_te_backend.Checkout.Amounts.{IsPriced, build_pricing_breakdown-IsPriced}
use wer_te_backend.Checkout.Lines.{
  find_branch_option, selected_variant_option_ids, is_tracked, build_order_line,
  build_order_cart_items,
}
use wer_te_backend.Checkout.Intent.{
  resolve_payment_profile, intent_row, create_checkout_payment_intent,
}
use wer_te_backend.Checkout.Submission.{
  CheckoutSubmission, Prepared, prepare_checkout, checkout_order, create_checkout_order,
  check_out_cart, record_usage, place_order, place_or_replay, announce_order,
  submit_current_customer_checkout,
}
use wer_te_backend.Checkout.Placed.{IsSound, submit_current_customer_checkout-IsSound}
use wer_te_backend.Checkout.Refused.{
  submit_current_customer_checkout-err, submit_current_customer_checkout-replay,
  submit_current_customer_checkout-no_cart,
}
use wer_te_backend.Orders.View.{find_order, update_order_status, apply_status}
use wer_te_backend.Orders.Policy.{should_release_inventory}
use wer_te_backend.Orders.Effects.{publish_order_event, add_job, release_inventory}
use wer_te_backend.Orders.Cancellation.{
  cancel_update, order_timeout_actor, commit_cancellation, cancel_and_notify,
  handle_merchant_timeout,
}
use wer_te_backend.Flow.Progress.{HasHistory}
use wer_te_backend.Flow.Diagram.{Moves}
use wer_te_backend.Flow.Timeouts.{merchant_timeout-left}
use wer_te_backend.Flow.Commands.{Command, run_command, run_commands, run_commands-Began}
use wer_te_backend.Inventory.Reserve.{
  restore_tracked_inventory_for_order, restore_line, restore_options, restore_combination,
  restore_menu_item, restore_lots, record_allocations, reserve_lots_of_line, reserve_menu_item,
  reserve_combination, reserve_option, reserve_options, reserve_line, reserve_lines,
  reserve_tracked_inventory_for_order,
}
use wer_te_backend.Inventory.Lots.{
  compare_lots, insert_lot, sort_lots, available_lots, available_quantity, allocate,
  reserve_tracked_inventory_lots,
}
use wer_te_backend.Inventory.Stock.{
  increment_option_stock, increment_item_inventory_lot, increment_item_stock, decrement_stock,
  decrement_tracked_item_stock, decrement_tracked_option_stock, decrement_lot,
  decrement_item_inventory_lot_quantity,
}
use wer_te_backend.Inventory.Alerts.{
  resolve_attention_level, should_emit_alert, build_alert_event, set_alert, record_alert,
}
use wer_te_backend.Orders.Policy.{should_release_inventory}
use wer_te_backend.Orders.Effects.{publish_order_event, add_job, run_best_effort}
use wer_te_backend.Examples.Data.{customer, order_of, cash_payment}
use wer_te_backend.Examples.Market.{
  half_price, market, empty_market, checkout_run, submission, platform, cart, cart_item,
}

-- The pickup context of the cart, and its price.
abbrev context : CheckoutContext
context = record {
  customer = record { id = 20; user_id = 21; user_role = UserRole.customer };
  address = none;
  branch = record {
    id = 60;
    status = BranchStatus.active;
    merchant_id = 30;
    merchant_user_id = 31;
    merchant_status = MerchantStatus.active;
  };
  cart = record { cart = some cart; branch_id = 60; items = cart_item ∷ [] };
}

abbrev breakdown : PricingBreakdown
breakdown = record {
  subtotal_amount = 6000;
  discount_amount = 0;
  delivery_fee = 0;
  total_amount = 6000;
  applied_promotion = none;
}

priced : build_pricing_breakdown platform 1000 context none market ≡ Result.ok breakdown
unfolding build_pricing_breakdown evaluate_promotion_for_checkout normalize_promotion_code price
priced = refl

build_pricing_breakdown-IsPriced_example : IsPriced context breakdown
build_pricing_breakdown-IsPriced_example =
    build_pricing_breakdown-IsPriced platform 1000 context none breakdown market priced

refused :
    (submit_current_customer_checkout checkout_run customer submission empty_market).0
    ≡ Result.err Error.unprocessable_entity
unfolding submit_current_customer_checkout prepare_checkout
    get_validated_current_customer_checkout_context resolve_current_customer_profile
    has_owned_resource_access matches_actor_scoped_resource get_owned_active_cart_aggregate_or_empty
    find_active_cart_of_user newest filter assert_cart_ready_for_checkout
refused = refl

submit_current_customer_checkout-err_example :
    (submit_current_customer_checkout checkout_run customer submission empty_market).1
    ≡ empty_market
submit_current_customer_checkout-err_example =
    submit_current_customer_checkout-err checkout_run customer submission Error.unprocessable_entity
      empty_market refused

no_active_cart : find_active_cart_of_user 21 60 empty_market ≡ none
unfolding find_active_cart_of_user newest filter
no_active_cart = refl

submit_current_customer_checkout-no_cart_example :
    (e : Error) × (submit_current_customer_checkout checkout_run customer submission empty_market
      ≡ (Result.err e, empty_market))
submit_current_customer_checkout-no_cart_example =
    submit_current_customer_checkout-no_cart checkout_run customer submission empty_market
      no_active_cart

abbrev old_order : Order
old_order = record (order_of 5 DeliveryType.pickup OrderStatus.placed) { idempotency_key = some 77 }

abbrev old_payment : Payment
old_payment = record cash_payment { order_id = 5; idempotency_key = some 77 }

-- The key was used before, and the customer has filled the cart again.
abbrev used_key : Db
used_key = record market { orders = old_order ∷ []; payments = old_payment ∷ [] }

submit_current_customer_checkout-replay_example :
    ((submit_current_customer_checkout checkout_run customer submission used_key).1 ≡ used_key)
    × ((s : CheckoutSubmission)
        → (submit_current_customer_checkout checkout_run customer submission used_key).0
          ≡ Result.ok s
        → s
          ≡ record { order = old_order; payment_intent = old_payment; is_idempotent_replay = true })
submit_current_customer_checkout-replay_example =
    submit_current_customer_checkout-replay checkout_run customer submission old_order old_payment
      used_key refl refl

abbrev prepared : Prepared
prepared = record {
  context = context;
  pricing = record {
    subtotal_amount = 6000;
    discount_amount = 2000;
    delivery_fee = 0;
    total_amount = 4000;
    applied_promotion = some (evaluation_of platform half_price 6000);
  };
}

-- The two portions, taken from the lot that expires first.
abbrev portions : OrderLine
portions = record {
  line_key = some 810;
  menu_item_id = 100;
  quantity = 2;
  menu_item_stock_tracked_snapshot = true;
  selected_variant_combination_id = none;
  variant_combination_stock_tracked_snapshot = false;
  inventory_lot_allocations =
      record {
        inventory_lot_id = 402;
        batch_no_snapshot = 402;
        expiry_date_snapshot = some 800;
        quantity = 2;
      }
      ∷ [];
  selected_options = record { item_option_id = 200; stock_tracked_snapshot = true } ∷ [];
}

abbrev placed : CheckoutSubmission
placed = record {
  order = checkout_order checkout_run customer submission prepared (portions ∷ []);
  payment_intent =
      intent_row 1000
        (record {
          payment_id = 709;
          order_id = 9;
          amount = 4000;
          idempotency_key = 77;
          payment_method = some PaymentMethod.cash_on_delivery;
          payment_provider = none;
        })
        (record {
          method = PaymentMethod.cash_on_delivery;
          provider = PaymentProvider.cod;
          status = PaymentStatus.pending;
          requires_action_at = none;
        });
  is_idempotent_replay = false;
}

-- No merchant takes the order.
abbrev timed_out : Order
timed_out =
    apply_status
      (cancel_update order_timeout_actor (some (codes "merchant_timeout")) none placed.order)
      placed.order

abbrev evening : List Command
evening =
    Command.customer_checks_out checkout_run customer submission ∷ Command.merchant_timeout 9 ∷ []

submitted :
    ((submit_current_customer_checkout checkout_run customer submission market).0
      ≡ Result.ok placed)
    × (find_order 9 (run_commands evening market) ≡ some timed_out)
unfolding submit_current_customer_checkout prepare_checkout
    get_validated_current_customer_checkout_context resolve_current_customer_profile
    has_owned_resource_access matches_actor_scoped_resource get_owned_active_cart_aggregate_or_empty
    find_active_cart_of_user newest filter assert_cart_ready_for_checkout
    menu_item_remains_available selections_remain_valid items_remain_valid active_groups
    active_options zero_counts select_options count_of set_count groups_are_satisfied lacks_stock
    options_have_stock selected_variant_is_valid build_pricing_breakdown price
    evaluate_promotion_for_checkout evaluate_code normalize_promotion_code trim
    find_promotion_by_branch_id_and_code count_customer_usage discount_of place_or_replay
    place_order build_order_cart_items build_order_line selected_variant_option_ids
    find_branch_option is_tracked create_checkout_order checkout_order
    create_checkout_payment_intent resolve_payment_profile check_out_cart record_usage
    announce_order reserve_tracked_inventory_for_order reserve_lines reserve_line reserve_menu_item
    reserve_lots_of_line reserve_combination reserve_option reserve_options record_allocations
    reserve_tracked_inventory_lots allocate available_lots available_quantity sort_lots insert_lot
    compare_lots decrement_tracked_item_stock decrement_tracked_option_stock decrement_stock
    decrement_lot decrement_item_inventory_lot_quantity run_best_effort build_alert_event
    resolve_attention_level should_emit_alert record_alert set_alert run_commands run_command
    handle_merchant_timeout cancel_and_notify commit_cancellation update_order_status apply_status
    release_inventory publish_order_event add_job should_release_inventory
    restore_tracked_inventory_for_order restore_line restore_options increment_option_stock
    restore_combination restore_menu_item restore_lots increment_item_inventory_lot
    increment_item_stock
submitted = (refl, refl)

submit_current_customer_checkout-IsSound_example : IsSound submission placed
submit_current_customer_checkout-IsSound_example =
    submit_current_customer_checkout-IsSound checkout_run customer submission placed market
      submitted.0 refl

run_commands-Began_example :
    HasHistory timed_out × Moves timed_out.delivery_type OrderStatus.placed timed_out.status
run_commands-Began_example = run_commands-Began evening market 9 timed_out refl submitted.1

merchant_timeout-left_example :
    (o' : Order) × (find_order 5
        (run_commands (evening ++ Command.merchant_timeout 5 ∷ evening) used_key)
      ≡ some o')
    × (order_is o'.status OrderStatus.placed ≡ false)
merchant_timeout-left_example = merchant_timeout-left evening evening used_key 5 old_order refl
