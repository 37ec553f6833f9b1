-- ===== src/Examples/Data.antt =====
-- The tables of the examples.
use wer_te_backend.Prelude.{ℕ, true, false, none, some, List, [], ◌∷◌, codes}
use wer_te_backend.Domain.Enums.{
  AttemptOutcome, DeliveryStatus, UserRole, UserStatus, RiderStatus, OrderStatus, DeliveryType,
  PaymentMethod, PaymentProvider, PaymentStatus,
}
use wer_te_backend.Domain.Entities.{User, Order, OrderLine, Rider, StatusChange, DispatchAttempt}
use wer_te_backend.Domain.Finance.{Payment}
use wer_te_backend.Domain.Shop.{Catalog}
use wer_te_backend.Domain.Store.{Db, StockRow, Lot}
use wer_te_backend.Orders.View.{OrderSummary}
use wer_te_backend.Deliveries.Policy.{DeliveryDetail}
use wer_te_backend.Orders.Effects.{Services}
use wer_te_backend.Orders.Merchant.{ActionInput}
use wer_te_backend.Deliveries.Actions.{RiderInput}
use wer_te_backend.Dispatch.Auto.{Run}
use wer_te_backend.Flow.Commands.{Call, Command}

abbrev pub placed_entry : StatusChange
placed_entry = record {
  from_status = none;
  to_status = OrderStatus.placed;
  changed_by_user_id = 21;
  reason_code = some (codes "checkout");
  note = none;
}

-- Two portions of item 100, kept in lots, each with option 200.
abbrev pub noodles : OrderLine
noodles = record {
  line_key = some 1;
  menu_item_id = 100;
  quantity = 2;
  menu_item_stock_tracked_snapshot = true;
  selected_variant_combination_id = some 300;
  variant_combination_stock_tracked_snapshot = true;
  inventory_lot_allocations =
      record {
        inventory_lot_id = 401;
        batch_no_snapshot = 1;
        expiry_date_snapshot = some 900;
        quantity = 2;
      }
      ∷ [];
  selected_options = record { item_option_id = 200; stock_tracked_snapshot = true } ∷ [];
}

abbrev pub order_of : ℕ → DeliveryType → OrderStatus → Order
order_of k t s = record {
  id = k;
  order_code = k;
  customer_profile_id = 20;
  customer_user_id = 21;
  merchant_id = 30;
  merchant_user_id = 31;
  idempotency_key = some k;
  cart_id = none;
  promotion_id = none;
  subtotal_amount = 5000;
  discount_amount = 0;
  delivery_fee = 0;
  total_amount = 5000;
  delivery_type = t;
  delivery_township = some 5;
  status = s;
  items = noodles ∷ [];
  status_history = record placed_entry { to_status = s } ∷ [];
}

abbrev pub delivery_order : Order
delivery_order = order_of 1 DeliveryType.delivery OrderStatus.placed

abbrev pub pickup_order : Order
pickup_order = order_of 2 DeliveryType.pickup OrderStatus.placed

abbrev pub waiting_order : Order
waiting_order = order_of 3 DeliveryType.delivery OrderStatus.merchant_accepted

abbrev pub delivered_order : Order
delivered_order = order_of 4 DeliveryType.delivery OrderStatus.delivered

abbrev pub rider : Rider
rider = record {
  id = 40;
  user_id = 41;
  status = RiderStatus.active;
  user_status = UserStatus.active;
  current_township = some 5;
  availability = some (record { is_online = true; is_available = true });
}

abbrev stock : ℕ → ℕ → StockRow
stock k n = record {
  id = k;
  is_stock_tracked = true;
  stock_quantity = some n;
  low_stock_threshold = some 3;
}

abbrev lot : ℕ → ℕ → ℕ → Lot
lot k expiry n = record {
  id = k;
  menu_item_id = 100;
  batch_no = k;
  expiry_date = some expiry;
  received_at = 10;
  created_at = 10;
  remaining_quantity = n;
}

abbrev pub cash_payment : Payment
cash_payment = record {
  id = 700;
  order_id = 1;
  idempotency_key = some 1;
  method = PaymentMethod.cash_on_delivery;
  provider = PaymentProvider.cod;
  status = PaymentStatus.pending;
  amount = 5000;
  refunded_amount = 0;
  provider_reference = none;
  provider_receipt_id = none;
  failure_code = none;
  failure_message = none;
  requires_action_at = none;
  succeeded_at = none;
  failed_at = none;
  cancelled_at = none;
  expired_at = none;
  attempts = [];
}

abbrev empty_catalog : Catalog
empty_catalog = record {
  profiles = [];
  branches = [];
  addresses = [];
  items = [];
  option_groups = [];
  options = [];
  variant_combinations = [];
  promotions = [];
}

abbrev pub shop : Db
shop = record {
  orders = delivery_order ∷ pickup_order ∷ waiting_order ∷ delivered_order ∷ [];
  deliveries = [];
  riders = rider ∷ [];
  dispatch_attempts = [];
  payments = cash_payment ∷ [];
  refunds = [];
  payment_events = [];
  refund_events = [];
  menu_items = stock 100 10 ∷ [];
  item_options = stock 200 7 ∷ [];
  combinations = stock 300 4 ∷ [];
  lots = lot 401 900 1 ∷ lot 402 800 5 ∷ [];
  catalog = empty_catalog;
  carts = [];
  cart_items = [];
  promotion_usages = [];
  jobs = [];
  messages = [];
}

-- The queue does not answer.
abbrev pub services : Services
services = record { messages_up = true; queue_up = false; alerts_up = true }

abbrev pub run : Run
run = record {
  attempt_id = 500;
  delivery_id = 600;
  now = 1000;
  services = record { messages_up = true; queue_up = true; alerts_up = true };
}

abbrev pub merchant : User
merchant = record {
  user_id = 31;
  role = UserRole.merchant;
  actor_context = record { customer_profile_id = none; merchant_id = some 30; rider_id = none };
}

abbrev pub customer : User
customer = record {
  user_id = 21;
  role = UserRole.customer;
  actor_context = record { customer_profile_id = some 20; merchant_id = none; rider_id = none };
}

abbrev pub rider_user : User
rider_user = record {
  user_id = 41;
  role = UserRole.rider;
  actor_context = record { customer_profile_id = none; merchant_id = none; rider_id = some 40 };
}

abbrev pub by : User → Call
by u = record { services = services; now = 1000; user = u }

abbrev pub order_input : ℕ → ActionInput
order_input k = record { order_id = k; reason_code = none; note = none }

abbrev pub delivery_input : RiderInput
delivery_input = record { delivery_id = 600; reason_code = none; note = none }

-- A delivery from its acceptance to the door, and a pickup order that is cancelled when it is ready.
abbrev pub day : List Command
day =
    Command.merchant_accepts (by merchant) (order_input 1)
    ∷ Command.auto_dispatch run 1
    ∷ Command.rider_accepts (by rider_user) delivery_input
    ∷ Command.merchant_prepares (by merchant) (order_input 1)
    ∷ Command.merchant_is_ready (by merchant) (order_input 1)
    ∷ Command.rider_picks_up (by rider_user) delivery_input
    ∷ Command.rider_sets_off (by rider_user) delivery_input
    ∷ Command.rider_delivers (by rider_user) delivery_input
    ∷ Command.merchant_accepts (by merchant) (order_input 2)
    ∷ Command.customer_cancels (by customer) (order_input 2)
    ∷ []

-- The delivered order as its summary.
abbrev pub order_view : OrderSummary
order_view = record {
  order_id = 4;
  order_code = 4;
  status = OrderStatus.delivered;
  delivery_type = DeliveryType.delivery;
  customer_profile_id = 20;
  customer_user_id = 21;
  merchant_id = 30;
  merchant_user_id = 31;
  delivery = none;
}

abbrev pub out_for_delivery : DeliveryDetail
out_for_delivery = record {
  delivery = record {
    id = 600;
    order_id = 1;
    rider_id = some 40;
    status = DeliveryStatus.on_the_way;
    eta_minutes = none;
    assigned_at = some 900;
    accepted_at = some 910;
    picked_up_at = some 950;
    on_the_way_at = some 960;
    delivered_at = none;
    failed_at = none;
    cancelled_at = none;
    failure_reason_code = none;
    failure_note = none;
  };
  order = order_of 1 DeliveryType.delivery OrderStatus.on_the_way;
}

abbrev timed_out : ℕ → DispatchAttempt
timed_out k = record {
  id = k;
  order_id = 3;
  rider_id = k;
  outcome = AttemptOutcome.timeout;
  resolved_at = some 800;
}

-- Three riders did not answer the offer of the third order.
abbrev pub exhausted : Db
exhausted = record shop { dispatch_attempts = timed_out 51 ∷ timed_out 52 ∷ timed_out 53 ∷ [] }
