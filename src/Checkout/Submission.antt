-- ===== src/Checkout/Submission.antt =====
-- checkout/services/checkout-submission.service.ts, with `createCheckoutOrder` of
-- orders/repositories/orders.repository.ts.
use wer_te_backend.Prelude.{
  ℕ, ◌-◌, ◌%◌, ◌*◌, Bool, true, false, ◌&&◌, Option, none, some, List, [], ◌∷◌, ◌++◌, ◌==◌,
  option_is, if◌then◌else◌, or_else, is_none, find_by, update_by, map, Text, codes,
}
use wer_te_backend.Domain.Enums.{
  UserRole, OrderStatus, DeliveryType, PaymentMethod, PaymentProvider,
}
use wer_te_backend.Domain.Entities.{User, Order, OrderLine, LotAllocation, StatusChange}
use wer_te_backend.Domain.Finance.{Decimal, Payment}
use wer_te_backend.Domain.Shop.{Cart, CartStatus, Address}
use wer_te_backend.Domain.Store.{
  Db, Action, Error, Result, Job, MessageCode, ◌>>=◌, ◌>>◌, pure, gets, modify, throw_unless,
  transaction,
}
use wer_te_backend.Domain.Reads.{Read, bind_result}
use wer_te_backend.Access.{has_owned_resource_access}
use wer_te_backend.Inventory.Reserve.{Reservation, reserve_tracked_inventory_for_order}
use wer_te_backend.Orders.Effects.{Services, run_best_effort, publish_order_event, add_job}
use wer_te_backend.Promotions.Pricing.{Platform, PromotionEvaluation}
use wer_te_backend.Checkout.Context.{
  CheckoutContext, ContextInput, PricingBreakdown, is_pickup,
  get_validated_current_customer_checkout_context, build_pricing_breakdown,
}
use wer_te_backend.Checkout.Lines.{build_order_cart_items}
use wer_te_backend.Checkout.Intent.{IntentInput, find_intent, create_checkout_payment_intent}

pub record SubmitCheckoutInput : Type 0 where
  pub branch_id : ℕ
  pub address_id : Option ℕ
  pub delivery_type : Option DeliveryType
  pub idempotency_key : ℕ
  pub payment_method : Option PaymentMethod
  pub payment_provider : Option PaymentProvider
  pub promotion_code : Option Text

-- The ids that the database gives to new rows, the time, and the services behind the side effects.
pub record CheckoutRun : Type 0 where
  pub platform : Platform
  pub order_id : ℕ
  pub payment_id : ℕ
  pub now : ℕ
  pub services : Services

-- `CheckoutSubmissionEntity`
pub record CheckoutSubmission : Type 0 where
  pub order : Order
  pub payment_intent : Payment
  pub is_idempotent_replay : Bool

-- What is read before the transaction.
pub record Prepared : Type 0 where
  pub context : CheckoutContext
  pub pricing : PricingBreakdown

abbrev lift : {A : Type 0} → Read A → Action A
lift m db = (m db, db)

abbrev pub context_input : SubmitCheckoutInput → ContextInput
context_input input = record {
  branch_id = input.branch_id;
  address_id = input.address_id;
  delivery_type = input.delivery_type;
}

unfoldable pub prepare_checkout : CheckoutRun → User → SubmitCheckoutInput → Read Prepared
prepare_checkout run u input db =
    bind_result (get_validated_current_customer_checkout_context u (context_input input) db) (λ ctx.
      bind_result (build_pricing_breakdown run.platform run.now ctx input.promotion_code db)
        (λ pricing. Result.ok (record { context = ctx; pricing = pricing })))

-- `findByIdempotencyKey`
abbrev pub find_by_idempotency_key : ℕ → Db → Option Order
find_by_idempotency_key key db = find_by (λ o. option_is o.idempotency_key key) db.orders

-- The negation of the test of `assertIdempotentOrderBelongsToCustomer`.
unfoldable pub belongs_to_customer : User → CheckoutContext → ℕ → Bool
belongs_to_customer u ctx profile_id =
    has_owned_resource_access u UserRole.customer ctx.customer.user_id profile_id
      u.actor_context.customer_profile_id
    && profile_id == ctx.customer.id

-- `buildOrderCode`: the last eight digits of the time in milliseconds.
abbrev pub build_order_code : ℕ → ℕ
build_order_code now = now % 100000000

abbrev allocations_of : Option ℕ → List (ℕ × List LotAllocation) → List LotAllocation
allocations_of none table = []
allocations_of (some key) [] = []
allocations_of (some key) ((k, used) ∷ table) =
    if k == key then used else allocations_of (some key) table

abbrev with_lots : Reservation → OrderLine → OrderLine
with_lots reserved l = record l {
  inventory_lot_allocations = allocations_of l.line_key reserved.allocations;
}

abbrev pub with_allocations : Reservation → List OrderLine → List OrderLine
with_allocations reserved lines = map (with_lots reserved) lines

abbrev address_township : Option Address → Option ℕ
address_township none = none
address_township (some a) = some a.township

abbrev cart_id_of : Option Cart → Option ℕ
cart_id_of none = none
cart_id_of (some c) = some c.id

abbrev promotion_id_of : Option PromotionEvaluation → Option ℕ
promotion_id_of none = none
promotion_id_of (some e) = some e.promotion_id

-- `effectiveTotalAmount`
abbrev pub effective_total : SubmitCheckoutInput → PricingBreakdown → Decimal
effective_total input p =
    if is_pickup input.delivery_type then p.subtotal_amount - p.discount_amount else p.total_amount

abbrev pub checkout_history : User → List StatusChange
checkout_history u =
    record {
      from_status = none;
      to_status = OrderStatus.placed;
      changed_by_user_id = u.user_id;
      reason_code = some (codes "checkout_submitted");
      note = none;
    }
    ∷ []

-- The order that `createCheckoutOrder` is given.
unfoldable pub checkout_order :
    CheckoutRun → User → SubmitCheckoutInput → Prepared → List OrderLine → Order
checkout_order run u input p lines = record {
  id = run.order_id;
  order_code = build_order_code run.now;
  customer_profile_id = p.context.customer.id;
  customer_user_id = p.context.customer.user_id;
  merchant_id = p.context.branch.merchant_id;
  merchant_user_id = p.context.branch.merchant_user_id;
  idempotency_key = some input.idempotency_key;
  cart_id = cart_id_of p.context.cart.cart;
  promotion_id = promotion_id_of p.pricing.applied_promotion;
  subtotal_amount = p.pricing.subtotal_amount;
  discount_amount = p.pricing.discount_amount;
  delivery_fee = if is_pickup input.delivery_type then 0 else p.pricing.delivery_fee;
  total_amount = effective_total input p.pricing;
  delivery_type = or_else input.delivery_type DeliveryType.delivery;
  delivery_township = address_township p.context.address;
  status = OrderStatus.placed;
  items = lines;
  status_history = checkout_history u;
}

-- The order code is unique in the table.
unfoldable pub create_checkout_order : Order → Action Order
create_checkout_order order = do
  throw_unless_fresh order
  modify (λ db. record db { orders = db.orders ++ order ∷ [] })
  pure order
  where
    throw_unless_fresh : Order → Action (Unit {0})
    throw_unless_fresh o db = (
      if is_none (find_by (λ x. x.order_code == o.order_code) db.orders)
          then Result.ok tt
          else Result.err Error.internal_server_error,
      db,
    )

-- `updateCart(…, { status: CHECKED_OUT })`
unfoldable pub check_out_cart : ℕ → Option Cart → Db → Db
check_out_cart now none db = db
check_out_cart now (some c) db = record db {
  carts =
      update_by (λ x. x.id == c.id)
        (λ x. record x { status = CartStatus.checked_out; updated_at = now }) db.carts;
}

-- `createUsage`
unfoldable pub record_usage : ℕ → ℕ → Option PromotionEvaluation → Db → Db
record_usage profile_id order_id none db = db
record_usage profile_id order_id (some e) db = record db {
  promotion_usages =
      db.promotion_usages
      ++ record {
        promotion_id = e.promotion_id;
        customer_profile_id = profile_id;
        order_id = order_id;
      }
        ∷ [];
}

abbrev intent_input : CheckoutRun → SubmitCheckoutInput → Order → Decimal → IntentInput
intent_input run input order amount = record {
  payment_id = run.payment_id;
  order_id = order.id;
  amount = amount;
  idempotency_key = input.idempotency_key;
  payment_method = input.payment_method;
  payment_provider = input.payment_provider;
}

unfoldable pub place_order :
    CheckoutRun → User → SubmitCheckoutInput → Prepared → Action CheckoutSubmission
place_order run u input p = do
  lines ← lift (build_order_cart_items p.context.branch.id p.context.cart.items)
  reserved ← reserve_tracked_inventory_for_order lines
  order ← create_checkout_order (checkout_order run u input p (with_allocations reserved lines))
  payment ←
      create_checkout_payment_intent run.now (intent_input run input order p.pricing.total_amount)
  modify (check_out_cart run.now p.context.cart.cart)
  modify (record_usage p.context.customer.id order.id p.pricing.applied_promotion)
  pure (record { order = order; payment_intent = payment; is_idempotent_replay = false })

-- `resolveExistingOrCreatePaymentIntent`
unfoldable pub resolve_existing_or_create_payment_intent :
    CheckoutRun → SubmitCheckoutInput → Order → Action Payment
resolve_existing_or_create_payment_intent run input order =
    gets (find_intent input.idempotency_key) >>= λ found. elim found [
      | none ↦
          create_checkout_payment_intent run.now (intent_input run input order order.total_amount)
      | some payment ↦ pure payment
    ]

unfoldable pub replay_order :
    CheckoutRun → User → SubmitCheckoutInput → Prepared → Order → Action CheckoutSubmission
replay_order run u input p existing = do
  throw_unless (belongs_to_customer u p.context existing.customer_profile_id) Error.conflict
  payment ← resolve_existing_or_create_payment_intent run input existing
  pure (record { order = existing; payment_intent = payment; is_idempotent_replay = true })

unfoldable pub place_or_replay :
    CheckoutRun → User → SubmitCheckoutInput → Prepared → Action CheckoutSubmission
place_or_replay run u input p db = elim (find_by_idempotency_key input.idempotency_key db) [
  | none ↦ place_order run u input p db
  | some existing ↦ replay_order run u input p existing db
]

-- The notifications about low stock; they are not part of the tables.
abbrev publish_reserved_inventory_alerts : Services → Action (Unit {0})
publish_reserved_inventory_alerts sv db =
    (if sv.alerts_up then Result.ok tt else Result.err Error.infrastructure, db)

-- The side effects of a new order.
unfoldable pub announce_order : CheckoutRun → CheckoutSubmission → Action CheckoutSubmission
announce_order run s = if s.is_idempotent_replay then pure s else do
  run_best_effort (add_job run.services (Job.order_timeout s.order.id (30 * 60 * 1000)))
  run_best_effort (publish_order_event run.services s.order.id MessageCode.order_placed)
  run_best_effort (publish_reserved_inventory_alerts run.services)
  pure s

unfoldable pub submit_current_customer_checkout :
    CheckoutRun → User → SubmitCheckoutInput → Action CheckoutSubmission
submit_current_customer_checkout run u input = do
  p ← lift (prepare_checkout run u input)
  s ← transaction (place_or_replay run u input p)
  announce_order run s
