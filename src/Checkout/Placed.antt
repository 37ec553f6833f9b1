-- ===== src/Checkout/Placed.antt =====
-- What the submission of a new checkout writes.
use mathlib.Core.Path.{subst}
use wer_te_backend.Prelude.{
  ◌+◌, ◌≤◌, true, false, none, ◌≡◌, refl, sym, ◌⊎◌, inl, inr, arith, if◌then◌else◌,
}
use wer_te_backend.Domain.Enums.{OrderStatus}
use wer_te_backend.Domain.Entities.{User}
use wer_te_backend.Domain.Store.{Db, Result, Error}
use wer_te_backend.Domain.Reads.{Result-cases}
use wer_te_backend.Orders.Effects.{run_best_effort}
use wer_te_backend.Flow.Diagram.{IsHistory}
use wer_te_backend.Flow.Progress.{HasHistory}
use wer_te_backend.Checkout.Context.{is_pickup}
use wer_te_backend.Checkout.Amounts.{
  IsPriced, build_pricing_breakdown-IsPriced, build_pricing_breakdown-discount,
  get_validated-pickup,
}
use wer_te_backend.Checkout.Intent.{create_checkout_payment_intent}
use wer_te_backend.Checkout.Submission.{
  CheckoutRun, SubmitCheckoutInput, CheckoutSubmission, Prepared, context_input, prepare_checkout,
  effective_total, checkout_history, checkout_order, create_checkout_order, place_order,
  replay_order, place_or_replay, announce_order, submit_current_customer_checkout,
}

-- What is read before the transaction of a checkout.
record IsPrepared (input : SubmitCheckoutInput) (p : Prepared) : Type 0 where
  priced : IsPriced p.context p.pricing
  within : p.pricing.discount_amount ≤ p.pricing.subtotal_amount
  pickup : is_pickup input.delivery_type ≡ true → p.context.address ≡ none

prepare_checkout-IsPrepared :
    (run : CheckoutRun) (u : User) (input : SubmitCheckoutInput) (p : Prepared) (db : Db)
    → prepare_checkout run u input db ≡ Result.ok p
    → IsPrepared input p
unfolding prepare_checkout
prepare_checkout-IsPrepared run u input p db h = record {
  priced =
      build_pricing_breakdown-IsPriced run.platform run.now p.context input.promotion_code p.pricing
        db (ground (arith, h));
  within =
      build_pricing_breakdown-discount run.platform run.now p.context input.promotion_code p.pricing
        db (ground (arith, h));
  pickup = λ e. get_validated-pickup u (context_input input) p.context db (ground (arith, h)) e;
}

-- What a new order is.
record IsPlaced (u : User) (input : SubmitCheckoutInput) (p : Prepared) (s : CheckoutSubmission)
    : Type 0 where
  total : s.order.total_amount ≡ effective_total input p.pricing
  subtotal : s.order.subtotal_amount ≡ p.pricing.subtotal_amount
  discount : s.order.discount_amount ≡ p.pricing.discount_amount
  fee : s.order.delivery_fee ≡ (if is_pickup input.delivery_type then 0 else p.pricing.delivery_fee)
  amount : s.payment_intent.amount ≡ p.pricing.total_amount
  same_order : s.payment_intent.order_id ≡ s.order.id
  status : s.order.status ≡ OrderStatus.placed
  history : s.order.status_history ≡ checkout_history u

place_order-IsPlaced :
    (run : CheckoutRun) (u : User) (input : SubmitCheckoutInput) (p : Prepared)
    (s : CheckoutSubmission) (db : Db)
    → (place_order run u input p db).0 ≡ Result.ok s
    → IsPlaced u input p s
unfolding place_order create_checkout_order create_checkout_payment_intent checkout_order
place_order-IsPlaced run u input p s db h = record {
  total = ground (arith, h);
  subtotal = ground (arith, h);
  discount = ground (arith, h);
  fee = ground (arith, h);
  amount = ground (arith, h);
  same_order = ground (arith, h);
  status = ground (arith, h);
  history = ground (arith, h);
}

submitted-IsPlaced :
    (run : CheckoutRun) (u : User) (input : SubmitCheckoutInput) (p : Prepared)
    (s : CheckoutSubmission) (db : Db)
    → prepare_checkout run u input db ≡ Result.ok p
    → (submit_current_customer_checkout run u input db).0 ≡ Result.ok s
    → s.is_idempotent_replay ≡ false
    → (place_order run u input p db).0 ≡ Result.ok s
unfolding submit_current_customer_checkout place_or_replay replay_order announce_order
    run_best_effort
submitted-IsPlaced run u input p s db e h new = ground (arith, e, h, new)

-- A new order and its payment fit together.
pub record IsSound (input : SubmitCheckoutInput) (s : CheckoutSubmission) : Type 0 where
  pub charged : s.payment_intent.amount ≡ s.order.total_amount
  pub same_order : s.payment_intent.order_id ≡ s.order.id
  pub total :
      s.order.total_amount + s.order.discount_amount
      ≡ s.order.subtotal_amount + s.order.delivery_fee
  pub discount : s.order.discount_amount ≤ s.order.subtotal_amount
  pub pickup_is_free : is_pickup input.delivery_type ≡ true → s.order.delivery_fee ≡ 0
  pub status : s.order.status ≡ OrderStatus.placed
  pub history : HasHistory s.order

IsPlaced-IsSound :
    (u : User) (input : SubmitCheckoutInput) (p : Prepared) (s : CheckoutSubmission)
    → IsPrepared input p
    → IsPlaced u input p s
    → IsSound input s
IsPlaced-IsSound u input p s ready new =
    let priced = ready.priced in
    record {
      charged =
          ground
            (arith, new.total, new.amount, ready.pickup, priced.total, priced.no_fee, ready.within);
      same_order = new.same_order;
      total =
          ground
            (arith, new.total, new.subtotal, new.discount, new.fee, priced.total, ready.within);
      discount = ground (arith, new.subtotal, new.discount, ready.within);
      pickup_is_free = λ e. ground (arith, new.fee, e);
      status = new.status;
      history =
          subst (λ h. IsHistory none h s.order.status) (sym new.history)
            (subst (λ t. IsHistory none (checkout_history u) t) (sym new.status) (refl, refl));
    }

-- A submission that places a new order charges exactly its total, which is the subtotal less the
-- discount plus the fee; a pickup has no fee, and the order starts as placed, with a history that
-- says so.
pub submit_current_customer_checkout-IsSound :
    (run : CheckoutRun) (u : User) (input : SubmitCheckoutInput) (s : CheckoutSubmission) (db : Db)
    → (submit_current_customer_checkout run u input db).0 ≡ Result.ok s
    → s.is_idempotent_replay ≡ false
    → IsSound input s
unfolding submit_current_customer_checkout
submit_current_customer_checkout-IsSound run u input s db h new =
    by_prepared (Result-cases (prepare_checkout run u input db))
  where
    by_prepared :
        ((e : Error) × (prepare_checkout run u input db ≡ Result.err e))
          ⊎ ((p : Prepared) × (prepare_checkout run u input db ≡ Result.ok p))
        → IsSound input s
    by_prepared (inl (e, x)) = ground (arith, h, x)
    by_prepared (inr (p, x)) =
        IsPlaced-IsSound u input p s (prepare_checkout-IsPrepared run u input p db x)
          (place_order-IsPlaced run u input p s db (submitted-IsPlaced run u input p s db x h new))
