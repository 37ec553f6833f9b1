-- ===== src/Checkout/Refused.antt =====
-- The submissions that place nothing.
use wer_te_backend.Prelude.{true, none, some, ◌≡◌, ◌≢◌, ◌⊎◌, inl, inr, arith}
use wer_te_backend.Domain.Entities.{User, Order}
use wer_te_backend.Domain.Finance.{Payment}
use wer_te_backend.Domain.Store.{Db, Result, Error}
use wer_te_backend.Domain.Reads.{Result-cases}
use wer_te_backend.Orders.Effects.{run_best_effort}
use wer_te_backend.Checkout.Validation.{assert_cart_ready_for_checkout}
use wer_te_backend.Checkout.Context.{
  ContextInput, CheckoutContext, find_active_cart_of_user, get_owned_active_cart_aggregate_or_empty,
  get_validated_current_customer_checkout_context,
}
use wer_te_backend.Checkout.Intent.{find_intent}
use wer_te_backend.Checkout.Submission.{
  CheckoutRun, SubmitCheckoutInput, CheckoutSubmission, context_input, prepare_checkout,
  find_by_idempotency_key, resolve_existing_or_create_payment_intent, replay_order, place_or_replay,
  announce_order, submit_current_customer_checkout,
}

-- A refused submission leaves every table as it was.
pub submit_current_customer_checkout-err :
    (run : CheckoutRun) (u : User) (input : SubmitCheckoutInput) (e : Error) (db : Db)
    → (submit_current_customer_checkout run u input db).0 ≡ Result.err e
    → (submit_current_customer_checkout run u input db).1 ≡ db
unfolding submit_current_customer_checkout announce_order run_best_effort
submit_current_customer_checkout-err run u input e db h = ground arith

-- A submission whose key has an order and a payment places nothing and answers with these two.
pub submit_current_customer_checkout-replay :
    (run : CheckoutRun) (u : User) (input : SubmitCheckoutInput) (o : Order) (p : Payment) (db : Db)
    → find_by_idempotency_key input.idempotency_key db ≡ some o
    → find_intent input.idempotency_key db ≡ some p
    → ((submit_current_customer_checkout run u input db).1 ≡ db)
      × ((s : CheckoutSubmission)
          → (submit_current_customer_checkout run u input db).0 ≡ Result.ok s
          → s ≡ record { order = o; payment_intent = p; is_idempotent_replay = true })
unfolding submit_current_customer_checkout place_or_replay replay_order
    resolve_existing_or_create_payment_intent announce_order
submit_current_customer_checkout-replay run u input o p db h k =
    (ground (arith, h, k), λ s e. ground (arith, h, k, e))

get_validated-cart :
    (u : User) (input : ContextInput) (ctx : CheckoutContext) (db : Db)
    → get_validated_current_customer_checkout_context u input db ≡ Result.ok ctx
    → find_active_cart_of_user u.user_id input.branch_id db ≢ none
unfolding get_validated_current_customer_checkout_context get_owned_active_cart_aggregate_or_empty
    assert_cart_ready_for_checkout
get_validated-cart u input ctx db h empty = ground (arith, h, empty)

-- Without an active cart in the branch, a submission is refused and changes nothing, whatever its
-- idempotency key: the retry of a submission that checked the cart out is not answered by a replay.
pub submit_current_customer_checkout-no_cart :
    (run : CheckoutRun) (u : User) (input : SubmitCheckoutInput) (db : Db)
    → find_active_cart_of_user u.user_id input.branch_id db ≡ none
    → (e : Error) × (submit_current_customer_checkout run u input db ≡ (Result.err e, db))
unfolding submit_current_customer_checkout prepare_checkout
submit_current_customer_checkout-no_cart run u input db empty =
    by_context
      (Result-cases (get_validated_current_customer_checkout_context u (context_input input) db))
  where
    by_context :
        ((e : Error) × (get_validated_current_customer_checkout_context u (context_input input) db
              ≡ Result.err e))
          ⊎ ((ctx : CheckoutContext) × (get_validated_current_customer_checkout_context u
                  (context_input input)
                  db
                ≡ Result.ok ctx))
        → (e : Error) × (submit_current_customer_checkout run u input db ≡ (Result.err e, db))
    by_context (inl (e, x)) = (e, ground (arith, x))
    by_context (inr (ctx, x)) = elim (get_validated-cart u (context_input input) ctx db x empty) [ ]
