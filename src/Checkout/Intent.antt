-- ===== src/Checkout/Intent.antt =====
-- payments/services/checkout-payment-intent.service.ts.
use wer_te_backend.Prelude.{
  ℕ, Bool, true, false, not, Option, none, some, [], ◌∷◌, ◌++◌, option_is, if◌then◌else◌, or_else,
  is_none, find_by,
}
use wer_te_backend.Domain.Enums.{PaymentMethod, PaymentProvider, PaymentStatus, provider_is}
use wer_te_backend.Domain.Finance.{Decimal, Payment}
use wer_te_backend.Domain.Store.{Db, Action, Error, Result}

-- `ResolvedCheckoutPaymentProfile`
pub record PaymentProfile : Type 0 where
  pub method : PaymentMethod
  pub provider : PaymentProvider
  pub status : PaymentStatus
  pub requires_action_at : Option ℕ

-- `provider !== undefined && provider !== expected`
abbrev mismatches : Option PaymentProvider → PaymentProvider → Bool
mismatches none expected = false
mismatches (some p) expected = not (provider_is p expected)

abbrev collected : PaymentMethod → PaymentProvider → PaymentProfile
collected method provider = record {
  method = method;
  provider = provider;
  status = PaymentStatus.pending;
  requires_action_at = none;
}

abbrev profile_unless : Bool → PaymentProfile → Result PaymentProfile
profile_unless true p = Result.err Error.unprocessable_entity
profile_unless false p = Result.ok p

abbrev confirmed_by_provider : ℕ → PaymentMethod → Option PaymentProvider → Result PaymentProfile
confirmed_by_provider now method provider =
    profile_unless (elim provider [ none ↦ false | some p ↦ provider_is p PaymentProvider.cod ])
      (record {
        method = method;
        provider = or_else provider PaymentProvider.manual;
        status = PaymentStatus.requires_action;
        requires_action_at = some now;
      })

abbrev profile_of : ℕ → PaymentMethod → Option PaymentProvider → Result PaymentProfile
profile_of now PaymentMethod.cash_on_delivery provider =
    profile_unless (mismatches provider PaymentProvider.cod)
      (collected PaymentMethod.cash_on_delivery PaymentProvider.cod)
profile_of now PaymentMethod.manual provider =
    profile_unless (mismatches provider PaymentProvider.manual)
      (collected PaymentMethod.manual PaymentProvider.manual)
profile_of now PaymentMethod.digital_wallet provider =
    confirmed_by_provider now PaymentMethod.digital_wallet provider
profile_of now PaymentMethod.card provider = confirmed_by_provider now PaymentMethod.card provider
profile_of now PaymentMethod.bank_transfer provider =
    confirmed_by_provider now PaymentMethod.bank_transfer provider

unfoldable pub resolve_payment_profile :
    ℕ → Option PaymentMethod → Option PaymentProvider → Result PaymentProfile
resolve_payment_profile now method provider =
    profile_of now (or_else method PaymentMethod.cash_on_delivery) provider

-- `CreateCheckoutPaymentIntentInput`
pub record IntentInput : Type 0 where
  pub payment_id : ℕ
  pub order_id : ℕ
  pub amount : Decimal
  pub idempotency_key : ℕ
  pub payment_method : Option PaymentMethod
  pub payment_provider : Option PaymentProvider

-- `findByIdempotencyKey`
abbrev pub find_intent : ℕ → Db → Option Payment
find_intent key db = find_by (λ p. option_is p.idempotency_key key) db.payments

abbrev pub intent_row : ℕ → IntentInput → PaymentProfile → Payment
intent_row now input p = record {
  id = input.payment_id;
  order_id = input.order_id;
  idempotency_key = some input.idempotency_key;
  method = p.method;
  provider = p.provider;
  status = p.status;
  amount = input.amount;
  refunded_amount = 0;
  provider_reference = none;
  provider_receipt_id = none;
  failure_code = none;
  failure_message = none;
  requires_action_at = p.requires_action_at;
  succeeded_at = none;
  failed_at = none;
  cancelled_at = none;
  expired_at = none;
  attempts =
      record {
        status = p.status;
        provider_reference = none;
        failure_code = none;
        failure_message = none;
        attempted_at = now;
      }
      ∷ [];
}

-- The key of a payment is unique in the table.
unfoldable pub create_checkout_payment_intent : ℕ → IntentInput → Action Payment
create_checkout_payment_intent now input db =
    elim (resolve_payment_profile now input.payment_method input.payment_provider) [
      | Result.err e ↦ (Result.err e, db)
      | Result.ok p ↦
          if is_none (find_intent input.idempotency_key db)
          then (
            Result.ok (intent_row now input p),
            record db { payments = db.payments ++ intent_row now input p ∷ [] },
          )
          else (Result.err Error.internal_server_error, db)
    ]
