-- ===== src/Domain/Finance.antt =====
-- Payments, refunds and the provider events about payments. A Decimal is a number of millionths,
-- which is exact for the amounts of the program; the services never store a negative one.
use wer_te_backend.Prelude.{ℕ, Option, List, Text}
use wer_te_backend.Domain.Enums.{
  PaymentMethod, PaymentProvider, PaymentStatus, RefundStatus, VerificationStatus, ProcessingStatus,
}

abbrev pub Decimal : Type 0
Decimal = ℕ

-- A row of `attempts`.
pub record PaymentAttempt : Type 0 where
  pub status : PaymentStatus
  pub provider_reference : Option ℕ
  pub failure_code : Option Text
  pub failure_message : Option Text
  pub attempted_at : ℕ

pub record Payment : Type 0 where
  pub id : ℕ
  pub order_id : ℕ
  pub idempotency_key : Option ℕ
  pub method : PaymentMethod
  pub provider : PaymentProvider
  pub status : PaymentStatus
  pub amount : Decimal
  pub refunded_amount : Decimal
  pub provider_reference : Option ℕ
  pub provider_receipt_id : Option ℕ
  pub failure_code : Option Text
  pub failure_message : Option Text
  pub requires_action_at : Option ℕ
  pub succeeded_at : Option ℕ
  pub failed_at : Option ℕ
  pub cancelled_at : Option ℕ
  pub expired_at : Option ℕ
  pub attempts : List PaymentAttempt

pub record Refund : Type 0 where
  pub id : ℕ
  pub payment_id : ℕ
  pub order_id : ℕ
  pub status : RefundStatus
  pub amount : Decimal
  pub idempotency_key : Option ℕ
  pub provider_reference : Option ℕ
  pub failure_code : Option Text
  pub failure_message : Option Text
  pub requested_at : ℕ
  pub succeeded_at : Option ℕ
  pub failed_at : Option ℕ
  pub cancelled_at : Option ℕ

pub record ProviderEvent : Type 0 where
  pub id : ℕ
  pub provider : PaymentProvider
  pub payment_id : Option ℕ
  pub order_id : Option ℕ
  pub provider_reference : Option ℕ
  pub normalized_status : Option PaymentStatus
  pub verification_status : VerificationStatus
  pub processing_status : ProcessingStatus
  pub failure_code : Option Text
  pub failure_message : Option Text
  pub processed_at : Option ℕ
  pub failed_at : Option ℕ
  pub ignored_at : Option ℕ

-- `RefundProviderEvent`
pub record RefundEvent : Type 0 where
  pub id : ℕ
  pub provider : PaymentProvider
  pub refund_id : Option ℕ
  pub payment_id : Option ℕ
  pub order_id : Option ℕ
  pub provider_reference : Option ℕ
  pub normalized_status : Option RefundStatus
  pub verification_status : VerificationStatus
  pub processing_status : ProcessingStatus
  pub failure_code : Option Text
  pub failure_message : Option Text
  pub processed_at : Option ℕ
  pub failed_at : Option ℕ
  pub ignored_at : Option ℕ
