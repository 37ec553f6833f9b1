-- ===== src/Examples/Finance.antt =====
-- A card payment with a refund that is under way, and the theorems on payments and refunds applied to
-- it.
use wer_te_backend.Prelude.{
  ℕ, true, false, none, some, [], ◌∷◌, ◌≡◌, refl, arith, ◌⊎◌, codes, head?,
}
use wer_te_backend.Domain.Enums.{
  UserRole, PaymentMethod, PaymentProvider, PaymentStatus, RefundStatus, VerificationStatus,
  ProcessingStatus,
}
use wer_te_backend.Domain.Entities.{User}
use wer_te_backend.Domain.Finance.{Payment, Refund, RefundEvent}
use wer_te_backend.Domain.Store.{Db}
use wer_te_backend.Payments.Lifecycle.{LifecycleInput, fail_config, handle_payment_transition}
use wer_te_backend.Payments.Cash.{cash-handle_payment_transition}
use wer_te_backend.Refunds.Operations.{
  ParsedAmount, RequestedAmount, RequestInput, FinalizeInput, reserved_amount,
  compute_succeeded_refund_amount, request_current_admin_refund, commit_finalize, finalize_refund,
  succeed_config,
}
use wer_te_backend.Refunds.Balance.{
  IsCovered, request_current_admin_refund-IsCovered, finalize_refund-IsCovered,
}
use wer_te_backend.Refunds.Events.{RefundEventInput, RefundEventRun, process_refund_provider_event}
use wer_te_backend.Refunds.Webhooks.{
  HasSameMoney, IsAuthorisedRefund, process_refund_provider_event-IsAuthorisedRefund,
}
use wer_te_backend.Examples.Data.{shop, services, cash_payment}

abbrev admin : User
admin = record {
  user_id = 90;
  role = UserRole.admin;
  actor_context = record { customer_profile_id = none; merchant_id = none; rider_id = none };
}

abbrev card_payment : Payment
card_payment = record cash_payment {
  id = 701;
  method = PaymentMethod.card;
  provider = PaymentProvider.stripe;
  status = PaymentStatus.succeeded;
}

abbrev partial_refund : Refund
partial_refund = record {
  id = 801;
  payment_id = 701;
  order_id = 1;
  status = RefundStatus.pending;
  amount = 2000;
  idempotency_key = some 1;
  provider_reference = none;
  failure_code = none;
  failure_message = none;
  requested_at = 900;
  succeeded_at = none;
  failed_at = none;
  cancelled_at = none;
}

abbrev paid : Db
paid = record shop { payments = cash_payment ∷ card_payment ∷ []; refunds = partial_refund ∷ [] }

abbrev request : RequestInput
request = record {
  payment_id = 701;
  amount = ParsedAmount.accepted (RequestedAmount.number 3000);
  idempotency_key = some 2;
  provider_reference = none;
}

abbrev finish : FinalizeInput
finish = record {
  refund_id = 801;
  provider_reference = none;
  failure_code = none;
  failure_message = none;
}

abbrev failure : LifecycleInput
failure = record {
  payment_id = 700;
  provider_reference = none;
  provider_receipt_id = none;
  reason_code = none;
  note = none;
  failure_code = none;
  failure_message = none;
}

request_current_admin_refund-IsCovered_example :
    IsCovered 701 (request_current_admin_refund services 802 1000 admin request paid).1
unfolding reserved_amount
request_current_admin_refund-IsCovered_example =
    request_current_admin_refund-IsCovered services 802 1000 admin request 701 paid refl
      (omega arith)

finalize_refund-IsCovered_example :
    IsCovered 701 (finalize_refund services 1000 false admin finish succeed_config paid).1
unfolding reserved_amount
finalize_refund-IsCovered_example =
    finalize_refund-IsCovered services 1000 false admin finish succeed_config 701 paid (omega arith)
      (omega arith)

abbrev finished : Db
finished = commit_finalize finish RefundStatus.succeeded 1000 partial_refund paid

abbrev refunded_total : ℕ
refunded_total = compute_succeeded_refund_amount 701 finished.refunds

cash-handle_payment_transition_example :
    (handle_payment_transition services 1000 true admin failure fail_config paid).1.orders
    ≡ paid.orders
cash-handle_payment_transition_example =
    cash-handle_payment_transition services 1000 true admin failure fail_config cash_payment paid
      refl refl

abbrev refund_event : RefundEvent
refund_event = record {
  id = 760;
  provider = PaymentProvider.stripe;
  refund_id = some 801;
  payment_id = none;
  order_id = none;
  provider_reference = none;
  normalized_status = some RefundStatus.succeeded;
  verification_status = VerificationStatus.verified;
  processing_status = ProcessingStatus.received;
  failure_code = none;
  failure_message = none;
  processed_at = none;
  failed_at = none;
  ignored_at = none;
}

abbrev notified : Db
notified = record paid { refund_events = refund_event ∷ [] }

abbrev refund_run : RefundEventRun
refund_run = record {
  now = 1000;
  services = services;
  actor_id = 2;
  latest = head?;
  message_of = λ e. codes "failed";
}

abbrev notice : RefundEventInput
notice = record { refund_provider_event_id = 760; occurred_at = none; retry_terminal = false }

process_refund_provider_event-IsAuthorisedRefund_example :
    HasSameMoney notified (process_refund_provider_event refund_run notice notified).1
    ⊎ IsAuthorisedRefund refund_run notice refund_event notified
        (process_refund_provider_event refund_run notice notified).1
process_refund_provider_event-IsAuthorisedRefund_example =
    process_refund_provider_event-IsAuthorisedRefund refund_run notice refund_event notified refl
