-- ===== src/Refunds/Operations.antt =====
-- refunds/services/refund-operations.service.ts, with the writes of refunds.repository.ts and
-- payments.repository.ts that it makes.
use wer_te_backend.Prelude.{
  ℕ, ◌-◌, Bool, true, false, ◌&&◌, Option, none, some, List, ◌∷◌, ◌==◌, leb, if◌then◌else◌, not,
  ltb, sum_of, find_by, update_by, Text, or_option, option_is,
}
use wer_te_backend.Domain.Enums.{PaymentStatus, RefundStatus, refund_is}
use wer_te_backend.Domain.Entities.{User}
use wer_te_backend.Domain.Finance.{Payment, Refund}
use wer_te_backend.Domain.Store.{
  Db, Action, Error, MessageCode, ◌>>=◌, ◌>>◌, pure, throw, gets, modify, require, throw_unless,
  transaction,
}
use wer_te_backend.Access.{has_admin_finance_access}
use wer_te_backend.Orders.Effects.{Services, publish_order_event}

-- An amount that passes the test of the sign: a number above zero, Infinity, or NaN, of which no
-- comparison holds. NaN comes with what the database makes of it in the column of a refund's amount,
-- none if it refuses it.
pub data RequestedAmount : Type 0 where
  number : ℕ → RequestedAmount
  infinity : RequestedAmount
  not_a_number : Option ℕ → RequestedAmount

-- What `new Prisma.Decimal(value)` makes of the text of an amount, and `lessThanOrEqualTo(0)` of that.
pub data ParsedAmount : Type 0 where
  invalid not_positive : ParsedAmount
  accepted : RequestedAmount → ParsedAmount

-- `RequestRefundInput`, without what is only stored.
pub record RequestInput : Type 0 where
  pub payment_id : ℕ
  pub amount : ParsedAmount
  pub idempotency_key : Option ℕ
  pub provider_reference : Option ℕ

-- `FinalizeRefundInput`
pub record FinalizeInput : Type 0 where
  pub refund_id : ℕ
  pub provider_reference : Option ℕ
  pub failure_code : Option Text
  pub failure_message : Option Text

abbrev pub is_refundable : PaymentStatus → Bool
is_refundable PaymentStatus.succeeded = true
is_refundable PaymentStatus.partially_refunded = true
is_refundable _ = false

abbrev pub is_finalizable : RefundStatus → Bool
is_finalizable RefundStatus.pending = true
is_finalizable RefundStatus.processing = true
is_finalizable _ = false

abbrev pub is_reserved : RefundStatus → Bool
is_reserved RefundStatus.pending = true
is_reserved RefundStatus.processing = true
is_reserved RefundStatus.succeeded = true
is_reserved _ = false

abbrev pub find_payment : ℕ → Db → Option Payment
find_payment payment_id db = find_by (λ p. p.id == payment_id) db.payments

abbrev pub find_refund : ℕ → Db → Option Refund
find_refund refund_id db = find_by (λ r. r.id == refund_id) db.refunds

-- The amount of a refund of the payment, if its status counts.
abbrev pub counted : (RefundStatus → Bool) → ℕ → Refund → ℕ
counted counts payment_id r = if r.payment_id == payment_id && counts r.status then r.amount else 0

unfoldable pub reserved_amount : ℕ → List Refund → ℕ
reserved_amount payment_id refunds = sum_of (counted is_reserved payment_id) refunds

unfoldable pub compute_succeeded_refund_amount : ℕ → List Refund → ℕ
compute_succeeded_refund_amount payment_id refunds =
    sum_of (counted (λ s. refund_is s RefundStatus.succeeded) payment_id) refunds

-- A balance below zero counts as zero.
unfoldable pub compute_available_refundable_amount : Payment → Db → ℕ
compute_available_refundable_amount payment db =
    payment.amount - reserved_amount payment.id db.refunds

unfoldable pub parse_positive_amount : ParsedAmount → Action RequestedAmount
parse_positive_amount ParsedAmount.invalid = throw Error.bad_request
parse_positive_amount ParsedAmount.not_positive = throw Error.unprocessable_entity
parse_positive_amount (ParsedAmount.accepted a) = pure a

-- `requestedAmount.greaterThan(availableAmount)`
abbrev pub greater_than : RequestedAmount → ℕ → Bool
greater_than (RequestedAmount.number n) available = ltb available n
greater_than (RequestedAmount.infinity) available = true
greater_than (RequestedAmount.not_a_number stored) available = false

-- What the column of the amount keeps.
abbrev pub column_value : RequestedAmount → Option ℕ
column_value (RequestedAmount.number n) = some n
column_value (RequestedAmount.infinity) = none
column_value (RequestedAmount.not_a_number stored) = stored

-- The database refuses NaN, if that is the amount.
abbrev pub refuses_nan : ParsedAmount → Bool
refuses_nan (ParsedAmount.accepted (RequestedAmount.not_a_number (some n))) = false
refuses_nan _ = true

abbrev pub new_refund : ℕ → ℕ → RequestInput → Payment → ℕ → Refund
new_refund refund_id now input payment amount = record {
  id = refund_id;
  payment_id = payment.id;
  order_id = payment.order_id;
  status = RefundStatus.pending;
  amount = amount;
  idempotency_key = input.idempotency_key;
  provider_reference = input.provider_reference;
  failure_code = none;
  failure_message = none;
  requested_at = now;
  succeeded_at = none;
  failed_at = none;
  cancelled_at = none;
}

-- `createRefundRequest`; the table is in no particular order.
unfoldable pub create_refund_request : Refund → Db → Db
create_refund_request refund db = record db { refunds = refund ∷ db.refunds }

abbrev pub find_by_idempotency_key : Option ℕ → Db → Option Refund
find_by_idempotency_key none db = none
find_by_idempotency_key (some key) db = find_by (λ r. option_is r.idempotency_key key) db.refunds

-- The request once no refund has its idempotency key.
unfoldable pub request_new_refund : Services → ℕ → ℕ → RequestInput → Action Refund
request_new_refund sv refund_id now input = do
  found ← gets (find_payment input.payment_id)
  payment ← require found Error.not_found
  throw_unless (is_refundable payment.status) Error.conflict
  amount ← parse_positive_amount input.amount
  available ← gets (compute_available_refundable_amount payment)
  throw_unless (not (greater_than amount available)) Error.unprocessable_entity
  stored ← require (column_value amount) Error.infrastructure
  transaction (modify (create_refund_request (new_refund refund_id now input payment stored)))
  publish_order_event sv payment.order_id MessageCode.refund_requested
  pure (new_refund refund_id now input payment stored)

abbrev pub replay : RequestInput → Action Refund → Option Refund → Action Refund
replay input request none = request
replay input request (some existing) =
    if existing.payment_id == input.payment_id then pure existing else throw Error.conflict

unfoldable pub request_current_admin_refund : Services → ℕ → ℕ → User → RequestInput → Action Refund
request_current_admin_refund sv refund_id now u input = do
  throw_unless (has_admin_finance_access u) Error.forbidden
  existing ← gets (find_by_idempotency_key input.idempotency_key)
  replay input (request_new_refund sv refund_id now input) existing

-- The configuration of the three ways to finish a refund.
pub record FinalizeConfig : Type 0 where
  pub target_status : RefundStatus
  pub system_message_code : Option MessageCode

abbrev pub succeed_config : FinalizeConfig
succeed_config = record {
  target_status = RefundStatus.succeeded;
  system_message_code = some MessageCode.refund_succeeded;
}

abbrev pub fail_config : FinalizeConfig
fail_config = record {
  target_status = RefundStatus.failed;
  system_message_code = some MessageCode.refund_failed;
}

abbrev pub cancel_config : FinalizeConfig
cancel_config = record { target_status = RefundStatus.cancelled; system_message_code = none }

abbrev at_status : RefundStatus → RefundStatus → ℕ → Option ℕ
at_status target s now = if refund_is target s then some now else none

abbrev pub finalized : FinalizeInput → RefundStatus → ℕ → Refund → Refund
finalized input target now r = record r {
  status = target;
  provider_reference = or_option input.provider_reference r.provider_reference;
  failure_code = input.failure_code;
  failure_message = input.failure_message;
  succeeded_at = at_status target RefundStatus.succeeded now;
  failed_at = at_status target RefundStatus.failed now;
  cancelled_at = at_status target RefundStatus.cancelled now;
}

-- `transitionRefundStatus`
unfoldable pub transition_refund_status : FinalizeInput → RefundStatus → ℕ → Refund → Db → Db
transition_refund_status input target now current db = record db {
  refunds = update_by (λ r. r.id == current.id) (finalized input target now) db.refunds;
}

abbrev pub with_refunded : ℕ → Payment → Payment
with_refunded total p = record p {
  refunded_amount = total;
  status = if leb p.amount total then PaymentStatus.refunded else PaymentStatus.partially_refunded;
}

-- `updateRefundState` on the payment of the refund, with what its refunds now come to.
unfoldable pub update_refund_state : ℕ → Db → Db
update_refund_state payment_id db = record db {
  payments =
      update_by (λ p. p.id == payment_id)
        (with_refunded (compute_succeeded_refund_amount payment_id db.refunds)) db.payments;
}

unfoldable pub commit_finalize : FinalizeInput → RefundStatus → ℕ → Refund → Db → Db
commit_finalize input target now current db =
    let moved = transition_refund_status input target now current db in
    if refund_is target RefundStatus.succeeded
    then update_refund_state current.payment_id moved
    else moved

abbrev publish_refund_event : Services → ℕ → Option MessageCode → Action (Unit {0})
publish_refund_event sv order_id none = pure tt
publish_refund_event sv order_id (some code) = publish_order_event sv order_id code

unfoldable pub finalize_found_refund :
    Services → ℕ → FinalizeInput → FinalizeConfig → Refund → Action Refund
finalize_found_refund sv now input cfg current =
    if refund_is current.status cfg.target_status then pure current else do
      throw_unless (is_finalizable current.status) Error.conflict
      transaction (modify (commit_finalize input cfg.target_status now current))
      publish_refund_event sv current.order_id cfg.system_message_code
      pure (finalized input cfg.target_status now current)

-- `finalizeRefund`, after the test of the admin, which provider events skip.
unfoldable pub finalize_refund :
    Services → ℕ → Bool → User → FinalizeInput → FinalizeConfig → Action Refund
finalize_refund sv now skip u input cfg = do
  throw_unless (if skip then true else has_admin_finance_access u) Error.forbidden
  found ← gets (find_refund input.refund_id)
  current ← require found Error.not_found
  finalize_found_refund sv now input cfg current

unfoldable pub succeed_current_admin_refund :
    Services → ℕ → Bool → User → FinalizeInput → Action Refund
succeed_current_admin_refund sv now skip u input =
    finalize_refund sv now skip u input succeed_config

unfoldable pub fail_current_admin_refund :
    Services → ℕ → Bool → User → FinalizeInput → Action Refund
fail_current_admin_refund sv now skip u input = finalize_refund sv now skip u input fail_config

unfoldable pub cancel_current_admin_refund :
    Services → ℕ → Bool → User → FinalizeInput → Action Refund
cancel_current_admin_refund sv now skip u input = finalize_refund sv now skip u input cancel_config
