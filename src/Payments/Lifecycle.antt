-- ===== src/Payments/Lifecycle.antt =====
-- payments/services/payment-lifecycle.service.ts, with `transitionPaymentStatus` of
-- payments/repositories/payments.repository.ts.
use wer_te_backend.Prelude.{
  ℕ, Bool, true, false, not, Option, none, some, [], ◌∷◌, ◌++◌, ◌==◌, if◌then◌else◌, find_by,
  update_by, Text, codes, or_else, or_option,
}
use wer_te_backend.Domain.Enums.{OrderStatus, PaymentStatus, order_is, payment_is}
use wer_te_backend.Domain.Entities.{User, Order}
use wer_te_backend.Domain.Finance.{Payment}
use wer_te_backend.Domain.Store.{
  Db, Action, Error, MessageCode, ◌>>=◌, ◌>>◌, pure, gets, modify, require, throw_unless,
  transaction,
}
use wer_te_backend.Access.{has_admin_finance_access}
use wer_te_backend.Orders.View.{find_order, update_order_status, StatusUpdate}
use wer_te_backend.Orders.Effects.{
  Services, is_cash, publish_order_event, publish_restored_inventory_alerts, release_inventory,
}

-- `PaymentLifecycleInput`, without what is only stored.
pub record LifecycleInput : Type 0 where
  pub payment_id : ℕ
  pub provider_reference : Option ℕ
  pub provider_receipt_id : Option ℕ
  pub reason_code : Option Text
  pub note : Option Text
  pub failure_code : Option Text
  pub failure_message : Option Text

-- `PaymentLifecycleConfig`
pub record LifecycleConfig : Type 0 where
  pub target_status : PaymentStatus
  pub system_message_code : MessageCode
  pub allowed_from : PaymentStatus → Bool
  pub default_reason_code : Text

abbrev pub is_in_progress : PaymentStatus → Bool
is_in_progress PaymentStatus.pending = true
is_in_progress PaymentStatus.requires_action = true
is_in_progress PaymentStatus.processing = true
is_in_progress _ = false

abbrev pub confirm_config : LifecycleConfig
confirm_config = record {
  target_status = PaymentStatus.succeeded;
  system_message_code = MessageCode.payment_succeeded;
  allowed_from = is_in_progress;
  default_reason_code = codes "payment_succeeded";
}

abbrev pub fail_config : LifecycleConfig
fail_config = record {
  target_status = PaymentStatus.failed;
  system_message_code = MessageCode.payment_failed;
  allowed_from = is_in_progress;
  default_reason_code = codes "payment_failed";
}

abbrev pub cancel_config : LifecycleConfig
cancel_config = record {
  target_status = PaymentStatus.cancelled;
  system_message_code = MessageCode.payment_cancelled;
  allowed_from = is_in_progress;
  default_reason_code = codes "payment_cancelled";
}

abbrev pub expire_config : LifecycleConfig
expire_config = record {
  target_status = PaymentStatus.expired;
  system_message_code = MessageCode.payment_cancelled;
  allowed_from = is_in_progress;
  default_reason_code = codes "payment_expired";
}

abbrev pub find_payment : ℕ → Db → Option Payment
find_payment payment_id db = find_by (λ p. p.id == payment_id) db.payments

abbrev at_status : PaymentStatus → PaymentStatus → ℕ → Option ℕ
at_status target s now = if payment_is target s then some now else none

-- The row that `transitionPaymentStatus` writes, given the row that was read.
abbrev pub transitioned : LifecycleInput → PaymentStatus → ℕ → Payment → Payment → Payment
transitioned input target now current p = record p {
  provider = current.provider;
  status = target;
  provider_reference = or_option input.provider_reference current.provider_reference;
  provider_receipt_id = or_option input.provider_receipt_id current.provider_receipt_id;
  failure_code = input.failure_code;
  failure_message = input.failure_message;
  requires_action_at = none;
  succeeded_at = at_status target PaymentStatus.succeeded now;
  failed_at = at_status target PaymentStatus.failed now;
  cancelled_at = at_status target PaymentStatus.cancelled now;
  expired_at = at_status target PaymentStatus.expired now;
  attempts =
      p.attempts
      ++ record {
        status = target;
        provider_reference = or_option input.provider_reference current.provider_reference;
        failure_code = input.failure_code;
        failure_message = input.failure_message;
        attempted_at = now;
      }
        ∷ [];
}

unfoldable pub transition_payment_status : LifecycleInput → PaymentStatus → ℕ → Payment → Db → Db
transition_payment_status input target now current db = record db {
  payments =
      update_by (λ p. p.id == current.id) (transitioned input target now current) db.payments;
}

abbrev pub ends_unpaid : PaymentStatus → Bool
ends_unpaid PaymentStatus.failed = true
ends_unpaid PaymentStatus.cancelled = true
ends_unpaid PaymentStatus.expired = true
ends_unpaid _ = false

unfoldable pub should_auto_cancel_order : Payment → OrderStatus → PaymentStatus → Bool
should_auto_cancel_order payment order_status target =
    if not (ends_unpaid target)
    then false
    else if not (order_is order_status OrderStatus.placed)
    then false
    else not (is_cash payment.method)

abbrev pub payment_update : User → LifecycleInput → LifecycleConfig → Order → StatusUpdate
payment_update u input cfg order = record {
  status = OrderStatus.cancelled;
  from_status = order.status;
  changed_by_user_id = u.user_id;
  reason_code = some (or_else input.reason_code cfg.default_reason_code);
  note = input.note;
}

-- The order of a payment that ended unpaid; the foreign key says that it is there.
unfoldable pub cancel_unpaid_order : User → LifecycleInput → LifecycleConfig → Payment → Db → Db
cancel_unpaid_order u input cfg payment db = elim (find_order payment.order_id db) [
  | none ↦ db
  | some order ↦
      if should_auto_cancel_order payment order.status cfg.target_status
      then release_inventory order OrderStatus.cancelled
          (update_order_status payment.order_id (payment_update u input cfg order) db)
      else db
]

unfoldable pub commit_payment : ℕ → User → LifecycleInput → LifecycleConfig → Payment → Db → Db
commit_payment now u input cfg payment db =
    cancel_unpaid_order u input cfg payment
      (transition_payment_status input cfg.target_status now payment db)

-- `orderStatusChanged`, from the order before the commit.
abbrev order_status_changed : LifecycleConfig → Payment → Db → Bool
order_status_changed cfg payment db = elim (find_order payment.order_id db) [
  | none ↦ false
  | some order ↦ should_auto_cancel_order payment order.status cfg.target_status
]

-- `publishSystemMessages`
unfoldable pub publish_system_messages :
    Services → LifecycleConfig → Payment → Bool → Action (Unit {0})
publish_system_messages sv cfg payment changed = do
  publish_order_event sv payment.order_id cfg.system_message_code
  (if changed then publish_order_event sv payment.order_id MessageCode.order_cancelled else pure tt)

unfoldable pub transition_payment :
    Services → ℕ → User → LifecycleInput → LifecycleConfig → Payment → Action Payment
transition_payment sv now u input cfg payment =
    if payment_is payment.status cfg.target_status then pure payment else do
      throw_unless (cfg.allowed_from payment.status) Error.conflict
      changed ← gets (order_status_changed cfg payment)
      transaction (modify (commit_payment now u input cfg payment))
      publish_system_messages sv cfg payment changed
      publish_restored_inventory_alerts sv
      pure (transitioned input cfg.target_status now payment payment)

-- `handleTransition`; provider events skip the test of the admin.
unfoldable pub handle_payment_transition :
    Services → ℕ → Bool → User → LifecycleInput → LifecycleConfig → Action Payment
handle_payment_transition sv now skip u input cfg = do
  throw_unless (if skip then true else has_admin_finance_access u) Error.forbidden
  found ← gets (find_payment input.payment_id)
  payment ← require found Error.not_found
  transition_payment sv now u input cfg payment
