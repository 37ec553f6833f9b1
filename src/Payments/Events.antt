-- ===== src/Payments/Events.antt =====
-- payments/services/payment-provider-event-processor.service.ts, with
-- provider-webhooks/policies/provider-event-processing-policy.helper.ts and
-- `updatePaymentProviderEventProcessingState` of payments/repositories/payments.repository.ts.
use wer_te_backend.Prelude.{
  ℕ, Bool, true, false, not, ◌&&◌, ◌||◌, Option, none, some, List, ◌==◌, option_is, if◌then◌else◌,
  or_else, or_option, filter, find_by, update_by, Text, codes,
}
use wer_te_backend.Domain.Enums.{
  UserRole, PaymentStatus, VerificationStatus, ProcessingStatus, provider_is,
}
use wer_te_backend.Domain.Entities.{User}
use wer_te_backend.Domain.Finance.{Payment, ProviderEvent}
use wer_te_backend.Domain.Store.{Db, Action, Error, Result, ◌>>=◌, pure, gets, require}
use wer_te_backend.Orders.Effects.{Services}
use wer_te_backend.Payments.Lifecycle.{
  LifecycleInput, LifecycleConfig, find_payment, confirm_config, fail_config, cancel_config,
  expire_config, handle_payment_transition,
}

-- The time, the services behind the side effects, the id of the system actor, the row that the
-- database's order `updatedAt desc` puts first, and the texts of the exceptions.
pub record EventRun : Type 0 where
  pub now : ℕ
  pub services : Services
  pub actor_id : ℕ
  pub latest : List Payment → Option Payment
  pub message_of : Error → Text

pub record EventInput : Type 0 where
  pub payment_provider_event_id : ℕ
  pub occurred_at : Option ℕ
  pub retry_terminal : Bool

abbrev pub is_processed : ProcessingStatus → Bool
is_processed ProcessingStatus.processed = true
is_processed _ = false

abbrev pub is_failed : ProcessingStatus → Bool
is_failed ProcessingStatus.failed = true
is_failed _ = false

abbrev pub is_ignored : ProcessingStatus → Bool
is_ignored ProcessingStatus.ignored = true
is_ignored _ = false

-- `isTerminalProviderEventProcessingStatus`
abbrev pub is_terminal : ProcessingStatus → Bool
is_terminal s = is_processed s || is_failed s || is_ignored s

unfoldable pub should_process_provider_event : ProcessingStatus → Bool → Bool
should_process_provider_event s retry_terminal =
    if not (is_terminal s) then true else retry_terminal && (is_failed s || is_ignored s)

-- `isProviderEventVerifiedForProcessing`
abbrev pub is_verified_for_processing : VerificationStatus → Bool
is_verified_for_processing VerificationStatus.verified = true
is_verified_for_processing VerificationStatus.skipped = true
is_verified_for_processing _ = false

-- `resolveLifecycleAction`, as the configuration of the action.
abbrev pub resolve_lifecycle_action : Option PaymentStatus → Option LifecycleConfig
resolve_lifecycle_action (some PaymentStatus.succeeded) = some confirm_config
resolve_lifecycle_action (some PaymentStatus.failed) = some fail_config
resolve_lifecycle_action (some PaymentStatus.cancelled) = some cancel_config
resolve_lifecycle_action (some PaymentStatus.expired) = some expire_config
resolve_lifecycle_action _ = none

abbrev pub find_event : ℕ → Db → Option ProviderEvent
find_event event_id db = find_by (λ e. e.id == event_id) db.payment_events

abbrev by_reference : EventRun → ProviderEvent → Option ℕ → Db → Option Payment
by_reference run event none db = none
by_reference run event (some reference) db = run.latest (
    filter (λ p. provider_is p.provider event.provider && option_is p.provider_reference reference)
      db.payments)

abbrev by_payment_id : Option ℕ → Db → Option Payment
by_payment_id none db = none
by_payment_id (some payment_id) db = find_payment payment_id db

unfoldable pub resolve_payment : EventRun → ProviderEvent → Db → Option Payment
resolve_payment run event db = elim (by_payment_id event.payment_id db) [
  | none ↦ by_reference run event event.provider_reference db
  | some p ↦ some p
]

-- What an update of the processing state is given.
pub record StateUpdate : Type 0 where
  pub processing_status : ProcessingStatus
  pub payment_id : Option ℕ
  pub order_id : Option ℕ
  pub provider_reference : Option ℕ
  pub failure_code : Option Text
  pub failure_message : Option Text

abbrev time_if : Bool → ℕ → Option ℕ
time_if b t = if b then some t else none

-- A null in the update leaves an id or the reference as it is.
abbrev pub with_state : ℕ → StateUpdate → ProviderEvent → ProviderEvent
with_state occurred_at s e = record e {
  payment_id = or_option s.payment_id e.payment_id;
  order_id = or_option s.order_id e.order_id;
  provider_reference = or_option s.provider_reference e.provider_reference;
  processing_status = s.processing_status;
  failure_code = s.failure_code;
  failure_message = s.failure_message;
  processed_at = time_if (is_processed s.processing_status) occurred_at;
  failed_at = time_if (is_failed s.processing_status) occurred_at;
  ignored_at = time_if (is_ignored s.processing_status) occurred_at;
}

unfoldable pub update_processing_state : ℕ → StateUpdate → ProviderEvent → Db → Db
update_processing_state occurred_at s event db = record db {
  payment_events = update_by (λ e. e.id == event.id) (with_state occurred_at s) db.payment_events;
}

-- The update returns the row as it is then; the event was read and its id does not change.
unfoldable pub mark : ℕ → StateUpdate → ProviderEvent → Action ProviderEvent
mark occurred_at s event db =
    elim (find_event event.id (update_processing_state occurred_at s event db)) [
      | none ↦ (Result.err Error.infrastructure, db)
      | some e ↦ (Result.ok e, update_processing_state occurred_at s event db)
    ]

abbrev processed_state : ProviderEvent → Payment → StateUpdate
processed_state event p = record {
  processing_status = ProcessingStatus.processed;
  payment_id = some p.id;
  order_id = some p.order_id;
  provider_reference = or_option p.provider_reference event.provider_reference;
  failure_code = none;
  failure_message = none;
}

abbrev ignored_state : Text → Text → StateUpdate
ignored_state code message = record {
  processing_status = ProcessingStatus.ignored;
  payment_id = none;
  order_id = none;
  provider_reference = none;
  failure_code = some code;
  failure_message = some message;
}

abbrev failed_state : ProviderEvent → Text → Text → Option Payment → StateUpdate
failed_state event code message none = record {
  processing_status = ProcessingStatus.failed;
  payment_id = none;
  order_id = none;
  provider_reference = event.provider_reference;
  failure_code = some code;
  failure_message = some message;
}
failed_state event code message (some p) = record {
  processing_status = ProcessingStatus.failed;
  payment_id = some p.id;
  order_id = some p.order_id;
  provider_reference = or_option p.provider_reference event.provider_reference;
  failure_code = some code;
  failure_message = some message;
}

-- `readFailureCode`: the codes of common/constants/error-codes.ts.
abbrev pub read_failure_code : Error → Text
read_failure_code Error.bad_request = codes "BAD_REQUEST"
read_failure_code Error.forbidden = codes "FORBIDDEN"
read_failure_code Error.not_found = codes "NOT_FOUND"
read_failure_code Error.conflict = codes "CONFLICT"
read_failure_code Error.unprocessable_entity = codes "UNPROCESSABLE_ENTITY"
read_failure_code Error.too_many_requests = codes "TOO_MANY_REQUESTS"
read_failure_code Error.internal_server_error = codes "INTERNAL_SERVER_ERROR"
read_failure_code Error.infrastructure = codes "payment_webhook_processing_failed"

abbrev occurred : EventRun → EventInput → ℕ
occurred run input = or_else input.occurred_at run.now

-- `PAYMENT_WEBHOOK_SYSTEM_ACTOR`
abbrev webhook_actor : EventRun → User
webhook_actor run = record {
  user_id = run.actor_id;
  role = UserRole.support;
  actor_context = record { customer_profile_id = none; merchant_id = none; rider_id = none };
}

-- `buildReasonCode`
abbrev build_reason_code : ProviderEvent → Text
build_reason_code e = elim e.normalized_status [
  | some PaymentStatus.succeeded ↦ codes "provider_payment_succeeded"
  | some PaymentStatus.failed ↦ or_else e.failure_code (codes "provider_payment_failed")
  | some PaymentStatus.cancelled ↦ codes "provider_payment_cancelled"
  | some PaymentStatus.expired ↦ codes "provider_payment_expired"
  | _ ↦ codes "provider_payment_event"
]

-- `buildLifecycleNote`
abbrev build_lifecycle_note : ProviderEvent → Option Text
build_lifecycle_note e = elim e.normalized_status [
  | some PaymentStatus.failed ↦
      some (or_else e.failure_message (codes "Provider reported payment failure."))
  | some PaymentStatus.cancelled ↦ some (codes "Provider reported payment cancellation.")
  | some PaymentStatus.expired ↦ some (codes "Provider reported payment expiration.")
  | _ ↦ none
]

abbrev reports_failure : Option PaymentStatus → Bool
reports_failure (some PaymentStatus.failed) = true
reports_failure _ = false

unfoldable pub lifecycle_input : ProviderEvent → ℕ → LifecycleInput
lifecycle_input e payment_id =
    let failed = reports_failure e.normalized_status in
    record {
      payment_id = payment_id;
      provider_reference = e.provider_reference;
      provider_receipt_id = none;
      reason_code = some (build_reason_code e);
      note = build_lifecycle_note e;
      failure_code =
          if failed then some (or_else e.failure_code (codes "provider_payment_failed")) else none;
      failure_message =
          if failed
          then some (or_else e.failure_message (codes "Provider reported payment failure."))
          else none;
    }

-- The call of the lifecycle service by the webhook actor, who needs no access to the finances.
unfoldable pub apply_lifecycle_action :
    EventRun → ProviderEvent → LifecycleConfig → Payment → Action Payment
apply_lifecycle_action run e cfg p =
    handle_payment_transition run.services run.now true (webhook_actor run) (lifecycle_input e p.id)
      cfg

abbrev pub mark_outcome :
    EventRun
    → EventInput
    → ProviderEvent
    → Payment
    → Result Payment × Db
    → Result ProviderEvent × Db
mark_outcome run input e p (Result.ok summary, db) =
    mark (occurred run input) (processed_state e summary) e db
mark_outcome run input e p (Result.err x, db) = (
  Result.err x,
  update_processing_state (occurred run input)
      (failed_state e (read_failure_code x) (run.message_of x) (some p)) e db,
)

-- The `try` block; after an error the event is marked and the error thrown on.
unfoldable pub apply_and_mark :
    EventRun → EventInput → ProviderEvent → LifecycleConfig → Payment → Action ProviderEvent
apply_and_mark run input e cfg p db =
    mark_outcome run input e p (apply_lifecycle_action run e cfg p db)

abbrev pub process_matched :
    EventRun → EventInput → ProviderEvent → LifecycleConfig → Option Payment → Action ProviderEvent
process_matched run input e cfg none =
    mark (occurred run input)
      (ignored_state (codes "payment_not_matched")
        (codes "Payment provider event could not be matched to an existing payment."))
      e
process_matched run input e cfg (some p) =
    if not (provider_is p.provider e.provider)
    then mark (occurred run input)
        (failed_state e (codes "payment_provider_mismatch")
          (codes "Payment provider event provider does not match the linked payment provider.")
          (some p))
        e
    else apply_and_mark run input e cfg p

abbrev pub process_verified :
    EventRun → EventInput → ProviderEvent → Option LifecycleConfig → Action ProviderEvent
process_verified run input e none db =
    mark (occurred run input)
      (ignored_state (codes "non_terminal_payment_status")
        (codes "Payment provider event does not contain a terminal payment status."))
      e db
process_verified run input e (some cfg) db =
    process_matched run input e cfg (resolve_payment run e db) db

unfoldable pub process_event : EventRun → EventInput → ProviderEvent → Action ProviderEvent
process_event run input e =
    if not (should_process_provider_event e.processing_status input.retry_terminal)
    then pure e
    else if not (is_verified_for_processing e.verification_status)
    then mark (occurred run input)
        (failed_state e (codes "provider_event_not_verified")
          (codes "Payment provider event must be verified before lifecycle processing.") none)
        e
    else process_verified run input e (resolve_lifecycle_action e.normalized_status)

unfoldable pub process_payment_provider_event : EventRun → EventInput → Action ProviderEvent
process_payment_provider_event run input = do
  found ← gets (find_event input.payment_provider_event_id)
  e ← require found Error.not_found
  process_event run input e
