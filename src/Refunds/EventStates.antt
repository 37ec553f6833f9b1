-- ===== src/Refunds/EventStates.antt =====
-- The processing states of the provider events of refunds:
-- refunds/services/refund-provider-event-processor.service.ts and
-- `updateRefundProviderEventProcessingState` of refunds/repositories/refunds.repository.ts.
use wer_te_backend.Prelude.{
  ℕ, Bool, Option, none, some, ◌==◌, if◌then◌else◌, or_option, find_by, update_by, Text, codes,
}
use wer_te_backend.Domain.Enums.{ProcessingStatus}
use wer_te_backend.Domain.Finance.{Refund, RefundEvent}
use wer_te_backend.Domain.Store.{Db, Action, Error, Result}
use wer_te_backend.Payments.Events.{is_processed, is_failed, is_ignored, read_failure_code}

abbrev pub find_refund_event : ℕ → Db → Option RefundEvent
find_refund_event event_id db = find_by (λ e. e.id == event_id) db.refund_events

-- What an update of the processing state is given.
pub record RefundStateUpdate : Type 0 where
  pub processing_status : ProcessingStatus
  pub refund_id : Option ℕ
  pub payment_id : Option ℕ
  pub order_id : Option ℕ
  pub provider_reference : Option ℕ
  pub failure_code : Option Text
  pub failure_message : Option Text

abbrev set_if : Bool → ℕ → Option ℕ
set_if b t = if b then some t else none

-- A null in the update leaves an id or the reference as it is.
abbrev pub with_refund_state : ℕ → RefundStateUpdate → RefundEvent → RefundEvent
with_refund_state occurred_at s e = record e {
  refund_id = or_option s.refund_id e.refund_id;
  payment_id = or_option s.payment_id e.payment_id;
  order_id = or_option s.order_id e.order_id;
  provider_reference = or_option s.provider_reference e.provider_reference;
  processing_status = s.processing_status;
  failure_code = s.failure_code;
  failure_message = s.failure_message;
  processed_at = set_if (is_processed s.processing_status) occurred_at;
  failed_at = set_if (is_failed s.processing_status) occurred_at;
  ignored_at = set_if (is_ignored s.processing_status) occurred_at;
}

unfoldable pub update_refund_event : ℕ → RefundStateUpdate → RefundEvent → Db → Db
update_refund_event occurred_at s event db = record db {
  refund_events =
      update_by (λ e. e.id == event.id) (with_refund_state occurred_at s) db.refund_events;
}

-- The update returns the row as it is then; the event was read and its id does not change.
unfoldable pub mark_refund_event : ℕ → RefundStateUpdate → RefundEvent → Action RefundEvent
mark_refund_event occurred_at s event db =
    elim (find_refund_event event.id (update_refund_event occurred_at s event db)) [
      | none ↦ (Result.err Error.infrastructure, db)
      | some e ↦ (Result.ok e, update_refund_event occurred_at s event db)
    ]

abbrev pub processed_refund_state : RefundEvent → Refund → RefundStateUpdate
processed_refund_state event r = record {
  processing_status = ProcessingStatus.processed;
  refund_id = some r.id;
  payment_id = some r.payment_id;
  order_id = some r.order_id;
  provider_reference = or_option r.provider_reference event.provider_reference;
  failure_code = none;
  failure_message = none;
}

abbrev pub ignored_refund_state : Text → Text → RefundStateUpdate
ignored_refund_state code message = record {
  processing_status = ProcessingStatus.ignored;
  refund_id = none;
  payment_id = none;
  order_id = none;
  provider_reference = none;
  failure_code = some code;
  failure_message = some message;
}

abbrev pub failed_refund_state : RefundEvent → Text → Text → Option Refund → RefundStateUpdate
failed_refund_state event code message none = record {
  processing_status = ProcessingStatus.failed;
  refund_id = none;
  payment_id = none;
  order_id = none;
  provider_reference = event.provider_reference;
  failure_code = some code;
  failure_message = some message;
}
failed_refund_state event code message (some r) = record {
  processing_status = ProcessingStatus.failed;
  refund_id = some r.id;
  payment_id = some r.payment_id;
  order_id = some r.order_id;
  provider_reference = or_option r.provider_reference event.provider_reference;
  failure_code = some code;
  failure_message = some message;
}

-- `readFailureCode`
abbrev pub read_refund_failure_code : Error → Text
read_refund_failure_code Error.infrastructure = codes "refund_webhook_processing_failed"
read_refund_failure_code Error.bad_request = read_failure_code Error.bad_request
read_refund_failure_code Error.forbidden = read_failure_code Error.forbidden
read_refund_failure_code Error.not_found = read_failure_code Error.not_found
read_refund_failure_code Error.conflict = read_failure_code Error.conflict
read_refund_failure_code Error.unprocessable_entity = read_failure_code Error.unprocessable_entity
read_refund_failure_code Error.too_many_requests = read_failure_code Error.too_many_requests
read_refund_failure_code Error.internal_server_error = read_failure_code Error.internal_server_error
