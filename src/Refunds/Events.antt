-- ===== src/Refunds/Events.antt =====
-- refunds/services/refund-provider-event-processor.service.ts.
use wer_te_backend.Prelude.{
  ℕ, Bool, true, false, not, ◌&&◌, Option, none, some, List, option_is, if◌then◌else◌, or_else,
  filter, Text, codes,
}
use wer_te_backend.Domain.Enums.{UserRole, RefundStatus, PaymentProvider, provider_is}
use wer_te_backend.Domain.Entities.{User}
use wer_te_backend.Domain.Finance.{Refund, RefundEvent}
use wer_te_backend.Domain.Store.{Db, Action, Error, Result, ◌>>=◌, gets, require}
use wer_te_backend.Orders.Effects.{Services}
use wer_te_backend.Payments.Events.{should_process_provider_event, is_verified_for_processing}
use wer_te_backend.Refunds.Operations.{
  FinalizeInput, FinalizeConfig, find_payment, find_refund, succeed_config, fail_config,
  cancel_config, finalize_refund,
}
use wer_te_backend.Refunds.EventStates.{
  find_refund_event, mark_refund_event, update_refund_event, processed_refund_state,
  ignored_refund_state, failed_refund_state, read_refund_failure_code,
}

-- The time, the services behind the side effects, the id of the system actor, the row that the
-- database's order `updatedAt desc` puts first, and the texts of the exceptions.
pub record RefundEventRun : Type 0 where
  pub now : ℕ
  pub services : Services
  pub actor_id : ℕ
  pub latest : List Refund → Option Refund
  pub message_of : Error → Text

pub record RefundEventInput : Type 0 where
  pub refund_provider_event_id : ℕ
  pub occurred_at : Option ℕ
  pub retry_terminal : Bool

-- `resolveLifecycleAction`, as the configuration of the action.
abbrev pub resolve_refund_action : Option RefundStatus → Option FinalizeConfig
resolve_refund_action (some RefundStatus.succeeded) = some succeed_config
resolve_refund_action (some RefundStatus.failed) = some fail_config
resolve_refund_action (some RefundStatus.cancelled) = some cancel_config
resolve_refund_action _ = none

-- `refund.payment.provider === provider`; a refund always has its payment.
abbrev pub is_of_provider : PaymentProvider → Db → Refund → Bool
is_of_provider provider db r = elim (find_payment r.payment_id db) [
  | none ↦ false
  | some p ↦ provider_is p.provider provider
]

abbrev refund_by_reference : RefundEventRun → RefundEvent → Option ℕ → Db → Option Refund
refund_by_reference run event none db = none
refund_by_reference run event (some reference) db = run.latest (
    filter (λ r. option_is r.provider_reference reference && is_of_provider event.provider db r)
      db.refunds)

abbrev refund_by_id : Option ℕ → Db → Option Refund
refund_by_id none db = none
refund_by_id (some refund_id) db = find_refund refund_id db

unfoldable pub resolve_refund : RefundEventRun → RefundEvent → Db → Option Refund
resolve_refund run event db = elim (refund_by_id event.refund_id db) [
  | none ↦ refund_by_reference run event event.provider_reference db
  | some r ↦ some r
]

abbrev pub refund_occurred : RefundEventRun → RefundEventInput → ℕ
refund_occurred run input = or_else input.occurred_at run.now

-- `REFUND_WEBHOOK_SYSTEM_ACTOR`
abbrev pub refund_webhook_actor : RefundEventRun → User
refund_webhook_actor run = record {
  user_id = run.actor_id;
  role = UserRole.support;
  actor_context = record { customer_profile_id = none; merchant_id = none; rider_id = none };
}

abbrev reports_failed_refund : Option RefundStatus → Bool
reports_failed_refund (some RefundStatus.failed) = true
reports_failed_refund _ = false

unfoldable pub finalize_input : RefundEvent → ℕ → FinalizeInput
finalize_input e refund_id =
    let failed = reports_failed_refund e.normalized_status in
    record {
      refund_id = refund_id;
      provider_reference = e.provider_reference;
      failure_code =
          if failed then some (or_else e.failure_code (codes "provider_refund_failed")) else none;
      failure_message =
          if failed
          then some (or_else e.failure_message (codes "Provider reported refund failure."))
          else none;
    }

-- The call of the refund operations by the webhook actor, who needs no access to the finances.
unfoldable pub apply_refund_action :
    RefundEventRun → RefundEvent → FinalizeConfig → Refund → Action Refund
apply_refund_action run e cfg r =
    finalize_refund run.services run.now true (refund_webhook_actor run) (finalize_input e r.id) cfg

abbrev pub mark_refund_outcome :
    RefundEventRun
    → RefundEventInput
    → RefundEvent
    → Refund
    → Result Refund × Db
    → Result RefundEvent × Db
mark_refund_outcome run input e r (Result.ok summary, db) =
    mark_refund_event (refund_occurred run input) (processed_refund_state e summary) e db
mark_refund_outcome run input e r (Result.err x, db) = (
  Result.err x,
  update_refund_event (refund_occurred run input)
      (failed_refund_state e (read_refund_failure_code x) (run.message_of x) (some r)) e db,
)

-- The `try` block; after an error the event is marked and the error thrown on.
unfoldable pub apply_and_mark_refund :
    RefundEventRun → RefundEventInput → RefundEvent → FinalizeConfig → Refund → Action RefundEvent
apply_and_mark_refund run input e cfg r db =
    mark_refund_outcome run input e r (apply_refund_action run e cfg r db)

abbrev pub process_matched_refund :
    RefundEventRun
    → RefundEventInput
    → RefundEvent
    → FinalizeConfig
    → Option Refund
    → Action RefundEvent
process_matched_refund run input e cfg none db =
    mark_refund_event (refund_occurred run input)
      (ignored_refund_state (codes "refund_not_matched")
        (codes "Refund provider event could not be matched to an existing refund."))
      e db
process_matched_refund run input e cfg (some r) db =
    if not (is_of_provider e.provider db r)
    then mark_refund_event (refund_occurred run input)
        (failed_refund_state e (codes "refund_provider_mismatch")
          (codes "Refund provider event provider does not match the linked payment provider.")
          (some r))
        e db
    else apply_and_mark_refund run input e cfg r db

abbrev pub process_verified_refund :
    RefundEventRun → RefundEventInput → RefundEvent → Option FinalizeConfig → Action RefundEvent
process_verified_refund run input e none db =
    mark_refund_event (refund_occurred run input)
      (ignored_refund_state (codes "non_terminal_refund_status")
        (codes "Refund provider event does not contain a terminal refund status."))
      e db
process_verified_refund run input e (some cfg) db =
    process_matched_refund run input e cfg (resolve_refund run e db) db

unfoldable pub process_refund_event :
    RefundEventRun → RefundEventInput → RefundEvent → Action RefundEvent
process_refund_event run input e db =
    if not (should_process_provider_event e.processing_status input.retry_terminal)
    then (Result.ok e, db)
    else if not (is_verified_for_processing e.verification_status)
    then mark_refund_event (refund_occurred run input)
        (failed_refund_state e (codes "provider_event_not_verified")
          (codes "Refund provider event must be verified before lifecycle processing.") none)
        e db
    else process_verified_refund run input e (resolve_refund_action e.normalized_status) db

unfoldable pub process_refund_provider_event :
    RefundEventRun → RefundEventInput → Action RefundEvent
process_refund_provider_event run input = do
  found ← gets (find_refund_event input.refund_provider_event_id)
  e ← require found Error.not_found
  process_refund_event run input e
