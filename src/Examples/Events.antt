-- ===== src/Examples/Events.antt =====
-- The theorems on provider events, quiet hours and the fallback limiter, applied.
use wer_te_backend.Prelude.{
  ℕ, ◌+◌, ◌≤◌, ◌-◌, ◌%◌, none, some, [], ◌∷◌, ◌≡◌, refl, ◌⊎◌, arith, codes, false, true, head?,
  length, ltb,
}
use wer_te_backend.Domain.Enums.{
  PaymentProvider, PaymentStatus, VerificationStatus, ProcessingStatus, PaymentMethod,
}
use wer_te_backend.Domain.Finance.{Payment, ProviderEvent}
use wer_te_backend.Domain.Store.{Db, Result}
use wer_te_backend.Payments.Events.{
  EventRun, EventInput, should_process_provider_event, resolve_payment, update_processing_state,
  mark, process_event, process_payment_provider_event,
}
use wer_te_backend.Payments.Webhooks.{IsAuthorised, process_payment_provider_event-payments}
use wer_te_backend.Payments.Replays.{process_payment_provider_event-again}
use wer_te_backend.Notifications.QuietHours.{QuietHours, is_muted_at, next_boundary_delay_seconds}
use wer_te_backend.Notifications.Boundaries.{
  is_muted_at-window, IsNextBoundary, next_boundary_delay_seconds-IsNextBoundary,
}
use wer_te_backend.Common.Throttle.{fallback_max_entries, Fallback, Hit, find_record}
use wer_te_backend.Common.Windows.{check_all, check_all-length}
use wer_te_backend.Common.Limits.{passes, passes-limit}
use wer_te_backend.Examples.Data.{shop, services, cash_payment}

abbrev card_payment : Payment
card_payment = record cash_payment {
  method = PaymentMethod.card;
  provider = PaymentProvider.stripe;
  status = PaymentStatus.processing;
}

abbrev event : ProviderEvent
event = record {
  id = 750;
  provider = PaymentProvider.stripe;
  payment_id = some 700;
  order_id = none;
  provider_reference = none;
  normalized_status = some PaymentStatus.succeeded;
  verification_status = VerificationStatus.verified;
  processing_status = ProcessingStatus.received;
  failure_code = none;
  failure_message = none;
  processed_at = none;
  failed_at = none;
  ignored_at = none;
}

abbrev till : ProviderEvent → Db
till e = record shop { payments = card_payment ∷ []; payment_events = e ∷ [] }

abbrev event_run : EventRun
event_run = record {
  now = 2000;
  services = record services { messages_up = true };
  actor_id = 2;
  latest = head?;
  message_of = λ e. codes "failed";
}

abbrev delivery : EventInput
delivery = record { payment_provider_event_id = 750; occurred_at = none; retry_terminal = true }

process_payment_provider_event-payments_example :
    ((process_payment_provider_event event_run delivery (till event)).1.payments
      ≡ (till event).payments)
    ⊎ IsAuthorised event_run delivery event
        (till event)
        (process_payment_provider_event event_run delivery (till event)).1
process_payment_provider_event-payments_example =
    process_payment_provider_event-payments event_run delivery event (till event) refl

abbrev again : EventInput
again = record delivery { retry_terminal = false }

-- The event is of another provider, so that it is marked as failed.
abbrev foreign : ProviderEvent
foreign = record event { provider = PaymentProvider.kbz_pay }

abbrev marked : ProviderEvent
marked = record foreign {
  order_id = some 1;
  processing_status = ProcessingStatus.failed;
  failure_code = some (codes "payment_provider_mismatch");
  failure_message =
      some (codes "Payment provider event provider does not match the linked payment provider.");
  failed_at = some 2000;
}

first_delivery :
    process_payment_provider_event event_run delivery (till foreign)
    ≡ (Result.ok marked, till marked)
unfolding process_payment_provider_event process_event should_process_provider_event resolve_payment
    mark update_processing_state
first_delivery = refl

process_payment_provider_event-again_example :
    process_payment_provider_event event_run again (till marked) ≡ (Result.ok marked, till marked)
process_payment_provider_event-again_example =
    process_payment_provider_event-again event_run event_run delivery again marked (till foreign)
      (till marked) first_delivery refl refl

-- From ten in the evening until six.
abbrev night : QuietHours
night = record {
  start = record { hour = 22; minute = 0 };
  end_time = record { hour = 6; minute = 0 };
  zone = 1;
}

is_muted_at-window_example :
    is_muted_at 1320 360 30 ≡ ltb (((30 + 1440) - 1320) % 1440) (((360 + 1440) - 1320) % 1440)
is_muted_at-window_example =
    is_muted_at-window 1320 360 30 (omega arith) (omega arith) (omega arith) (λ e. omega (arith, e))

next_boundary_delay_seconds-IsNextBoundary_example :
    IsNextBoundary night 80000 (next_boundary_delay_seconds night 80000)
next_boundary_delay_seconds-IsNextBoundary_example =
    next_boundary_delay_seconds-IsNextBoundary night 80000 (omega arith, omega arith)
      (omega arith, omega arith) (omega arith)

abbrev client : ℕ → Hit
client t = record { now = t; key = 5; limit = 2; ttl = 1000 }

abbrev window : Fallback
window = record { records = record { key = 5; count = 1; reset_at = 1000 } ∷ []; last_sweep_at = 0 }

check_all-length_example :
    length (check_all (client 10 ∷ client 20 ∷ []) window).records ≤ fallback_max_entries
check_all-length_example = check_all-length (client 10 ∷ client 20 ∷ []) window (omega arith)

passes-limit_example : 1 + passes 5 (client 10 ∷ client 20 ∷ client 30 ∷ []) window ≤ 2
unfolding find_record
passes-limit_example =
    passes-limit 5 1 2 1000 (client 10 ∷ client 20 ∷ client 30 ∷ []) window
      (record { key = 5; count = 1; reset_at = 1000 }, refl, refl, refl) (omega arith) refl
