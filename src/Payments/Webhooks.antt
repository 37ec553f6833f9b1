-- ===== src/Payments/Webhooks.antt =====
-- What provider events do to the payments.
use mathlib.Core.Path.{subst}
use wer_te_backend.Prelude.{
  sym, Bool, true, false, none, some, ◌≡◌, ◌≢◌, refl, ◌⊎◌, inl, inr, arith, Option-cases,
  Bool-cases, ◌&&◌,
}
use wer_te_backend.Domain.Enums.{ProcessingStatus, VerificationStatus, provider_is}
use wer_te_backend.Domain.Finance.{Payment, ProviderEvent}
use wer_te_backend.Domain.Store.{Db}
use wer_te_backend.Payments.Lifecycle.{LifecycleConfig}
use wer_te_backend.Payments.Events.{
  mark, EventRun, EventInput, find_event, is_terminal, is_verified_for_processing,
  resolve_lifecycle_action, resolve_payment, should_process_provider_event, update_processing_state,
  apply_lifecycle_action, apply_and_mark, process_event, process_payment_provider_event,
}

-- The evidence on which a provider event may move a payment, and that it did nothing else to the
-- payments.
pub record IsAuthorised (run : EventRun) (input : EventInput) (e : ProviderEvent) (db db' : Db)
    : Type 0 where
  pub config : LifecycleConfig
  pub payment : Payment
  pub not_processed : e.processing_status ≢ ProcessingStatus.processed
  pub open_for_processing :
      (is_terminal e.processing_status ≡ false) ⊎ (input.retry_terminal ≡ true)
  pub verified_or_skipped :
      (e.verification_status ≡ VerificationStatus.verified)
      ⊎ (e.verification_status ≡ VerificationStatus.skipped)
  pub action : resolve_lifecycle_action e.normalized_status ≡ some config
  pub matched : resolve_payment run e db ≡ some payment
  pub same_provider : provider_is payment.provider e.provider ≡ true
  pub applied : db'.payments ≡ (apply_lifecycle_action run e config payment db).1.payments

pub not_processed_if :
    (s : ProcessingStatus) (retry : Bool)
    → should_process_provider_event s retry ≡ true
    → s ≢ ProcessingStatus.processed
unfolding should_process_provider_event
not_processed_if ProcessingStatus.processed retry h = absurd (ground (arith, h))
not_processed_if _ retry h = λ e. cc

pub open_if :
    (s : ProcessingStatus) (retry : Bool)
    → should_process_provider_event s retry ≡ true
    → (is_terminal s ≡ false) ⊎ (retry ≡ true)
unfolding should_process_provider_event
open_if s retry h = ground (arith, h)

pub verified_if :
    (v : VerificationStatus)
    → is_verified_for_processing v ≡ true
    → (v ≡ VerificationStatus.verified) ⊎ (v ≡ VerificationStatus.skipped)
verified_if VerificationStatus.verified h = inl refl
verified_if VerificationStatus.skipped h = inr refl
verified_if _ h = absurd (cc h)

abbrev gate : EventInput → ProviderEvent → Payment → Bool
gate input e p =
    should_process_provider_event e.processing_status input.retry_terminal
    && is_verified_for_processing e.verification_status
    && provider_is p.provider e.provider

process_event-payments :
    (run : EventRun) (input : EventInput) (e : ProviderEvent) (db : Db)
    → ((process_event run input e db).1.payments ≡ db.payments)
      ⊎ IsAuthorised run input e db (process_event run input e db).1
unfolding process_event mark update_processing_state apply_and_mark
process_event-payments run input e db =
    by_action (Option-cases (resolve_lifecycle_action e.normalized_status))
  where
    Answer : Type 0
    Answer =
        ((process_event run input e db).1.payments ≡ db.payments)
        ⊎ IsAuthorised run input e db (process_event run input e db).1

    by_gate :
        (cfg : LifecycleConfig)
        → resolve_lifecycle_action e.normalized_status ≡ some cfg
        → (p : Payment) → resolve_payment run e db ≡ some p
        → (gate input e p ≡ true) ⊎ (gate input e p ≡ false)
        → Answer
    by_gate cfg x p y (inl g) = inr (record {
      config = cfg;
      payment = p;
      not_processed = not_processed_if e.processing_status input.retry_terminal (ground (arith, g));
      open_for_processing = open_if e.processing_status input.retry_terminal (ground (arith, g));
      verified_or_skipped = verified_if e.verification_status (ground (arith, g));
      action = x;
      matched = y;
      same_provider = ground (arith, g);
      applied = ground (arith, x, y, g);
    })
    by_gate cfg x p y (inr g) = inl (ground (arith, x, y, g))

    by_payment :
        (cfg : LifecycleConfig)
        → resolve_lifecycle_action e.normalized_status ≡ some cfg
        → (resolve_payment run e db ≡ none) ⊎ ((p : Payment) × (resolve_payment run e db ≡ some p))
        → Answer
    by_payment cfg x (inl y) = inl (ground (arith, x, y))
    by_payment cfg x (inr (p, y)) = by_gate cfg x p y (Bool-cases (gate input e p))

    by_action :
        (resolve_lifecycle_action e.normalized_status ≡ none)
          ⊎ ((cfg : LifecycleConfig) × (resolve_lifecycle_action e.normalized_status ≡ some cfg))
        → Answer
    by_action (inl x) = inl (ground (arith, x))
    by_action (inr (cfg, x)) = by_payment cfg x (Option-cases (resolve_payment run e db))

-- Processing a provider event leaves the payments alone, or applies the lifecycle action of its
-- status to the payment that it matches: only if the event was not processed before, has not been
-- ignored or marked as failed unless a retry is asked for, is verified or had its verification
-- skipped, and is of that payment's provider.
pub process_payment_provider_event-payments :
    (run : EventRun) (input : EventInput) (e : ProviderEvent) (db : Db)
    → find_event input.payment_provider_event_id db ≡ some e
    → ((process_payment_provider_event run input db).1.payments ≡ db.payments)
      ⊎ IsAuthorised run input e db (process_payment_provider_event run input db).1
unfolding process_payment_provider_event
process_payment_provider_event-payments run input e db found =
    subst (λ m. (m.1.payments ≡ db.payments) ⊎ IsAuthorised run input e db m.1) (sym same)
      (process_event-payments run input e db)
  where
    same : process_payment_provider_event run input db ≡ process_event run input e db
    same = ground (arith, found)
