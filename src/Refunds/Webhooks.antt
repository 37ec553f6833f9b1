-- ===== src/Refunds/Webhooks.antt =====
-- What the provider events of refunds do to the money.
use mathlib.Core.Path.{subst}
use wer_te_backend.Prelude.{
  sym, Bool, true, false, ◌&&◌, none, some, ◌≡◌, ◌≢◌, ◌⊎◌, inl, inr, arith, Option-cases,
  Bool-cases,
}
use wer_te_backend.Domain.Enums.{ProcessingStatus, VerificationStatus}
use wer_te_backend.Domain.Finance.{Refund, RefundEvent}
use wer_te_backend.Domain.Store.{Db}
use wer_te_backend.Payments.Events.{
  is_terminal, should_process_provider_event, is_verified_for_processing,
}
use wer_te_backend.Payments.Webhooks.{not_processed_if, open_if, verified_if}
use wer_te_backend.Refunds.Operations.{FinalizeConfig}
use wer_te_backend.Refunds.EventStates.{find_refund_event, mark_refund_event, update_refund_event}
use wer_te_backend.Refunds.Events.{
  RefundEventRun, RefundEventInput, resolve_refund_action, is_of_provider, resolve_refund,
  apply_refund_action, apply_and_mark_refund, process_refund_event, process_refund_provider_event,
}

-- The payments and the refunds are the same.
abbrev pub HasSameMoney : Db → Db → Type 0
HasSameMoney db db' = (db'.refunds ≡ db.refunds) × (db'.payments ≡ db.payments)

-- The evidence on which a provider event may finish a refund, and that it did nothing else to the
-- refunds and the payments.
pub record IsAuthorisedRefund (run : RefundEventRun) (input : RefundEventInput) (e : RefundEvent)
    (db db' : Db) : Type 0 where
  pub config : FinalizeConfig
  pub refund : Refund
  pub not_processed : e.processing_status ≢ ProcessingStatus.processed
  pub open_for_processing :
      (is_terminal e.processing_status ≡ false) ⊎ (input.retry_terminal ≡ true)
  pub verified_or_skipped :
      (e.verification_status ≡ VerificationStatus.verified)
      ⊎ (e.verification_status ≡ VerificationStatus.skipped)
  pub action : resolve_refund_action e.normalized_status ≡ some config
  pub matched : resolve_refund run e db ≡ some refund
  pub same_provider : is_of_provider e.provider db refund ≡ true
  pub applied : HasSameMoney (apply_refund_action run e config refund db).1 db'

abbrev gate : RefundEventInput → RefundEvent → Refund → Db → Bool
gate input e r db =
    should_process_provider_event e.processing_status input.retry_terminal
    && is_verified_for_processing e.verification_status
    && is_of_provider e.provider db r

process_refund_event-IsAuthorisedRefund :
    (run : RefundEventRun) (input : RefundEventInput) (e : RefundEvent) (db : Db)
    → HasSameMoney db (process_refund_event run input e db).1
      ⊎ IsAuthorisedRefund run input e db (process_refund_event run input e db).1
unfolding process_refund_event mark_refund_event update_refund_event apply_and_mark_refund
process_refund_event-IsAuthorisedRefund run input e db =
    by_action (Option-cases (resolve_refund_action e.normalized_status))
  where
    Answer : Type 0
    Answer =
        HasSameMoney db (process_refund_event run input e db).1
        ⊎ IsAuthorisedRefund run input e db (process_refund_event run input e db).1

    by_gate :
        (cfg : FinalizeConfig)
        → resolve_refund_action e.normalized_status ≡ some cfg
        → (r : Refund) → resolve_refund run e db ≡ some r
        → (gate input e r db ≡ true) ⊎ (gate input e r db ≡ false)
        → Answer
    by_gate cfg x r y (inl g) = inr (record {
      config = cfg;
      refund = r;
      not_processed = not_processed_if e.processing_status input.retry_terminal (ground (arith, g));
      open_for_processing = open_if e.processing_status input.retry_terminal (ground (arith, g));
      verified_or_skipped = verified_if e.verification_status (ground (arith, g));
      action = x;
      matched = y;
      same_provider = ground (arith, g);
      applied = ground (arith, x, y, g);
    })
    by_gate cfg x r y (inr g) = inl (ground (arith, x, y, g))

    by_refund :
        (cfg : FinalizeConfig)
        → resolve_refund_action e.normalized_status ≡ some cfg
        → (resolve_refund run e db ≡ none) ⊎ ((r : Refund) × (resolve_refund run e db ≡ some r))
        → Answer
    by_refund cfg x (inl y) = inl (ground (arith, x, y))
    by_refund cfg x (inr (r, y)) = by_gate cfg x r y (Bool-cases (gate input e r db))

    by_action :
        (resolve_refund_action e.normalized_status ≡ none)
          ⊎ ((cfg : FinalizeConfig) × (resolve_refund_action e.normalized_status ≡ some cfg))
        → Answer
    by_action (inl x) = inl (ground (arith, x))
    by_action (inr (cfg, x)) = by_refund cfg x (Option-cases (resolve_refund run e db))

-- Processing a provider event leaves the refunds and the payments alone, or does to both what finishing
-- the refund that it matches does: only if the event was not processed before, has not been ignored or
-- marked as failed unless a retry is asked for, is verified or had its verification skipped, and is of
-- the provider of the refund's payment.
pub process_refund_provider_event-IsAuthorisedRefund :
    (run : RefundEventRun) (input : RefundEventInput) (e : RefundEvent) (db : Db)
    → find_refund_event input.refund_provider_event_id db ≡ some e
    → HasSameMoney db (process_refund_provider_event run input db).1
      ⊎ IsAuthorisedRefund run input e db (process_refund_provider_event run input db).1
unfolding process_refund_provider_event
process_refund_provider_event-IsAuthorisedRefund run input e db found =
    subst (λ m. HasSameMoney db m.1 ⊎ IsAuthorisedRefund run input e db m.1) (sym same)
      (process_refund_event-IsAuthorisedRefund run input e db)
  where
    same : process_refund_provider_event run input db ≡ process_refund_event run input e db
    same = ground (arith, found)
