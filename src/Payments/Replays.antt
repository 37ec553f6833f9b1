-- ===== src/Payments/Replays.antt =====
-- A provider event that is delivered again.
use mathlib.Core.Path.{subst}
use wer_te_backend.Prelude.{
  ℕ, Bool, true, false, not, Option, none, some, List, [], ◌∷◌, ◌==◌, ◌≡◌, refl, ◌⊎◌, inl, inr,
  arith, find_by, update_by, Option-cases, find_by_sound,
}
use wer_te_backend.Domain.Enums.{ProcessingStatus, provider_is}
use wer_te_backend.Domain.Finance.{Payment, ProviderEvent}
use wer_te_backend.Domain.Store.{Db, Result, Error}
use wer_te_backend.Domain.Ensures.{Ensures, Ensures-if}
use wer_te_backend.Payments.Lifecycle.{LifecycleConfig}
use wer_te_backend.Payments.Events.{
  EventRun, EventInput, StateUpdate, with_state, mark, is_terminal, find_event,
  is_verified_for_processing, resolve_lifecycle_action, resolve_payment,
  should_process_provider_event, update_processing_state, apply_lifecycle_action, apply_and_mark,
  process_matched, process_verified, mark_outcome, process_event, process_payment_provider_event,
}

-- The stored event is the returned one, and its state is final.
abbrev IsSettled : ℕ → ProviderEvent → Db → Type 0
IsSettled k e db = (find_event k db ≡ some e) × (is_terminal e.processing_status ≡ true)

updated_status :
    (k occurred_at : ℕ) (s : StateUpdate) (rows : List ProviderEvent) (e : ProviderEvent)
    → find_by (λ x. x.id == k) (update_by (λ x. x.id == k) (with_state occurred_at s) rows) ≡ some e
    → e.processing_status ≡ s.processing_status
updated_status k occurred_at s [] e h = cc
updated_status k occurred_at s (x ∷ rows) e h =
    ground (arith, updated_status k occurred_at s rows e)

mark-IsSettled :
    (occurred_at : ℕ) (s : StateUpdate) (e : ProviderEvent) (db : Db)
    → is_terminal s.processing_status ≡ true
    → Ensures (IsSettled e.id) (mark occurred_at s e db)
unfolding mark update_processing_state
mark-IsSettled occurred_at s e db t =
    go (find_event e.id (update_processing_state occurred_at s e db)) refl
  where
    go :
        (o : Option ProviderEvent)
        → find_event e.id (update_processing_state occurred_at s e db) ≡ o
        → Ensures (IsSettled e.id) (elim o [
          | none ↦ (Result.err Error.infrastructure, db)
          | some e' ↦ (Result.ok e', update_processing_state occurred_at s e db)
        ])
    go none x = tt
    go (some e') x =
        (x, ground (arith, t, updated_status e.id occurred_at s db.payment_events e' x))

apply_and_mark-IsSettled :
    (run : EventRun) (input : EventInput) (e : ProviderEvent) (cfg : LifecycleConfig) (p : Payment)
    (db : Db)
    → Ensures (IsSettled e.id) (apply_and_mark run input e cfg p db)
unfolding apply_and_mark
apply_and_mark-IsSettled run input e cfg p db = go (apply_lifecycle_action run e cfg p db)
  where
    go : (m : Result Payment × Db) → Ensures (IsSettled e.id) (mark_outcome run input e p m)
    go (Result.ok summary, db') = mark-IsSettled _ _ e db' refl
    go (Result.err x, db') = tt

not_processed-terminal :
    (s : ProcessingStatus) (retry : Bool)
    → not (should_process_provider_event s retry) ≡ true
    → is_terminal s ≡ true
unfolding should_process_provider_event
not_processed-terminal s retry h = ground arith

process_event-IsSettled :
    (run : EventRun) (input : EventInput) (e : ProviderEvent) (db : Db)
    → find_event e.id db ≡ some e
    → Ensures (IsSettled e.id) (process_event run input e db)
unfolding process_event
process_event-IsSettled run input e db found =
    Ensures-if (IsSettled e.id)
      (not (should_process_provider_event e.processing_status input.retry_terminal)) _ _ db
      (λ h. (found, already h))
      (λ h.
        Ensures-if (IsSettled e.id) (not (is_verified_for_processing e.verification_status)) _ _ db
          (λ k. mark-IsSettled _ _ e db refl)
          (λ k. verified (resolve_lifecycle_action e.normalized_status)))
  where
    already :
        not (should_process_provider_event e.processing_status input.retry_terminal) ≡ true
        → is_terminal e.processing_status ≡ true
    already h = not_processed-terminal e.processing_status input.retry_terminal h

    matched :
        (cfg : LifecycleConfig) (o : Option Payment)
        → Ensures (IsSettled e.id) (process_matched run input e cfg o db)
    matched cfg none = mark-IsSettled _ _ e db refl
    matched cfg (some p) =
        Ensures-if (IsSettled e.id) (not (provider_is p.provider e.provider)) _ _ db
          (λ k. mark-IsSettled _ _ e db refl) (λ k. apply_and_mark-IsSettled run input e cfg p db)

    verified :
        (o : Option LifecycleConfig) → Ensures (IsSettled e.id) (process_verified run input e o db)
    verified none = mark-IsSettled _ _ e db refl
    verified (some cfg) = matched cfg (resolve_payment run e db)

terminal-process_event :
    (run : EventRun) (input : EventInput) (e : ProviderEvent) (db : Db)
    → is_terminal e.processing_status ≡ true
    → input.retry_terminal ≡ false
    → process_event run input e db ≡ (Result.ok e, db)
unfolding process_event should_process_provider_event
terminal-process_event run input e db t r = ground (arith, t, r)

-- Once a provider event was processed and answered, delivering it again changes nothing and gets
-- the same answer, unless a retry is asked for.
pub process_payment_provider_event-again :
    (run run' : EventRun) (input input' : EventInput) (e : ProviderEvent) (db db' : Db)
    → process_payment_provider_event run input db ≡ (Result.ok e, db')
    → input'.payment_provider_event_id ≡ input.payment_provider_event_id
    → input'.retry_terminal ≡ false
    → process_payment_provider_event run' input' db' ≡ (Result.ok e, db')
unfolding process_payment_provider_event
process_payment_provider_event-again run run' input input' e db db' h same no_retry =
    by_event (Option-cases (find_event input.payment_provider_event_id db))
  where
    settled :
        (k : ℕ)
        → input.payment_provider_event_id ≡ k
        → IsSettled k e db'
        → process_payment_provider_event run' input' db' ≡ (Result.ok e, db')
    settled k x (found, t) =
        ground
          (arith, x, same, no_retry, found, terminal-process_event run' input' e db' t no_retry)

    by_event :
        (find_event input.payment_provider_event_id db ≡ none)
          ⊎ ((o : ProviderEvent) × (find_event input.payment_provider_event_id db ≡ some o))
        → process_payment_provider_event run' input' db' ≡ (Result.ok e, db')
    by_event (inl x) = ground (arith, h, x)
    by_event (inr (o, x)) =
        let same_id =
          find_by_sound (λ r. r.id == input.payment_provider_event_id) db.payment_events x in
        settled o.id (ground (arith, same_id)) (
          subst (λ m. Ensures (IsSettled o.id) m) {y = (Result.ok e, db')} (ground (arith, h, x))
            (process_event-IsSettled run input o db (ground (arith, x, same_id))))
