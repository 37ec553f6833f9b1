-- ===== src/Deliveries/Transition.antt =====
-- The methods of deliveries/services/rider-delivery-actions.service.ts.
use wer_te_backend.Prelude.{
  ℕ, Bool, true, false, ◌&&◌, Option, none, some, ◌==◌, if◌then◌else◌, find_by, update_by, Text,
  codes, or_option, or_else, normalize_optional_string,
}
use wer_te_backend.Domain.Enums.{OrderStatus, AttemptOutcome, order_is, delivery_is}
use wer_te_backend.Domain.Entities.{User, DispatchAttempt}
use wer_te_backend.Domain.Store.{
  Db, Action, Error, Job, MessageCode, ◌>>=◌, ◌>>◌, pure, throw, gets, modify, require,
  throw_unless, transaction,
}
use wer_te_backend.Orders.View.{update_order_status, StatusUpdate}
use wer_te_backend.Orders.Effects.{Services, publish_order_event, add_job, settle_cash_payment}
use wer_te_backend.Deliveries.Policy.{DeliveryDetail, can_rider_cancel_pre_pickup}
use wer_te_backend.Deliveries.Actions.{
  RiderInput, TransitionConfig, find_delivery_detail, find_rider_delivery, update_delivery,
  reset_delivery, accept_config, reject_config, picked_up_config, on_the_way_config,
  delivered_config, failed_config,
}

unfoldable pub require_reason_code : Option Text → Action (Option Text)
require_reason_code none = throw Error.unprocessable_entity
require_reason_code (some r) = pure (some r)

-- The reason of a transition: required, or given, or the default.
unfoldable pub resolve_reason : TransitionConfig → RiderInput → Action (Option Text)
unfolding require_reason_code
resolve_reason cfg input =
    if cfg.require_reason_code
    then require_reason_code (normalize_optional_string input.reason_code)
    else pure (or_option (normalize_optional_string input.reason_code) cfg.default_reason_code)

abbrev pub rider_update :
    User → OrderStatus → Option Text → Option Text → DeliveryDetail → StatusUpdate
rider_update u target reason note d = record {
  status = target;
  from_status = d.order.status;
  changed_by_user_id = u.user_id;
  reason_code = reason;
  note = note;
}

-- What the transaction writes: the delivery, the order, and the cash payment on delivery.
unfoldable pub commit_transition :
    ℕ → User → TransitionConfig → Option Text → Option Text → DeliveryDetail → Db → Db
commit_transition now u cfg reason note d db =
    let moved = update_delivery d.delivery.id (cfg.build_delivery_update now reason note) db in
    let updated =
      update_order_status d.delivery.order_id (rider_update u cfg.target_order_status reason note d)
        moved in
    if order_is cfg.target_order_status OrderStatus.delivered
    then settle_cash_payment d.delivery.order_id now updated
    else updated

-- After the commit: the delivery is read again, and the event published.
unfoldable pub conclude_transition :
    Services → ℕ → RiderInput → TransitionConfig → DeliveryDetail → Action DeliveryDetail
conclude_transition sv rider_id input cfg d = do
  reloaded ← gets (
      if cfg.reload_unscoped
      then find_delivery_detail input.delivery_id
      else find_rider_delivery input.delivery_id rider_id)
  updated ← require reloaded Error.not_found
  publish_order_event sv d.delivery.order_id cfg.system_message_code
  pure updated

unfoldable pub transition_delivery :
    Services → ℕ → User → ℕ → RiderInput → TransitionConfig → DeliveryDetail → Action DeliveryDetail
transition_delivery sv now u rider_id input cfg d =
    if order_is d.order.status cfg.target_order_status
      && delivery_is d.delivery.status cfg.target_delivery_status
    then pure d
    else do
      throw_unless (cfg.can_transition u d) Error.conflict
      reason ← resolve_reason cfg input
      transaction
          (modify (commit_transition now u cfg reason (normalize_optional_string input.note) d))
      conclude_transition sv rider_id input cfg d

-- `handleTransition`
unfoldable pub handle_transition :
    Services → ℕ → User → RiderInput → TransitionConfig → Action DeliveryDetail
handle_transition sv now u input cfg = do
  rider_id ← require u.actor_context.rider_id Error.forbidden
  found ← gets (find_rider_delivery input.delivery_id rider_id)
  d ← require found Error.not_found
  transition_delivery sv now u rider_id input cfg d

abbrev pub is_pending : AttemptOutcome → Bool
is_pending AttemptOutcome.pending = true
is_pending _ = false

abbrev is_pending_attempt : ℕ → ℕ → DispatchAttempt → Bool
is_pending_attempt order_id rider_id a =
    a.order_id == order_id && a.rider_id == rider_id && is_pending a.outcome

-- `resolveDispatchAttempt`; the table keeps the latest attempt first.
unfoldable pub resolve_dispatch_attempt : ℕ → ℕ → ℕ → AttemptOutcome → Db → Db
resolve_dispatch_attempt now order_id rider_id outcome db =
    elim (find_by (is_pending_attempt order_id rider_id) db.dispatch_attempts) [
      | none ↦ db
      | some a ↦ record db {
        dispatch_attempts =
            update_by (λ b. b.id == a.id)
              (λ b. record b { outcome = outcome; resolved_at = some now }) db.dispatch_attempts;
      }
    ]

-- The attempt is resolved for the delivery that was read before the transition.
unfoldable pub resolve_for : ℕ → Option DeliveryDetail → ℕ → AttemptOutcome → Action (Unit {0})
resolve_for now none rider_id outcome = pure tt
resolve_for now (some d) rider_id outcome =
    modify (resolve_dispatch_attempt now d.delivery.order_id rider_id outcome)

unfoldable pub accept_current_rider_delivery_request :
    Services → ℕ → User → RiderInput → Action DeliveryDetail
accept_current_rider_delivery_request sv now u input = do
  rider_id ← require u.actor_context.rider_id Error.forbidden
  before ← gets (find_rider_delivery input.delivery_id rider_id)
  result ← handle_transition sv now u input accept_config
  resolve_for now before rider_id AttemptOutcome.accepted
  pure result

unfoldable pub reject_current_rider_delivery_request :
    Services → ℕ → User → RiderInput → Action DeliveryDetail
reject_current_rider_delivery_request sv now u input = do
  rider_id ← require u.actor_context.rider_id Error.forbidden
  before ← gets (find_rider_delivery input.delivery_id rider_id)
  result ← handle_transition sv now u input reject_config
  resolve_for now before rider_id AttemptOutcome.rejected
  add_job sv (Job.auto_dispatch_order result.order.id 500)
  pure result

unfoldable pub mark_current_rider_picked_up :
    Services → ℕ → User → RiderInput → Action DeliveryDetail
mark_current_rider_picked_up sv now u input = handle_transition sv now u input picked_up_config

unfoldable pub mark_current_rider_on_the_way :
    Services → ℕ → User → RiderInput → Action DeliveryDetail
mark_current_rider_on_the_way sv now u input = handle_transition sv now u input on_the_way_config

unfoldable pub mark_current_rider_delivered :
    Services → ℕ → User → RiderInput → Action DeliveryDetail
mark_current_rider_delivered sv now u input = handle_transition sv now u input delivered_config

unfoldable pub fail_current_rider_delivery :
    Services → ℕ → User → RiderInput → Action DeliveryDetail
fail_current_rider_delivery sv now u input = handle_transition sv now u input failed_config

-- `cancelCurrentRiderDelivery`: the delivery row keeps when and why it was given up.
unfoldable pub commit_rider_cancel : ℕ → User → RiderInput → DeliveryDetail → Db → Db
commit_rider_cancel now u input d db =
    let reason =
      or_else (normalize_optional_string input.reason_code) (codes "rider_cancelled_pre_pickup") in
    let note = normalize_optional_string input.note in
    update_order_status d.delivery.order_id
      (rider_update u OrderStatus.merchant_accepted (some reason) note d)
      (update_delivery d.delivery.id
        (λ row. record (reset_delivery row) {
          cancelled_at = some now;
          failure_reason_code = some reason;
          failure_note = note;
        })
        db)

unfoldable pub cancel_current_rider_delivery : Services → ℕ → User → RiderInput → Action (Unit {0})
cancel_current_rider_delivery sv now u input = do
  rider_id ← require u.actor_context.rider_id Error.forbidden
  found ← gets (find_rider_delivery input.delivery_id rider_id)
  d ← require found Error.not_found
  throw_unless (can_rider_cancel_pre_pickup u d) Error.conflict
  transaction (modify (commit_rider_cancel now u input d))
  publish_order_event sv d.delivery.order_id MessageCode.order_cancelled
  add_job sv (Job.auto_dispatch_order d.delivery.order_id 500)
