-- ===== src/Dispatch/Auto.antt =====
-- dispatch/services/auto-dispatch.service.ts.
use wer_te_backend.Prelude.{
  ℕ, ◌*◌, Bool, true, false, ◌&&◌, Option, none, some, List, ◌∷◌, ◌==◌, leb, if◌then◌else◌, find_by,
  update_by, count_by, codes, is_none, option_is,
}
use wer_te_backend.Domain.Enums.{
  OrderStatus, DeliveryType, DeliveryStatus, AttemptOutcome, order_is, delivery_is,
}
use wer_te_backend.Domain.Entities.{Order, Delivery, Rider}
use wer_te_backend.Domain.Store.{
  Db, Action, Result, Error, Job, MessageCode, ◌>>=◌, ◌>>◌, pure, gets, modify, throw_unless,
  transaction,
}
use wer_te_backend.Orders.View.{
  find_order_where, find_delivery_of, find_rider, update_order_status, StatusUpdate,
}
use wer_te_backend.Orders.Policy.{is_pickup}
use wer_te_backend.Orders.Effects.{Services, publish_order_event, add_job}
use wer_te_backend.Orders.Cancellation.{cancel_order_for_system, has_assigned_rider}
use wer_te_backend.Deliveries.Transition.{is_pending}
use wer_te_backend.Dispatch.Eligibility.{
  active_deliveries, is_dispatch_eligible_rider, get_tried_rider_ids, pick_eligible_rider,
}

-- What a run of a handler is given: the ids of the rows that it may create, the time, and the
-- services.
pub record Run : Type 0 where
  pub attempt_id : ℕ
  pub delivery_id : ℕ
  pub now : ℕ
  pub services : Services

abbrev pub max_failed_attempts : ℕ
max_failed_attempts = 3

abbrev pub rider_accept_timeout_ms : ℕ
rider_accept_timeout_ms = 15 * 60 * 1000

-- The user id of `createSystemAuthenticatedActor('auto-dispatch')`.
abbrev pub auto_dispatch_actor : ℕ
auto_dispatch_actor = 1

abbrev new_delivery : ℕ → ℕ → ℕ → Option ℕ → ℕ → Delivery
new_delivery delivery_id order_id rider_id eta now = record {
  id = delivery_id;
  order_id = order_id;
  rider_id = some rider_id;
  status = DeliveryStatus.assigned;
  eta_minutes = eta;
  assigned_at = some now;
  accepted_at = none;
  picked_up_at = none;
  on_the_way_at = none;
  delivered_at = none;
  failed_at = none;
  cancelled_at = none;
  failure_reason_code = none;
  failure_note = none;
}

abbrev pub assign_row : ℕ → Option ℕ → ℕ → Delivery → Delivery
assign_row rider_id eta now d = new_delivery d.id d.order_id rider_id eta now

-- `upsertAssignedDelivery`
unfoldable pub upsert_assigned_delivery : ℕ → ℕ → ℕ → Option ℕ → ℕ → List Delivery → List Delivery
upsert_assigned_delivery delivery_id order_id rider_id eta now rows =
    elim (find_by (λ d. d.order_id == order_id) rows) [
      | none ↦ new_delivery delivery_id order_id rider_id eta now ∷ rows
      | some d ↦ update_by (λ d. d.order_id == order_id) (assign_row rider_id eta now) rows
    ]

abbrev pub auto_update : StatusUpdate
auto_update = record {
  status = OrderStatus.rider_assigned;
  from_status = OrderStatus.merchant_accepted;
  changed_by_user_id = auto_dispatch_actor;
  reason_code = some (codes "auto_dispatched");
  note = none;
}

-- The transaction of `assignAndNotify`, which a rider with an active delivery aborts.
unfoldable pub assign_in_transaction : Run → ℕ → Rider → Action (Unit {0})
assign_in_transaction run order_id rider = transaction do
  active ← gets (λ db. active_deliveries rider.id db.deliveries)
  throw_unless (active == 0) Error.conflict
  modify (λ db. record db {
    deliveries =
        upsert_assigned_delivery run.delivery_id order_id rider.id none run.now db.deliveries;
  })
  modify (update_order_status order_id auto_update)

-- `orderDispatchAttempt.create`, the latest first.
unfoldable pub create_attempt : Run → ℕ → ℕ → Db → Db
create_attempt run order_id rider_id db = record db {
  dispatch_attempts =
      record {
        id = run.attempt_id;
        order_id = order_id;
        rider_id = rider_id;
        outcome = AttemptOutcome.pending;
        resolved_at = none;
      }
      ∷ db.dispatch_attempts;
}

unfoldable pub resolve_attempt : ℕ → AttemptOutcome → ℕ → Db → Db
resolve_attempt attempt_id outcome now db = record db {
  dispatch_attempts =
      update_by (λ a. a.id == attempt_id)
        (λ a. record a { outcome = outcome; resolved_at = some now }) db.dispatch_attempts;
}

-- What follows the transaction, by how it ended.
unfoldable pub after_assignment : Run → ℕ → Result (Unit {0}) → Action (Unit {0})
after_assignment run order_id (Result.ok _) = do
  add_job run.services (Job.rider_dispatch_timeout order_id run.attempt_id rider_accept_timeout_ms)
  publish_order_event run.services order_id MessageCode.rider_assigned
after_assignment run order_id (Result.err _) = do
  modify (resolve_attempt run.attempt_id AttemptOutcome.failed run.now)
  add_job run.services (Job.auto_dispatch_order order_id 500)

unfoldable pub assign_and_notify : Run → ℕ → Rider → Action (Unit {0})
assign_and_notify run order_id rider db =
    let (r, db') =
      assign_in_transaction run order_id rider (create_attempt run order_id rider.id db) in
    after_assignment run order_id r db'

-- `cancelOrderNoRider`; the order has a customer, who is notified.
unfoldable pub cancel_order_no_rider : ℕ → Action (Unit {0})
cancel_order_no_rider order_id =
    modify (cancel_order_for_system order_id auto_dispatch_actor (codes "no_rider_available") true)

abbrev pub is_failed_outcome : AttemptOutcome → Bool
is_failed_outcome AttemptOutcome.timeout = true
is_failed_outcome AttemptOutcome.rejected = true
is_failed_outcome _ = false

unfoldable pub failed_count : ℕ → Db → ℕ
failed_count order_id db =
    count_by (λ a. a.order_id == order_id && is_failed_outcome a.outcome) db.dispatch_attempts

abbrev pub assign_if_found : Run → ℕ → Option Rider → Action (Unit {0})
assign_if_found run order_id none = pure tt
assign_if_found run order_id (some rider) = assign_and_notify run order_id rider

-- The end that two handlers share: give up after too many attempts, or try another rider.
unfoldable pub dispatch_or_cancel : Run → Order → Action (Unit {0})
dispatch_or_cancel run order = do
  failed ← gets (failed_count order.id)
  (if leb max_failed_attempts failed then cancel_order_no_rider order.id else do
    tried ← gets (get_tried_rider_ids order.id)
    rider ← gets (pick_eligible_rider order.delivery_township tried)
    assign_if_found run order.id rider)

abbrev pub awaits_rider : Db → Order → Bool
awaits_rider db o =
    order_is o.status OrderStatus.merchant_accepted
    && not_pickup o.delivery_type
    && without_rider (find_delivery_of o.id db)
  where
    not_pickup : DeliveryType → Bool
    not_pickup t = if is_pickup t then false else true

    without_rider : Option Delivery → Bool
    without_rider d = if has_assigned_rider d then false else true

unfoldable pub handle_auto_dispatch_order : Run → ℕ → Action (Unit {0})
handle_auto_dispatch_order run order_id db = elim (find_order_where (awaits_rider db) order_id db) [
  | none ↦ (Result.ok tt, db)
  | some order ↦ dispatch_or_cancel run order db
]

-- The orders that a newly free rider is offered: those with no delivery row at all.
abbrev pub without_delivery : Db → Order → Bool
without_delivery db o =
    order_is o.status OrderStatus.merchant_accepted
    && is_none (find_delivery_of o.id db)
    && (if is_pickup o.delivery_type then false else true)

-- `findReadyOrdersWithoutRider` with `limit: 1`; the table of orders stands in the query's order.
unfoldable pub find_ready_order_without_rider : Option ℕ → Db → Option Order
find_ready_order_without_rider none db = find_by (without_delivery db) db.orders
find_ready_order_without_rider (some t) db =
    find_by (λ o. without_delivery db o && option_is o.delivery_township t) db.orders

abbrev assign_first : Run → Rider → Option Order → Option Order → Action (Unit {0})
assign_first run rider none none = pure tt
assign_first run rider none (some o) = assign_and_notify run o.id rider
assign_first run rider (some o) fallback = assign_and_notify run o.id rider

unfoldable pub handle_auto_dispatch_for_rider : Run → ℕ → Option ℕ → Action (Unit {0})
handle_auto_dispatch_for_rider run rider_id township db = elim (find_rider rider_id db) [
  | none ↦ (Result.ok tt, db)
  | some rider ↦
      if is_dispatch_eligible_rider rider
      then assign_first run rider (find_ready_order_without_rider township db)
          (find_ready_order_without_rider none db) db
      else (Result.ok tt, db)
]

abbrev pub timeout_update : StatusUpdate
timeout_update = record {
  status = OrderStatus.merchant_accepted;
  from_status = OrderStatus.rider_assigned;
  changed_by_user_id = auto_dispatch_actor;
  reason_code = some (codes "rider_dispatch_timeout");
  note = none;
}

abbrev pub unassign_row : Delivery → Delivery
unassign_row d = record d {
  rider_id = none;
  status = DeliveryStatus.pending_assignment;
  eta_minutes = none;
  accepted_at = none;
}

-- The rider has not acted: the delivery is still ASSIGNED and the order RIDER_ASSIGNED.
abbrev pub still_assigned : Order → Option Delivery → Bool
still_assigned o none = false
still_assigned o (some d) =
    order_is o.status OrderStatus.rider_assigned && delivery_is d.status DeliveryStatus.assigned

unfoldable pub unassign : Order → Db → Db
unassign order db =
    update_order_status order.id timeout_update (record db {
      deliveries = update_by (λ d. d.order_id == order.id) unassign_row db.deliveries;
    })

-- After the attempt was marked: the order is taken back and offered again.
unfoldable pub retry_dispatch : Run → ℕ → Action (Unit {0})
retry_dispatch run order_id db =
    elim (find_order_where (λ o. still_assigned o (find_delivery_of o.id db)) order_id db) [
      | none ↦ (Result.ok tt, db)
      | some order ↦ dispatch_or_cancel run order (unassign order db)
    ]

unfoldable pub handle_rider_dispatch_timeout : Run → ℕ → ℕ → Action (Unit {0})
handle_rider_dispatch_timeout run order_id attempt_id db =
    elim (find_by (λ a. a.id == attempt_id) db.dispatch_attempts) [
      | none ↦ (Result.ok tt, db)
      | some attempt ↦
          if is_pending attempt.outcome
          then retry_dispatch run order_id
              (resolve_attempt attempt_id AttemptOutcome.timeout run.now db)
          else (Result.ok tt, db)
    ]
