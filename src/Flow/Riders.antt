-- ===== src/Flow/Riders.antt =====
-- The rider's handlers against the diagram.
use wer_te_backend.Prelude.{
  ℕ, Bool, true, false, Option, none, some, ◌≡◌, ◌⊎◌, ◌&&◌, refl, arith, if◌then◌else◌, Text, inl,
  inr, normalize_optional_string, or_option,
}
use wer_te_backend.Domain.Enums.{AttemptOutcome, OrderStatus, order_is, delivery_is}
use wer_te_backend.Domain.Entities.{User, Delivery}
use wer_te_backend.Domain.Store.{
  Db, Job, Action, Result, Error, pure, throw_unless, transaction, modify, ◌>>=◌, ◌>>◌,
}
use wer_te_backend.Orders.View.{find_order}
use wer_te_backend.Orders.Effects.{Services, publish_order_event, add_job}
use wer_te_backend.Deliveries.Policy.{DeliveryDetail, can_rider_cancel_pre_pickup}
use wer_te_backend.Deliveries.Actions.{
  RiderInput, TransitionConfig, find_delivery_detail, find_rider_delivery, update_delivery,
  accept_config, reject_config,
}
use wer_te_backend.Deliveries.Transition.{
  conclude_transition, resolve_reason, require_reason_code, commit_transition, transition_delivery,
  handle_transition, resolve_dispatch_attempt, resolve_for, accept_current_rider_delivery_request,
  reject_current_rider_delivery_request, commit_rider_cancel, cancel_current_rider_delivery,
}
use wer_te_backend.Flow.Diagram.{Edge}
use wer_te_backend.Flow.Progress.{Steps, Steps-same, Steps-trans, update_order_status-Steps}
use wer_te_backend.Flow.Rules.{Steps-then-same, commit_or_same-Steps, settle-Steps}
use wer_te_backend.Flow.RiderPolicies.{
  IsSoundFor, give_up-Edge, accept-IsSoundFor, reject-IsSoundFor,
}

update_delivery-Steps :
    (k : ℕ) (f : Delivery → Delivery) (db : Db) → Steps db (update_delivery k f db)
unfolding update_delivery
update_delivery-Steps k f db = Steps-same db _ refl

-- The delivery names the order that was read with it.
abbrev IsReadFrom : Db → DeliveryDetail → Type 0
IsReadFrom db d = find_order d.delivery.order_id db ≡ some d.order

find_rider_delivery-IsReadFrom :
    (k r : ℕ) (db : Db) (d : DeliveryDetail) → find_rider_delivery k r db ≡ some d → IsReadFrom db d
unfolding find_rider_delivery find_delivery_detail
find_rider_delivery-IsReadFrom k r db d e = ground arith

commit_transition-Steps :
    (now : ℕ) (u : User) (cfg : TransitionConfig) (reason note : Option Text) (d : DeliveryDetail)
    (db : Db)
    → IsReadFrom db d
    → Edge d.order.delivery_type d.order.status cfg.target_order_status
    → Steps db (commit_transition now u cfg reason note d db)
unfolding commit_transition update_delivery
commit_transition-Steps now u cfg reason note d db read edge =
    let moved = update_delivery d.delivery.id (cfg.build_delivery_update now reason note) db in
    Steps-trans (update_delivery-Steps d.delivery.id _ db) (
      Steps-trans (update_order_status-Steps d.delivery.order_id _ moved d.order read refl edge) (
        settle-Steps (order_is cfg.target_order_status OrderStatus.delivered) d.delivery.order_id
          now _))

-- The reason that is written.
abbrev written_reason : TransitionConfig → RiderInput → Option Text
written_reason cfg input =
    if cfg.require_reason_code
    then normalize_optional_string input.reason_code
    else or_option (normalize_optional_string input.reason_code) cfg.default_reason_code

abbrev rider_committed : ℕ → User → RiderInput → TransitionConfig → DeliveryDetail → Db → Db
rider_committed now u input cfg d db =
    commit_transition now u cfg (written_reason cfg input) (normalize_optional_string input.note) d
      db

conclude-orders :
    (sv : Services) (rider_id : ℕ) (input : RiderInput) (cfg : TransitionConfig)
    (d : DeliveryDetail) (db : Db)
    → (conclude_transition sv rider_id input cfg d db).1.orders ≡ db.orders
unfolding conclude_transition publish_order_event
conclude-orders sv rider_id input cfg d db = ground arith

-- A guarded commit, given how the reason was resolved.
guarded_cases :
    {D : Type 0} (same can : Bool) (d : D) (e : Error) (resolve : Action (Option Text))
    (commit : Option Text → Db → Db) (after : Action D) (db : Db) (reason : Option Text)
    → (resolve db ≡ (Result.ok reason, db)) ⊎ ((x : Error) × (resolve db ≡ (Result.err x, db)))
    → (after (commit reason db)).1.orders ≡ (commit reason db).orders
    → let run : Action D =
        if same
        then pure d
        else (throw_unless can e >> (resolve >>= λ r. transaction (modify (commit r)) >> after)) in
      ((run db).1.orders ≡ db.orders)
      ⊎ ((can ≡ true) × ((run db).1.orders ≡ (commit reason db).orders))
guarded_cases true can d e resolve commit after db reason h k = inl refl
guarded_cases false false d e resolve commit after db reason h k = inl refl
guarded_cases false true d e resolve commit after db reason (inl is) k =
    inr (refl, ground (arith, is, k))
guarded_cases false true d e resolve commit after db reason (inr (x, is)) k =
    inl (ground (arith, is))

resolve_reason_cases :
    (cfg : TransitionConfig) (input : RiderInput) (db : Db)
    → (resolve_reason cfg input db ≡ (Result.ok (written_reason cfg input), db))
      ⊎ ((x : Error) × (resolve_reason cfg input db ≡ (Result.err x, db)))
unfolding resolve_reason require_reason_code
resolve_reason_cases cfg input db =
    by_reason cfg.require_reason_code (normalize_optional_string input.reason_code)
      cfg.default_reason_code db
  where
    by_reason :
        (required : Bool) (given default : Option Text) (db : Db)
        → let resolve : Action (Option Text) =
            if required then require_reason_code given else pure (or_option given default) in
          let written = if required then given else or_option given default in
          (resolve db ≡ (Result.ok written, db)) ⊎ ((x : Error) × (resolve db ≡ (Result.err x, db)))
    by_reason true none default db = inr (Error.unprocessable_entity, refl)
    by_reason true (some r) default db = inl refl
    by_reason false given default db = inl refl

transition_cases :
    (sv : Services) (now : ℕ) (u : User) (rider_id : ℕ) (input : RiderInput)
    (cfg : TransitionConfig) (d : DeliveryDetail) (db : Db)
    → ((transition_delivery sv now u rider_id input cfg d db).1.orders ≡ db.orders)
      ⊎ ((cfg.can_transition u d ≡ true)
          × ((transition_delivery sv now u rider_id input cfg d db).1.orders
              ≡ (rider_committed now u input cfg d db).orders))
unfolding transition_delivery
transition_cases sv now u rider_id input cfg d db =
    guarded_cases
      (order_is d.order.status cfg.target_order_status
        && delivery_is d.delivery.status cfg.target_delivery_status)
      (cfg.can_transition u d) d Error.conflict (resolve_reason cfg input)
      (λ reason. commit_transition now u cfg reason (normalize_optional_string input.note) d)
      (conclude_transition sv rider_id input cfg d) db (written_reason cfg input)
      (resolve_reason_cases cfg input db)
      (conclude-orders sv rider_id input cfg d (rider_committed now u input cfg d db))

transition-Steps :
    (sv : Services) (now : ℕ) (u : User) (rider_id : ℕ) (input : RiderInput)
    (cfg : TransitionConfig) (d : DeliveryDetail) (db : Db)
    → IsSoundFor cfg
    → IsReadFrom db d
    → Steps db (transition_delivery sv now u rider_id input cfg d db).1
transition-Steps sv now u rider_id input cfg d db sound read =
    commit_or_same-Steps (cfg.can_transition u d ≡ true) db (rider_committed now u input cfg d db)
      (transition_delivery sv now u rider_id input cfg d db).1
      (transition_cases sv now u rider_id input cfg d db)
      (λ allowed.
        commit_transition-Steps now u cfg (written_reason cfg input) _ d db read
          (sound u d allowed))

pub handle_transition-Steps :
    (sv : Services) (now : ℕ) (u : User) (input : RiderInput) (cfg : TransitionConfig) (db : Db)
    → IsSoundFor cfg
    → Steps db (handle_transition sv now u input cfg db).1
unfolding handle_transition
handle_transition-Steps sv now u input cfg db sound = by_rider u.actor_context.rider_id refl
  where
    by_delivery :
        (r : ℕ) (o : Option DeliveryDetail)
        → find_rider_delivery input.delivery_id r db ≡ o
        → u.actor_context.rider_id ≡ some r
        → Steps db (handle_transition sv now u input cfg db).1
    by_delivery r none missing e = Steps-same db _ (ground arith)
    by_delivery r (some d) found e =
        Steps-then-same
          (transition-Steps sv now u r input cfg d db sound
            (find_rider_delivery-IsReadFrom input.delivery_id r db d found))
          (handle_transition sv now u input cfg db).1 (ground arith)

    by_rider :
        (r : Option ℕ)
        → u.actor_context.rider_id ≡ r
        → Steps db (handle_transition sv now u input cfg db).1
    by_rider none e = Steps-same db _ (ground arith)
    by_rider (some r) e = by_delivery r (find_rider_delivery input.delivery_id r db) refl e

resolve_for-orders :
    (now : ℕ) (d : Option DeliveryDetail) (r : ℕ) (outcome : AttemptOutcome) (db : Db)
    → (resolve_for now d r outcome db).1.orders ≡ db.orders
unfolding resolve_for resolve_dispatch_attempt
resolve_for-orders now none r outcome db = refl
resolve_for-orders now (some d) r outcome db = ground arith

pub accept_delivery-Steps :
    (sv : Services) (now : ℕ) (u : User) (input : RiderInput) (db : Db)
    → Steps db (accept_current_rider_delivery_request sv now u input db).1
unfolding accept_current_rider_delivery_request
accept_delivery-Steps sv now u input db = by_rider u.actor_context.rider_id refl
  where
    by_rider :
        (r : Option ℕ)
        → u.actor_context.rider_id ≡ r
        → Steps db (accept_current_rider_delivery_request sv now u input db).1
    by_rider none e = Steps-same db _ (ground arith)
    by_rider (some r) e =
        let before = find_rider_delivery input.delivery_id r db in
        let middle = (handle_transition sv now u input accept_config db).1 in
        Steps-then-same (handle_transition-Steps sv now u input accept_config db accept-IsSoundFor)
          (accept_current_rider_delivery_request sv now u input db).1
          (ground (arith, resolve_for-orders now before r AttemptOutcome.accepted middle))

add_job-orders : (sv : Services) (j : Job) (db : Db) → (add_job sv j db).1.orders ≡ db.orders
unfolding add_job
add_job-orders sv j db = ground arith

pub reject_delivery-Steps :
    (sv : Services) (now : ℕ) (u : User) (input : RiderInput) (db : Db)
    → Steps db (reject_current_rider_delivery_request sv now u input db).1
unfolding reject_current_rider_delivery_request add_job
reject_delivery-Steps sv now u input db = by_rider u.actor_context.rider_id refl
  where
    by_rider :
        (r : Option ℕ)
        → u.actor_context.rider_id ≡ r
        → Steps db (reject_current_rider_delivery_request sv now u input db).1
    by_rider none e = Steps-same db _ (ground arith)
    by_rider (some r) e =
        let before = find_rider_delivery input.delivery_id r db in
        let middle = (handle_transition sv now u input reject_config db).1 in
        Steps-then-same (handle_transition-Steps sv now u input reject_config db reject-IsSoundFor)
          (reject_current_rider_delivery_request sv now u input db).1
          (ground (arith, resolve_for-orders now before r AttemptOutcome.rejected middle))

commit_rider_cancel-Steps :
    (now : ℕ) (u : User) (input : RiderInput) (d : DeliveryDetail) (db : Db)
    → IsReadFrom db d
    → can_rider_cancel_pre_pickup u d ≡ true
    → Steps db (commit_rider_cancel now u input d db)
unfolding commit_rider_cancel update_delivery
commit_rider_cancel-Steps now u input d db read allowed =
    Steps-trans (update_delivery-Steps d.delivery.id _ db) (
      update_order_status-Steps d.delivery.order_id _ _ d.order read refl
        (give_up-Edge u d.order.delivery_type d.order.status d refl allowed))

pub cancel_delivery-Steps :
    (sv : Services) (now : ℕ) (u : User) (input : RiderInput) (db : Db)
    → Steps db (cancel_current_rider_delivery sv now u input db).1
unfolding cancel_current_rider_delivery publish_order_event add_job
cancel_delivery-Steps sv now u input db = by_rider u.actor_context.rider_id refl
  where
    by_delivery :
        (r : ℕ) (o : Option DeliveryDetail)
        → find_rider_delivery input.delivery_id r db ≡ o
        → u.actor_context.rider_id ≡ some r
        → Steps db (cancel_current_rider_delivery sv now u input db).1
    by_delivery r none missing e = Steps-same db _ (ground arith)
    by_delivery r (some d) found e =
        commit_or_same-Steps (can_rider_cancel_pre_pickup u d ≡ true) db
          (commit_rider_cancel now u input d db) (cancel_current_rider_delivery sv now u input db).1
          (ground arith)
          (commit_rider_cancel-Steps now u input d db
            (find_rider_delivery-IsReadFrom input.delivery_id r db d found))

    by_rider :
        (r : Option ℕ)
        → u.actor_context.rider_id ≡ r
        → Steps db (cancel_current_rider_delivery sv now u input db).1
    by_rider none e = Steps-same db _ (ground arith)
    by_rider (some r) e = by_delivery r (find_rider_delivery input.delivery_id r db) refl e
