-- ===== src/Flow/Merchant.antt =====
-- The merchant's handlers against the diagram.
use wer_te_backend.Prelude.{ℕ, zero, suc, true, Option, none, some, ◌≡◌, ◌⊎◌, refl, arith}
use wer_te_backend.Domain.Enums.{OrderStatus, order_is}
use wer_te_backend.Domain.Entities.{User, Order}
use wer_te_backend.Domain.Store.{Db, Action, Result, ◌>>◌}
use wer_te_backend.Orders.View.{
  OrderSummary, find_order, find_merchant_order, build_order_summary, update_order_status,
}
use wer_te_backend.Orders.Policy.{is_pickup}
use wer_te_backend.Orders.Effects.{
  Services, run_best_effort, publish_order_event, add_job, publish_restored_inventory_alerts,
}
use wer_te_backend.Orders.Merchant.{
  ActionInput, MerchantActionConfig, auto_preparing_config, auto_ready_config, auto_input,
  merchant_update, commit_merchant_action, Handler, auto_advance_pickup_to_ready, after_acceptance,
  start_dispatch, if_accepted, map_status_to_system_message_code, after_merchant_commit,
  transition_merchant_order, merchant_action_body, handle_merchant_action,
}
use wer_te_backend.Flow.Diagram.{Edge}
use wer_te_backend.Flow.Progress.{Steps, Steps-same, Steps-trans, update_order_status-Steps}
use wer_te_backend.Flow.Rules.{
  Steps-then-same, Steps-refl, bind-Steps, if-Steps, commit_or_same-Steps, settle-Steps,
  release_inventory-Steps,
}
use wer_te_backend.Flow.MerchantPolicies.{IsSound, prepare-IsSound, ready-IsSound}

commit_merchant_action-Steps :
    (now : ℕ) (u : User) (input : ActionInput) (cfg : MerchantActionConfig) (order : Order)
    (db : Db)
    → find_order input.order_id db ≡ some order
    → Edge order.delivery_type order.status cfg.target_status
    → Steps db (commit_merchant_action now u input cfg order db)
unfolding commit_merchant_action
commit_merchant_action-Steps now u input cfg order db found edge =
    let updated = update_order_status input.order_id (merchant_update u input cfg order) db in
    Steps-trans (update_order_status-Steps input.order_id _ db order found refl edge) (
      Steps-trans (release_inventory-Steps order cfg.target_status updated)
        (settle-Steps (order_is cfg.target_status OrderStatus.delivered) input.order_id now _))

-- What the handler assumes of its own call.
abbrev pub Follows : Handler → Type 0
Follows again =
    (input : ActionInput) (cfg : MerchantActionConfig) (db : Db)
    → IsSound cfg
    → Steps db (again input cfg db).1

abbrev done : Action (Unit {0})
done db = (Result.ok tt, db)

auto_advance-Steps :
    (again : Handler) (input : ActionInput) (db : Db)
    → Follows again
    → Steps db (auto_advance_pickup_to_ready again input db).1
unfolding auto_advance_pickup_to_ready
auto_advance-Steps again input db follows =
    let call = auto_input input in
    bind-Steps (again call auto_preparing_config) (λ _. again call auto_ready_config >> done) db
      (follows call auto_preparing_config db prepare-IsSound)
      (λ v db1.
        bind-Steps (again call auto_ready_config) (λ _. done) db1
          (follows call auto_ready_config db1 ready-IsSound) (λ w db2. Steps-refl db2))

start_dispatch-Steps :
    (sv : Services) (input : ActionInput) (db : Db) → Steps db (start_dispatch sv input db).1
unfolding start_dispatch run_best_effort add_job
start_dispatch-Steps sv input db = Steps-same db (start_dispatch sv input db).1 (ground arith)

if_accepted-Steps :
    (again : Handler) (sv : Services) (input : ActionInput) (cfg : MerchantActionConfig)
    (detail : OrderSummary) (db : Db)
    → Follows again
    → Steps db (if_accepted again sv input cfg detail db).1
unfolding if_accepted after_acceptance
if_accepted-Steps again sv input cfg detail db follows =
    if-Steps (order_is cfg.target_status OrderStatus.merchant_accepted)
      (after_acceptance again sv input detail) done db
      (if-Steps (is_pickup detail.delivery_type) (auto_advance_pickup_to_ready again input)
        (start_dispatch sv input) db (auto_advance-Steps again input db follows)
        (start_dispatch-Steps sv input db))
      (Steps-refl db)

after_merchant_commit-Steps :
    (again : Handler) (sv : Services) (input : ActionInput) (cfg : MerchantActionConfig)
    (detail : OrderSummary) (db : Db)
    → Follows again
    → Steps db (after_merchant_commit again sv input cfg detail db).1
unfolding after_merchant_commit run_best_effort publish_order_event
    publish_restored_inventory_alerts
after_merchant_commit-Steps again sv input cfg detail db follows =
    let code = map_status_to_system_message_code cfg.target_status in
    let db1 = (publish_order_event sv input.order_id code db).1 in
    Steps-trans (Steps-same db db1 (ground arith)) (
      bind-Steps (if_accepted again sv input cfg detail)
        (λ _. run_best_effort (publish_restored_inventory_alerts sv)) db1
        (if_accepted-Steps again sv input cfg detail db1 follows) (λ w db2. Steps-refl db2))

summary-Edge :
    (u : User) (cfg : MerchantActionConfig) (order : Order) (db : Db)
    → IsSound cfg
    → cfg.can_transition u (build_order_summary db order) ≡ true
    → Edge order.delivery_type order.status cfg.target_status
unfolding build_order_summary
summary-Edge u cfg order db sound allowed = sound u (build_order_summary db order) allowed

-- What an allowed transition does: the commit, and then the side effects.
abbrev committed :
    Handler → Services → ℕ → User → ActionInput → MerchantActionConfig → Order → Db → Db
committed again sv now u input cfg order db =
    (after_merchant_commit again sv input cfg (build_order_summary db order)
      (commit_merchant_action now u input cfg order db)).1

transition_cases :
    (again : Handler) (sv : Services) (now : ℕ) (u : User) (input : ActionInput)
    (cfg : MerchantActionConfig) (order : Order) (db : Db)
    → ((transition_merchant_order again sv now u input cfg order db).1.orders ≡ db.orders)
      ⊎ ((cfg.can_transition u (build_order_summary db order) ≡ true)
          × ((transition_merchant_order again sv now u input cfg order db).1.orders
              ≡ (committed again sv now u input cfg order db).orders))
unfolding transition_merchant_order
transition_cases again sv now u input cfg order db = ground arith

transition-Steps :
    (again : Handler) (sv : Services) (now : ℕ) (u : User) (input : ActionInput)
    (cfg : MerchantActionConfig) (order : Order) (db : Db)
    → Follows again
    → IsSound cfg
    → find_order input.order_id db ≡ some order
    → Steps db (transition_merchant_order again sv now u input cfg order db).1
transition-Steps again sv now u input cfg order db follows sound found =
    commit_or_same-Steps (cfg.can_transition u (build_order_summary db order) ≡ true) db
      (committed again sv now u input cfg order db)
      (transition_merchant_order again sv now u input cfg order db).1
      (transition_cases again sv now u input cfg order db)
      (λ allowed.
        Steps-trans
          (commit_merchant_action-Steps now u input cfg order db found
            (summary-Edge u cfg order db sound allowed))
          (after_merchant_commit-Steps again sv input cfg _ _ follows))

find_merchant_order-found :
    (k m : ℕ) (db : Db) (order : Order)
    → find_merchant_order k m db ≡ some order
    → find_order k db ≡ some order
unfolding find_merchant_order
find_merchant_order-found k m db order e = ground arith

body-Steps :
    (again : Handler) (sv : Services) (now : ℕ) (u : User) (input : ActionInput)
    (cfg : MerchantActionConfig) (db : Db)
    → Follows again
    → IsSound cfg
    → Steps db (merchant_action_body again sv now u input cfg db).1
unfolding merchant_action_body
body-Steps again sv now u input cfg db follows sound = by_merchant u.actor_context.merchant_id refl
  where
    by_order :
        (m : ℕ) (o : Option Order)
        → find_merchant_order input.order_id m db ≡ o
        → u.actor_context.merchant_id ≡ some m
        → Steps db (merchant_action_body again sv now u input cfg db).1
    by_order m none missing e = Steps-same db _ (ground arith)
    by_order m (some order) found e =
        Steps-then-same
          (transition-Steps again sv now u input cfg order db follows sound
            (find_merchant_order-found input.order_id m db order found))
          (merchant_action_body again sv now u input cfg db).1 (ground arith)

    by_merchant :
        (m : Option ℕ)
        → u.actor_context.merchant_id ≡ m
        → Steps db (merchant_action_body again sv now u input cfg db).1
    by_merchant none e = Steps-same db _ (ground arith)
    by_merchant (some m) e = by_order m (find_merchant_order input.order_id m db) refl e

-- Whatever fuel is given, a call with a sound configuration follows the diagram.
pub handle_merchant_action-Steps :
    (fuel : ℕ) (sv : Services) (now : ℕ) (u : User) → Follows (handle_merchant_action fuel sv now u)
unfolding handle_merchant_action
handle_merchant_action-Steps zero sv now u input cfg db sound = Steps-refl db
handle_merchant_action-Steps (suc fuel) sv now u input cfg db sound =
    body-Steps (handle_merchant_action fuel sv now u) sv now u input cfg db
      (handle_merchant_action-Steps fuel sv now u) sound
