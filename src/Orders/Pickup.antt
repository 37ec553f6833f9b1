-- ===== src/Orders/Pickup.antt =====
-- What the acceptance of a pickup order leads to.
use mathlib.Core.Path.{subst}
use wer_te_backend.Prelude.{
  ℕ, suc, true, false, some, ◌≡◌, refl, sym, find_by_sound, ◌∙◌, arith, ◌==◌,
}
use wer_te_backend.Domain.Enums.{OrderStatus, order_is}
use wer_te_backend.Domain.Entities.{User, Order}
use wer_te_backend.Domain.Store.{Db, Result, MessageCode}
use wer_te_backend.Orders.View.{
  OrderSummary, StatusUpdate, find_order, find_merchant_order, build_order_summary, apply_status,
  update_order_status, find_order-update_order_status,
}
use wer_te_backend.Orders.Policy.{
  is_pickup, can_merchant_accept, can_mark_preparing, can_mark_ready, has_merchant_order_access,
}
use wer_te_backend.Orders.Effects.{
  Services, OrderView, run_best_effort, publish_order_event, publish_restored_inventory_alerts,
}
use wer_te_backend.Orders.Merchant.{
  ActionInput, MerchantActionConfig, accept_config, auto_preparing_config, auto_ready_config,
  auto_input, merchant_update, commit_merchant_action, Handler, auto_advance_pickup_to_ready,
  after_acceptance, if_accepted, after_merchant_commit, transition_merchant_order,
  merchant_action_body, handle_merchant_action, accept_current_merchant_order,
  map_status_to_system_message_code,
}
use wer_te_backend.Orders.Outcome.{handle_merchant_action-ok}
use wer_te_backend.Flow.Rules.{release_inventory-orders}

-- A plain step: the handler of a configuration other than an acceptance writes the new status.
step :
    (fuel : ℕ) (sv : Services) (now : ℕ) (u : User) (input : ActionInput)
    (cfg : MerchantActionConfig) (m : ℕ) (o : Order) (db : Db)
    → u.actor_context.merchant_id ≡ some m
    → (o.merchant_id == m) ≡ true
    → find_order input.order_id db ≡ some o
    → order_is o.status cfg.target_status ≡ false
    → cfg.can_transition u (build_order_summary db o) ≡ true
    → order_is cfg.target_status OrderStatus.merchant_accepted ≡ false
    → order_is cfg.target_status OrderStatus.delivered ≡ false
    → (o.id == input.order_id) ≡ true
    → find_order input.order_id (handle_merchant_action (suc fuel) sv now u input cfg db).1
      ≡ some (apply_status (merchant_update u input cfg o) o)
unfolding handle_merchant_action merchant_action_body find_merchant_order transition_merchant_order
    after_merchant_commit if_accepted run_best_effort publish_order_event
    publish_restored_inventory_alerts build_order_summary commit_merchant_action
step fuel sv now u input cfg m o db merchant own found moves allowed plain still ids = ground (
  arith,
  found,
  own,
  merchant,
  find_order-update_order_status input.order_id input.order_id (merchant_update u input cfg o) db,
  release_inventory-orders o cfg.target_status
      (update_order_status input.order_id (merchant_update u input cfg o) db),
)

-- The commit of an acceptance.
accepted :
    (now : ℕ) (u : User) (input : ActionInput) (o : Order) (db : Db)
    → find_order input.order_id db ≡ some o
    → (o.id == input.order_id) ≡ true
    → find_order input.order_id (commit_merchant_action now u input accept_config o db)
      ≡ some (apply_status (merchant_update u input accept_config o) o)
unfolding commit_merchant_action
accepted now u input o db found ids = ground (
  arith,
  found,
  find_order-update_order_status input.order_id input.order_id
      (merchant_update u input accept_config o) db,
  release_inventory-orders o OrderStatus.merchant_accepted
      (update_order_status input.order_id (merchant_update u input accept_config o) db),
)

access_kept :
    (u : User) (su : StatusUpdate) (o : Order) (db db' : Db)
    → has_merchant_order_access u (build_order_summary db' (apply_status su o))
      ≡ has_merchant_order_access u (build_order_summary db o)
unfolding has_merchant_order_access build_order_summary apply_status
access_kept u su o db db' = refl

can_prepare_pickup :
    (u : User) (o : Order) (db : Db)
    → has_merchant_order_access u (build_order_summary db o) ≡ true
    → is_pickup o.delivery_type ≡ true
    → order_is o.status OrderStatus.merchant_accepted ≡ true
    → can_mark_preparing u (build_order_summary db o) ≡ true
unfolding can_mark_preparing build_order_summary
can_prepare_pickup u o db access pickup status = ground (arith, access, pickup, status)

can_finish :
    (u : User) (o : Order) (db : Db)
    → has_merchant_order_access u (build_order_summary db o) ≡ true
    → order_is o.status OrderStatus.preparing ≡ true
    → can_mark_ready u (build_order_summary db o) ≡ true
unfolding can_mark_ready build_order_summary
can_finish u o db access status = ground (arith, access, status)

advance_is :
    (again : Handler) (input : ActionInput) (db : Db) (v : OrderView)
    → (again (auto_input input) auto_preparing_config db).0 ≡ Result.ok v
    → (auto_advance_pickup_to_ready again input db).1
      ≡ (again
          (auto_input input)
          auto_ready_config
          (again (auto_input input) auto_preparing_config db).1).1
unfolding auto_advance_pickup_to_ready
advance_is again input db v h = ground (arith, h)

owned :
    (k m : ℕ) (o : Order) (db : Db)
    → find_order k db ≡ some o
    → (o.merchant_id == m) ≡ true
    → find_merchant_order k m db ≡ some o
unfolding find_merchant_order
owned k m o db found own = ground (arith, found, own)

-- The two automatic steps.
advanced :
    (sv : Services) (now : ℕ) (u : User) (input : ActionInput) (m : ℕ) (o : Order) (db : Db)
    → u.actor_context.merchant_id ≡ some m
    → (o.merchant_id == m) ≡ true
    → (o.id == input.order_id) ≡ true
    → find_order input.order_id db ≡ some o
    → o.status ≡ OrderStatus.merchant_accepted
    → is_pickup o.delivery_type ≡ true
    → has_merchant_order_access u (build_order_summary db o) ≡ true
    → (o' : Order) × (find_order input.order_id
          (auto_advance_pickup_to_ready (handle_merchant_action 1 sv now u) input db).1
        ≡ some o')
      × (o'.status ≡ OrderStatus.ready)
unfolding apply_status
advanced sv now u input m o db merchant own ids found status pickup access =
    let call = auto_input input in
    let su = merchant_update u call auto_preparing_config o in
    let o2 = apply_status su o in
    let su2 = merchant_update u call auto_ready_config o2 in
    let allowed = can_prepare_pickup u o db access pickup (rw status refl) in
    let db2 = (handle_merchant_action 1 sv now u call auto_preparing_config db).1 in
    let found2 : find_order call.order_id db2 ≡ some o2 =
      step 0 sv now u call auto_preparing_config m o db merchant own found (rw status refl) allowed
        refl refl ids in
    let access2 : has_merchant_order_access u (build_order_summary db2 o2) ≡ true =
      access_kept u su o db db2 ∙ access in
    let found3 : find_order call.order_id
          (handle_merchant_action 1 sv now u call auto_ready_config db2).1
        ≡ some (apply_status su2 o2) =
      step 0 sv now u call auto_ready_config m o2 db2 merchant own found2 refl
        (can_finish u o2 db2 access2 refl) refl refl ids in
    let (v, answered, _) =
      handle_merchant_action-ok 0 sv now u call auto_preparing_config m o db merchant
        (owned input.order_id m o db found own) (rw status refl) allowed refl in
    (
      apply_status su2 o2,
      subst (λ x. find_order input.order_id x ≡ some (apply_status su2 o2))
          (sym (advance_is (handle_merchant_action 1 sv now u) input db v answered)) found3,
      refl,
    )

body_is :
    (again : Handler) (sv : Services) (now : ℕ) (u : User) (input : ActionInput) (m : ℕ) (o : Order)
    (db : Db)
    → u.actor_context.merchant_id ≡ some m
    → find_merchant_order input.order_id m db ≡ some o
    → (merchant_action_body again sv now u input accept_config db).1.orders
      ≡ (transition_merchant_order again sv now u input accept_config o db).1.orders
unfolding merchant_action_body
body_is again sv now u input m o db merchant found = ground (arith, merchant, found)

transition_is :
    (again : Handler) (sv : Services) (now : ℕ) (u : User) (input : ActionInput) (o : Order)
    (db : Db)
    → o.status ≡ OrderStatus.placed
    → can_merchant_accept u (build_order_summary db o) ≡ true
    → (transition_merchant_order again sv now u input accept_config o db).1.orders
      ≡ (after_merchant_commit again sv input accept_config
          (build_order_summary db o)
          (commit_merchant_action now u input accept_config o db)).1.orders
unfolding transition_merchant_order build_order_summary
transition_is again sv now u input o db status allowed = ground (arith, status, allowed)

after_is :
    (again : Handler) (sv : Services) (input : ActionInput) (d : OrderSummary) (db : Db)
    → is_pickup d.delivery_type ≡ true
    → (after_merchant_commit again sv input accept_config d db).1.orders
      ≡ (auto_advance_pickup_to_ready again input
          (publish_order_event sv input.order_id MessageCode.order_accepted db).1).1.orders
unfolding after_merchant_commit if_accepted after_acceptance run_best_effort
    publish_restored_inventory_alerts map_status_to_system_message_code
after_is again sv input d db pickup = ground (arith, pickup)

accept_is :
    (sv : Services) (now : ℕ) (u : User) (input : ActionInput) (m : ℕ) (o : Order) (db : Db)
    → u.actor_context.merchant_id ≡ some m
    → find_merchant_order input.order_id m db ≡ some o
    → o.status ≡ OrderStatus.placed
    → is_pickup o.delivery_type ≡ true
    → can_merchant_accept u (build_order_summary db o) ≡ true
    → let committed = commit_merchant_action now u input accept_config o db in
      let published =
        (publish_order_event sv input.order_id MessageCode.order_accepted committed).1 in
      (accept_current_merchant_order sv now u input db).1.orders
      ≡ (auto_advance_pickup_to_ready (handle_merchant_action 1 sv now u) input published).1.orders
unfolding accept_current_merchant_order handle_merchant_action build_order_summary
accept_is sv now u input m o db merchant found status pickup allowed =
    let again : Handler = handle_merchant_action 1 sv now u in
    let committed = commit_merchant_action now u input accept_config o db in
    body_is again sv now u input m o db merchant found
    ∙ transition_is again sv now u input o db status allowed
    ∙ after_is again sv input (build_order_summary db o) committed pickup

publish-orders :
    (sv : Services) (k : ℕ) (c : MessageCode) (db : Db)
    → (publish_order_event sv k c db).1.orders ≡ db.orders
unfolding publish_order_event
publish-orders sv k c db = ground arith

accept_access :
    (u : User) (o : Order) (db : Db)
    → can_merchant_accept u (build_order_summary db o) ≡ true
    → has_merchant_order_access u (build_order_summary db o) ≡ true
unfolding can_merchant_accept
accept_access u o db h = ground arith

-- When a merchant accepts a placed pickup order of theirs, and the policy allows it, the order is READY
-- afterwards, whichever of the message, queue and alert services fail.
pub accept_current_merchant_order-pickup :
    (sv : Services) (now : ℕ) (u : User) (input : ActionInput) (m : ℕ) (o : Order) (db : Db)
    → u.actor_context.merchant_id ≡ some m
    → (o.merchant_id == m) ≡ true
    → find_order input.order_id db ≡ some o
    → o.status ≡ OrderStatus.placed
    → is_pickup o.delivery_type ≡ true
    → can_merchant_accept u (build_order_summary db o) ≡ true
    → (o' : Order) × (find_order input.order_id (accept_current_merchant_order sv now u input db).1
        ≡ some o')
      × (o'.status ≡ OrderStatus.ready)
unfolding apply_status
accept_current_merchant_order-pickup sv now u input m o db merchant own found status pickup
      allowed =
    let ids : (o.id == input.order_id) ≡ true =
      find_by_sound (λ r. r.id == input.order_id) db.orders found in
    let su = merchant_update u input accept_config o in
    let committed = commit_merchant_action now u input accept_config o db in
    let published =
      (publish_order_event sv input.order_id MessageCode.order_accepted committed).1 in
    let (o', after, ready) =
      advanced sv now u input m (apply_status su o) published merchant own ids
        (rw (publish-orders sv input.order_id MessageCode.order_accepted committed)
          (accepted now u input o db found ids))
        refl pickup (access_kept u su o db published ∙ accept_access u o db allowed) in
    (
      o',
      rw
          (accept_is sv now u input m o db merchant (owned input.order_id m o db found own) status
            pickup allowed)
          after,
      ready,
    )
