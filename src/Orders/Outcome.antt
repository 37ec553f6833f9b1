-- ===== src/Orders/Outcome.antt =====
-- What a merchant's action answers.
use wer_te_backend.Prelude.{ℕ, suc, true, false, ◌&&◌, some, ◌≡◌, refl, arith}
use wer_te_backend.Domain.Enums.{OrderStatus, order_is}
use wer_te_backend.Domain.Entities.{User, Order}
use wer_te_backend.Domain.Store.{Db, Result}
use wer_te_backend.Orders.View.{find_merchant_order, build_order_summary, apply_status}
use wer_te_backend.Orders.Policy.{is_pickup}
use wer_te_backend.Orders.Effects.{Services, OrderView, run_best_effort, attach_available_actions}
use wer_te_backend.Orders.Merchant.{
  ActionInput, MerchantActionConfig, merchant_update, commit_merchant_action, Handler,
  after_acceptance, start_dispatch, if_accepted, after_merchant_commit, transition_merchant_order,
  merchant_action_body, handle_merchant_action,
}

after_merchant_commit-ok :
    (again : Handler) (sv : Services) (input : ActionInput) (cfg : MerchantActionConfig)
    (order : Order) (db db' : Db)
    → (order_is cfg.target_status OrderStatus.merchant_accepted && is_pickup order.delivery_type)
      ≡ false
    → (after_merchant_commit again sv input cfg (build_order_summary db order) db').0 ≡ Result.ok tt
unfolding after_merchant_commit if_accepted after_acceptance start_dispatch run_best_effort
    build_order_summary
after_merchant_commit-ok again sv input cfg order db db' h = ground arith

-- An allowed action of a merchant on an order of theirs answers with the order in its new status,
-- whichever of the message, queue and alert services fail, unless it accepts a pickup order.
pub handle_merchant_action-ok :
    (fuel : ℕ) (sv : Services) (now : ℕ) (u : User) (input : ActionInput)
    (cfg : MerchantActionConfig) (m : ℕ) (order : Order) (db : Db)
    → u.actor_context.merchant_id ≡ some m
    → find_merchant_order input.order_id m db ≡ some order
    → order_is order.status cfg.target_status ≡ false
    → cfg.can_transition u (build_order_summary db order) ≡ true
    → (order_is cfg.target_status OrderStatus.merchant_accepted && is_pickup order.delivery_type)
      ≡ false
    → (v : OrderView) × ((handle_merchant_action (suc fuel) sv now u input cfg db).0 ≡ Result.ok v)
      × (v.order.status ≡ cfg.target_status)
unfolding handle_merchant_action merchant_action_body transition_merchant_order build_order_summary
    apply_status attach_available_actions
handle_merchant_action-ok fuel sv now u input cfg m order db merchant found moves allowed plain = (
  attach_available_actions u (
      build_order_summary (commit_merchant_action now u input cfg order db)
        (apply_status (merchant_update u input cfg order) order)),
  ground (
    arith,
    merchant,
    found,
    moves,
    allowed,
    after_merchant_commit-ok (handle_merchant_action fuel sv now u) sv input cfg order db
        (commit_merchant_action now u input cfg order db) plain,
  ),
  refl,
)
