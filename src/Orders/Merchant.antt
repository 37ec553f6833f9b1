-- ===== src/Orders/Merchant.antt =====
-- orders/services/merchant-order-handling.service.ts.
use wer_te_backend.Prelude.{
  ℕ, zero, suc, ◌*◌, Bool, Option, none, some, if◌then◌else◌, Text, codes, or_else,
}
use wer_te_backend.Domain.Enums.{OrderStatus, order_is}
use wer_te_backend.Domain.Entities.{User, Order}
use wer_te_backend.Domain.Store.{
  Db, Action, Error, Job, MessageCode, ◌>>=◌, ◌>>◌, pure, throw, gets, modify, require,
  throw_unless, transaction,
}
use wer_te_backend.Orders.View.{
  OrderSummary, find_merchant_order, build_order_summary, update_order_status, apply_status,
  StatusUpdate,
}
use wer_te_backend.Orders.Policy.{
  is_pickup, can_merchant_accept, can_merchant_reject, can_mark_preparing, can_mark_ready,
  can_merchant_confirm_pickup,
}
use wer_te_backend.Orders.Effects.{
  Services, OrderView, run_best_effort, publish_order_event, add_job,
  publish_restored_inventory_alerts, release_inventory, settle_cash_payment,
  attach_available_actions,
}

-- `MerchantOrderActionInput`
pub record ActionInput : Type 0 where
  pub order_id : ℕ
  pub reason_code : Option Text
  pub note : Option Text

-- `MerchantActionConfig`
pub record MerchantActionConfig : Type 0 where
  pub target_status : OrderStatus
  pub default_reason_code : Text
  pub can_transition : User → OrderSummary → Bool

-- The configurations of the five actions, and of the two that `_autoAdvancePickupToReady` makes.
abbrev pub accept_config : MerchantActionConfig
accept_config = record {
  target_status = OrderStatus.merchant_accepted;
  default_reason_code = codes "merchant_accepted";
  can_transition = can_merchant_accept;
}

abbrev pub reject_config : MerchantActionConfig
reject_config = record {
  target_status = OrderStatus.merchant_rejected;
  default_reason_code = codes "merchant_rejected";
  can_transition = can_merchant_reject;
}

abbrev pub preparing_config : MerchantActionConfig
preparing_config = record {
  target_status = OrderStatus.preparing;
  default_reason_code = codes "merchant_preparing";
  can_transition = can_mark_preparing;
}

abbrev pub ready_config : MerchantActionConfig
ready_config = record {
  target_status = OrderStatus.ready;
  default_reason_code = codes "merchant_ready";
  can_transition = can_mark_ready;
}

abbrev pub confirm_pickup_config : MerchantActionConfig
confirm_pickup_config = record {
  target_status = OrderStatus.delivered;
  default_reason_code = codes "customer_pickup_confirmed";
  can_transition = can_merchant_confirm_pickup;
}

abbrev pub auto_advance_reason : Text
auto_advance_reason = codes "auto_pickup_advance"

abbrev pub auto_preparing_config : MerchantActionConfig
auto_preparing_config = record preparing_config { default_reason_code = auto_advance_reason }

abbrev pub auto_ready_config : MerchantActionConfig
auto_ready_config = record ready_config { default_reason_code = auto_advance_reason }

-- `mapStatusToSystemMessageCode`
unfoldable pub map_status_to_system_message_code : OrderStatus → MessageCode
map_status_to_system_message_code OrderStatus.merchant_accepted = MessageCode.order_accepted
map_status_to_system_message_code OrderStatus.merchant_rejected = MessageCode.order_rejected
map_status_to_system_message_code OrderStatus.preparing = MessageCode.order_preparing
map_status_to_system_message_code OrderStatus.ready = MessageCode.order_ready
map_status_to_system_message_code OrderStatus.delivered = MessageCode.order_delivered
map_status_to_system_message_code _ = MessageCode.admin_intervention

abbrev pub merchant_update : User → ActionInput → MerchantActionConfig → Order → StatusUpdate
merchant_update u input cfg order = record {
  status = cfg.target_status;
  from_status = order.status;
  changed_by_user_id = u.user_id;
  reason_code = some (or_else input.reason_code cfg.default_reason_code);
  note = input.note;
}

-- What the transaction of `handleMerchantAction` writes.
unfoldable pub commit_merchant_action :
    ℕ → User → ActionInput → MerchantActionConfig → Order → Db → Db
commit_merchant_action now u input cfg order db =
    let updated = update_order_status input.order_id (merchant_update u input cfg order) db in
    let released = release_inventory order cfg.target_status updated in
    if order_is cfg.target_status OrderStatus.delivered
    then settle_cash_payment input.order_id now released
    else released

-- How the handler calls itself, for the two steps of a pickup order.
abbrev pub Handler : Type 0
Handler = ActionInput → MerchantActionConfig → Action OrderView

abbrev pub auto_input : ActionInput → ActionInput
auto_input input = record {
  order_id = input.order_id;
  reason_code = some auto_advance_reason;
  note = none;
}

unfoldable pub auto_advance_pickup_to_ready : Handler → ActionInput → Action (Unit {0})
auto_advance_pickup_to_ready again input = do
  again (auto_input input) auto_preparing_config
  again (auto_input input) auto_ready_config
  pure tt

unfoldable pub start_dispatch : Services → ActionInput → Action (Unit {0})
start_dispatch sv input = do
  run_best_effort (add_job sv (Job.auto_dispatch_order input.order_id 500))
  run_best_effort (add_job sv (Job.rider_timeout input.order_id (30 * 60 * 1000)))

-- After an accepted order: a pickup goes on to READY, a delivery is dispatched.
unfoldable pub after_acceptance :
    Handler → Services → ActionInput → OrderSummary → Action (Unit {0})
after_acceptance again sv input detail =
    if is_pickup detail.delivery_type
    then auto_advance_pickup_to_ready again input
    else start_dispatch sv input

unfoldable pub if_accepted :
    Handler → Services → ActionInput → MerchantActionConfig → OrderSummary → Action (Unit {0})
if_accepted again sv input cfg detail =
    if order_is cfg.target_status OrderStatus.merchant_accepted
    then after_acceptance again sv input detail
    else pure tt

-- The side effects after the commit.
unfoldable pub after_merchant_commit :
    Handler → Services → ActionInput → MerchantActionConfig → OrderSummary → Action (Unit {0})
after_merchant_commit again sv input cfg detail = do
  run_best_effort
      (publish_order_event sv input.order_id (map_status_to_system_message_code cfg.target_status))
  if_accepted again sv input cfg detail
  run_best_effort (publish_restored_inventory_alerts sv)

-- The body of `handleMerchantAction`, once the order is found.
unfoldable pub transition_merchant_order :
    Handler → Services → ℕ → User → ActionInput → MerchantActionConfig → Order → Action OrderView
transition_merchant_order again sv now u input cfg order = do
  detail ← gets (λ db. build_order_summary db order)
  (if order_is detail.status cfg.target_status then pure (attach_available_actions u detail) else do
    throw_unless (cfg.can_transition u detail) Error.conflict
    transaction (modify (commit_merchant_action now u input cfg order))
    updated ←
        gets (λ db. build_order_summary db (apply_status (merchant_update u input cfg order) order))
    after_merchant_commit again sv input cfg detail
    pure (attach_available_actions u updated))

unfoldable pub merchant_action_body : Handler → Services → ℕ → User → Handler
merchant_action_body again sv now u input cfg = do
  merchant_id ← require u.actor_context.merchant_id Error.forbidden
  found ← gets (find_merchant_order input.order_id merchant_id)
  order ← require found Error.not_found
  transition_merchant_order again sv now u input cfg order

-- `handleMerchantAction`; a call makes calls of its own only one deep.
unfoldable pub handle_merchant_action : ℕ → Services → ℕ → User → Handler
handle_merchant_action zero sv now u input cfg = throw Error.infrastructure
handle_merchant_action (suc fuel) sv now u input cfg =
    merchant_action_body (handle_merchant_action fuel sv now u) sv now u input cfg

unfoldable pub accept_current_merchant_order : Services → ℕ → User → ActionInput → Action OrderView
accept_current_merchant_order sv now u input = handle_merchant_action 2 sv now u input accept_config

unfoldable pub reject_current_merchant_order : Services → ℕ → User → ActionInput → Action OrderView
reject_current_merchant_order sv now u input = handle_merchant_action 2 sv now u input reject_config

unfoldable pub mark_preparing_current_merchant_order :
    Services → ℕ → User → ActionInput → Action OrderView
mark_preparing_current_merchant_order sv now u input =
    handle_merchant_action 2 sv now u input preparing_config

unfoldable pub mark_ready_current_merchant_order :
    Services → ℕ → User → ActionInput → Action OrderView
mark_ready_current_merchant_order sv now u input =
    handle_merchant_action 2 sv now u input ready_config

unfoldable pub confirm_pickup_current_merchant_order :
    Services → ℕ → User → ActionInput → Action OrderView
confirm_pickup_current_merchant_order sv now u input =
    handle_merchant_action 2 sv now u input confirm_pickup_config
