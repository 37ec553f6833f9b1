-- ===== src/Flow/Commands.antt =====
-- What reaches the orders from outside, as one type: the submission of a checkout, the requests of
-- customers, merchants, riders and admins (without the override of a status), the end of a payment,
-- and the jobs of the queue.
use wer_te_backend.Prelude.{Bool, ℕ, true, List, [], ◌∷◌, none, some, ◌≡◌}
use wer_te_backend.Domain.Enums.{OrderStatus}
use wer_te_backend.Domain.Entities.{User, Order}
use wer_te_backend.Domain.Store.{Db}
use wer_te_backend.Orders.View.{find_order}
use wer_te_backend.Orders.Effects.{Services}
use wer_te_backend.Orders.Merchant.{
  ActionInput, accept_current_merchant_order, reject_current_merchant_order,
  mark_preparing_current_merchant_order, mark_ready_current_merchant_order,
  confirm_pickup_current_merchant_order, accept_config, reject_config, preparing_config,
  ready_config, confirm_pickup_config,
}
use wer_te_backend.Orders.Cancellation.{
  cancel_current_customer_order, handle_merchant_timeout, handle_rider_timeout,
}
use wer_te_backend.Deliveries.Actions.{
  RiderInput, picked_up_config, on_the_way_config, delivered_config, failed_config,
}
use wer_te_backend.Deliveries.Transition.{
  accept_current_rider_delivery_request, reject_current_rider_delivery_request,
  mark_current_rider_picked_up, mark_current_rider_on_the_way, mark_current_rider_delivered,
  fail_current_rider_delivery, cancel_current_rider_delivery,
}
use wer_te_backend.Dispatch.Auto.{Run, handle_auto_dispatch_order, handle_rider_dispatch_timeout}
use wer_te_backend.Flow.Diagram.{Moves, terminal_Moves, is_terminal}
use wer_te_backend.Flow.Progress.{Steps, Steps-trans, HasHistory}
use wer_te_backend.Flow.Rules.{Steps-refl}
use wer_te_backend.Flow.MerchantPolicies.{
  accept-IsSound, reject-IsSound, prepare-IsSound, ready-IsSound, hand_over-IsSound,
}
use wer_te_backend.Flow.Merchant.{handle_merchant_action-Steps}
use wer_te_backend.Flow.Cancellation.{
  customer_cancel-Steps, handle_merchant_timeout-Steps, handle_rider_timeout-Steps,
}
use wer_te_backend.Flow.RiderPolicies.{
  pick_up-IsSoundFor, set_off-IsSoundFor, deliver-IsSoundFor, fail-IsSoundFor,
}
use wer_te_backend.Flow.Riders.{
  handle_transition-Steps, accept_delivery-Steps, reject_delivery-Steps, cancel_delivery-Steps,
}
use wer_te_backend.Payments.Lifecycle.{LifecycleInput, LifecycleConfig, handle_payment_transition}
use wer_te_backend.Flow.Payments.{handle_payment_transition-Steps}
use wer_te_backend.Dispatch.Assignment.{AssignRiderInput, assign_rider_to_order}
use wer_te_backend.Orders.Admin.{cancel_admin_order}
use wer_te_backend.Flow.Admin.{assign_rider_to_order-Steps, cancel_admin_order-Steps}
use wer_te_backend.Checkout.Submission.{
  CheckoutRun, SubmitCheckoutInput, submit_current_customer_checkout,
}
use wer_te_backend.Flow.Checkout.{submit_current_customer_checkout-Steps}
use wer_te_backend.Flow.Dispatch.{
  handle_auto_dispatch_order-Steps, handle_rider_dispatch_timeout-Steps,
}

-- Who calls, at what time, and which services answer.
pub record Call : Type 0 where
  pub services : Services
  pub now : ℕ
  pub user : User

pub data Command : Type 0 where
  merchant_accepts merchant_rejects merchant_prepares : Call → ActionInput → Command
  merchant_is_ready merchant_hands_over customer_cancels : Call → ActionInput → Command
  merchant_timeout rider_timeout : ℕ → Command
  rider_accepts rider_rejects rider_picks_up rider_sets_off : Call → RiderInput → Command
  rider_delivers rider_fails rider_cancels : Call → RiderInput → Command
  payment_ends : Call → Bool → LifecycleInput → LifecycleConfig → Command
  auto_dispatch : Run → ℕ → Command
  rider_dispatch_timeout : Run → ℕ → ℕ → Command
  admin_assigns : Run → User → AssignRiderInput → Command
  admin_cancels : Call → ActionInput → Command
  customer_checks_out : CheckoutRun → User → SubmitCheckoutInput → Command

-- The tables after a command, whether it returns or throws.
unfoldable pub run_command : Command → Db → Db
run_command (Command.merchant_accepts c i) db =
    (accept_current_merchant_order c.services c.now c.user i db).1
run_command (Command.merchant_rejects c i) db =
    (reject_current_merchant_order c.services c.now c.user i db).1
run_command (Command.merchant_prepares c i) db =
    (mark_preparing_current_merchant_order c.services c.now c.user i db).1
run_command (Command.merchant_is_ready c i) db =
    (mark_ready_current_merchant_order c.services c.now c.user i db).1
run_command (Command.merchant_hands_over c i) db =
    (confirm_pickup_current_merchant_order c.services c.now c.user i db).1
run_command (Command.customer_cancels c i) db =
    (cancel_current_customer_order c.services c.user i db).1
run_command (Command.merchant_timeout k) db = handle_merchant_timeout k db
run_command (Command.rider_timeout k) db = handle_rider_timeout k db
run_command (Command.rider_accepts c i) db =
    (accept_current_rider_delivery_request c.services c.now c.user i db).1
run_command (Command.rider_rejects c i) db =
    (reject_current_rider_delivery_request c.services c.now c.user i db).1
run_command (Command.rider_picks_up c i) db =
    (mark_current_rider_picked_up c.services c.now c.user i db).1
run_command (Command.rider_sets_off c i) db =
    (mark_current_rider_on_the_way c.services c.now c.user i db).1
run_command (Command.rider_delivers c i) db =
    (mark_current_rider_delivered c.services c.now c.user i db).1
run_command (Command.rider_fails c i) db =
    (fail_current_rider_delivery c.services c.now c.user i db).1
run_command (Command.rider_cancels c i) db =
    (cancel_current_rider_delivery c.services c.now c.user i db).1
run_command (Command.payment_ends c skip i cfg) db =
    (handle_payment_transition c.services c.now skip c.user i cfg db).1
run_command (Command.auto_dispatch r k) db = (handle_auto_dispatch_order r k db).1
run_command (Command.rider_dispatch_timeout r k a) db = (handle_rider_dispatch_timeout r k a db).1
run_command (Command.admin_assigns r u i) db = (assign_rider_to_order r u i db).1
run_command (Command.admin_cancels c i) db = (cancel_admin_order c.services c.user i db).1
run_command (Command.customer_checks_out r u i) db = (submit_current_customer_checkout r u i db).1

unfoldable pub run_commands : List Command → Db → Db
run_commands [] db = db
run_commands (c ∷ cs) db = run_commands cs (run_command c db)

run_command-Steps : (c : Command) (db : Db) → Steps db (run_command c db)
unfolding run_command accept_current_merchant_order reject_current_merchant_order
    mark_preparing_current_merchant_order mark_ready_current_merchant_order
    confirm_pickup_current_merchant_order mark_current_rider_picked_up mark_current_rider_on_the_way
    mark_current_rider_delivered fail_current_rider_delivery
run_command-Steps (Command.merchant_accepts c i) db =
    handle_merchant_action-Steps 2 c.services c.now c.user i accept_config db accept-IsSound
run_command-Steps (Command.merchant_rejects c i) db =
    handle_merchant_action-Steps 2 c.services c.now c.user i reject_config db reject-IsSound
run_command-Steps (Command.merchant_prepares c i) db =
    handle_merchant_action-Steps 2 c.services c.now c.user i preparing_config db prepare-IsSound
run_command-Steps (Command.merchant_is_ready c i) db =
    handle_merchant_action-Steps 2 c.services c.now c.user i ready_config db ready-IsSound
run_command-Steps (Command.merchant_hands_over c i) db =
    handle_merchant_action-Steps 2 c.services c.now c.user i confirm_pickup_config db
      hand_over-IsSound
run_command-Steps (Command.customer_cancels c i) db = customer_cancel-Steps c.services c.user i db
run_command-Steps (Command.merchant_timeout k) db = handle_merchant_timeout-Steps k db
run_command-Steps (Command.rider_timeout k) db = handle_rider_timeout-Steps k db
run_command-Steps (Command.rider_accepts c i) db =
    accept_delivery-Steps c.services c.now c.user i db
run_command-Steps (Command.rider_rejects c i) db =
    reject_delivery-Steps c.services c.now c.user i db
run_command-Steps (Command.rider_picks_up c i) db =
    handle_transition-Steps c.services c.now c.user i picked_up_config db pick_up-IsSoundFor
run_command-Steps (Command.rider_sets_off c i) db =
    handle_transition-Steps c.services c.now c.user i on_the_way_config db set_off-IsSoundFor
run_command-Steps (Command.rider_delivers c i) db =
    handle_transition-Steps c.services c.now c.user i delivered_config db deliver-IsSoundFor
run_command-Steps (Command.rider_fails c i) db =
    handle_transition-Steps c.services c.now c.user i failed_config db fail-IsSoundFor
run_command-Steps (Command.rider_cancels c i) db =
    cancel_delivery-Steps c.services c.now c.user i db
run_command-Steps (Command.payment_ends c skip i cfg) db =
    handle_payment_transition-Steps c.services c.now skip c.user i cfg db
run_command-Steps (Command.auto_dispatch r k) db = handle_auto_dispatch_order-Steps r k db
run_command-Steps (Command.rider_dispatch_timeout r k a) db =
    handle_rider_dispatch_timeout-Steps r k a db
run_command-Steps (Command.admin_assigns r u i) db = assign_rider_to_order-Steps r u i db
run_command-Steps (Command.admin_cancels c i) db = cancel_admin_order-Steps c.services c.user i db
run_command-Steps (Command.customer_checks_out r u i) db =
    submit_current_customer_checkout-Steps r u i db

pub run_commands-Steps : (cs : List Command) (db : Db) → Steps db (run_commands cs db)
unfolding run_commands
run_commands-Steps [] db = Steps-refl db
run_commands-Steps (c ∷ cs) db =
    Steps-trans (run_command-Steps c db) (run_commands-Steps cs (run_command c db))

-- After any sequence of checkouts, requests, payments and jobs an order is still in the table, its status has moved along
-- edges of the diagram only, and its delivery type, items, customer and merchant are what they were.
pub run_commands-Moves :
    (cs : List Command) (db : Db) (k : ℕ) (o : Order)
    → find_order k db ≡ some o
    → (o' : Order) × (find_order k (run_commands cs db) ≡ some o')
      × Moves o.delivery_type o.status o'.status
      × (o'.delivery_type ≡ o.delivery_type)
      × (o'.items ≡ o.items)
      × (o'.customer_profile_id ≡ o.customer_profile_id)
      × (o'.merchant_id ≡ o.merchant_id)
run_commands-Moves cs db k o found =
    let (o', after, p) = (run_commands-Steps cs db).each k o found in
    (o', after, p.moves, p.same_type, p.same_items, p.same_customer, p.same_merchant)

-- If the history of an order is a chain of entries that starts from no status and ends in the status
-- of the order, it still is after any sequence of checkouts, requests, payments and jobs.
pub run_commands-HasHistory :
    (cs : List Command) (db : Db) (k : ℕ) (o : Order)
    → find_order k db ≡ some o
    → HasHistory o
    → (o' : Order) × (find_order k (run_commands cs db) ≡ some o') × HasHistory o'
run_commands-HasHistory cs db k o found h =
    let (o', after, p) = (run_commands-Steps cs db).each k o found in (o', after, p.history h)

-- An order that is not in the table before a sequence of checkouts, requests, payments and jobs, and is there
-- after it, has a history that is a chain of entries from no status to its status, and its status is
-- reached from placed along edges of the diagram.
pub run_commands-Began :
    (cs : List Command) (db : Db) (k : ℕ) (o : Order)
    → find_order k db ≡ none
    → find_order k (run_commands cs db) ≡ some o
    → HasHistory o × Moves o.delivery_type OrderStatus.placed o.status
run_commands-Began cs db k o absent found =
    let b = (run_commands-Steps cs db).fresh k o absent found in (b.history, b.moves)

-- No sequence of checkouts, requests, payments and jobs changes the status of an order that is delivered, cancelled,
-- rejected by the merchant or failed.
pub run_commands-terminal :
    (cs : List Command) (db : Db) (k : ℕ) (o : Order)
    → find_order k db ≡ some o
    → is_terminal o.status ≡ true
    → (o' : Order) × (find_order k (run_commands cs db) ≡ some o') × (o'.status ≡ o.status)
run_commands-terminal cs db k o found h =
    let (o', after, p) = (run_commands-Steps cs db).each k o found in
    (o', after, terminal_Moves p.moves h)
