-- ===== src/Orders/Settlement.antt =====
-- Cash payments of a delivered order.
use wer_te_backend.Prelude.{
  ℕ, ◌&&◌, List, [], ◌∷◌, ◌≡◌, refl, arith, ◌==◌, update_by, count_by, some, Option, Text,
}
use wer_te_backend.Domain.Enums.{PaymentStatus, payment_is}
use wer_te_backend.Domain.Entities.{User, Order}
use wer_te_backend.Domain.Finance.{Payment}
use wer_te_backend.Domain.Store.{Db}
use wer_te_backend.Orders.Effects.{is_cash, settle_cash_payment}
use wer_te_backend.Orders.Merchant.{ActionInput, commit_merchant_action, confirm_pickup_config}
use wer_te_backend.Deliveries.Policy.{DeliveryDetail}
use wer_te_backend.Deliveries.Actions.{delivered_config}
use wer_te_backend.Deliveries.Transition.{commit_transition}

-- The cash payments of an order that are still to be made.
abbrev pub unpaid_cash : ℕ → Db → ℕ
unpaid_cash k db =
    count_by (λ p. p.order_id == k && is_cash p.method && payment_is p.status PaymentStatus.pending)
      db.payments

settled :
    (k now : ℕ) (ps : List Payment)
    → count_by
        (λ p. p.order_id == k && is_cash p.method && payment_is p.status PaymentStatus.pending)
        (update_by
          (λ p. p.order_id == k && is_cash p.method && payment_is p.status PaymentStatus.pending)
          (λ p. record p { status = PaymentStatus.succeeded; succeeded_at = some now })
          ps)
      ≡ 0
settled k now [] = refl
settled k now (p ∷ ps) = ground (arith, settled k now ps)

-- When a rider's delivery or a pickup is completed, the order has no cash payment left to be made.
pub delivered-unpaid_cash :
    (now : ℕ) (u : User) (reason remark : Option Text) (d : DeliveryDetail) (input : ActionInput)
    (order : Order) (db : Db)
    → (unpaid_cash d.delivery.order_id (commit_transition now u delivered_config reason remark d db)
        ≡ 0)
      × (unpaid_cash input.order_id
            (commit_merchant_action now u input confirm_pickup_config order db)
          ≡ 0)
unfolding commit_transition commit_merchant_action settle_cash_payment
delivered-unpaid_cash now u reason remark d input order db = (settled _ now _, settled _ now _)
