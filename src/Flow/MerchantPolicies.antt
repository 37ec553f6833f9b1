-- ===== src/Flow/MerchantPolicies.antt =====
-- What the policies of the merchant let through, as edges of the diagram.
use wer_te_backend.Prelude.{true, ◌≡◌, arith, if◌then◌else◌}
use wer_te_backend.Domain.Enums.{OrderStatus, DeliveryType, order_is}
use wer_te_backend.Domain.Entities.{User}
use wer_te_backend.Orders.View.{OrderSummary}
use wer_te_backend.Orders.Policy.{
  can_merchant_accept, can_merchant_reject, can_mark_preparing, can_mark_ready,
  can_merchant_confirm_pickup, is_pickup,
}
use wer_te_backend.Orders.Merchant.{
  MerchantActionConfig, accept_config, reject_config, preparing_config, ready_config,
  confirm_pickup_config,
}
use wer_te_backend.Flow.Diagram.{Edge}

-- What a policy lets through is an edge.
abbrev pub IsSound : MerchantActionConfig → Type 0
IsSound cfg =
    (u : User) (d : OrderSummary)
    → cfg.can_transition u d ≡ true
    → Edge d.delivery_type d.status cfg.target_status

pub accept-Edge :
    (t : DeliveryType) (s : OrderStatus)
    → order_is s OrderStatus.placed ≡ true
    → Edge t s OrderStatus.merchant_accepted
accept-Edge t OrderStatus.placed h = Edge.accept
accept-Edge t _ h = cc

pub reject-Edge :
    (t : DeliveryType) (s : OrderStatus)
    → order_is s OrderStatus.placed ≡ true
    → Edge t s OrderStatus.merchant_rejected
reject-Edge t OrderStatus.placed h = Edge.reject
reject-Edge t _ h = cc

pub prepare-Edge :
    (t : DeliveryType) (s : OrderStatus)
    → (if is_pickup t
        then order_is s OrderStatus.merchant_accepted
        else order_is s OrderStatus.rider_accepted)
      ≡ true
    → Edge t s OrderStatus.preparing
prepare-Edge DeliveryType.pickup OrderStatus.merchant_accepted h = Edge.prepare_pickup
prepare-Edge DeliveryType.delivery OrderStatus.rider_accepted h = Edge.prepare_delivery
prepare-Edge DeliveryType.pickup _ h = cc
prepare-Edge DeliveryType.delivery _ h = cc

pub ready-Edge :
    (t : DeliveryType) (s : OrderStatus)
    → order_is s OrderStatus.preparing ≡ true
    → Edge t s OrderStatus.ready
ready-Edge t OrderStatus.preparing h = Edge.finish_cooking
ready-Edge t _ h = cc

pub hand_over-Edge :
    (t : DeliveryType) (s : OrderStatus)
    → is_pickup t ≡ true
    → order_is s OrderStatus.ready ≡ true
    → Edge t s OrderStatus.delivered
hand_over-Edge DeliveryType.pickup OrderStatus.ready p h = Edge.hand_over
hand_over-Edge DeliveryType.pickup _ p h = cc
hand_over-Edge DeliveryType.delivery _ p h = cc

pub accept-IsSound : IsSound accept_config
unfolding can_merchant_accept
accept-IsSound u d h = accept-Edge d.delivery_type d.status (ground arith)

pub reject-IsSound : IsSound reject_config
unfolding can_merchant_reject
reject-IsSound u d h = reject-Edge d.delivery_type d.status (ground arith)

pub prepare-IsSound : IsSound preparing_config
unfolding can_mark_preparing
prepare-IsSound u d h = prepare-Edge d.delivery_type d.status (ground arith)

pub ready-IsSound : IsSound ready_config
unfolding can_mark_ready
ready-IsSound u d h = ready-Edge d.delivery_type d.status (ground arith)

pub hand_over-IsSound : IsSound confirm_pickup_config
unfolding can_merchant_confirm_pickup
hand_over-IsSound u d h = hand_over-Edge d.delivery_type d.status (ground arith) (ground arith)
