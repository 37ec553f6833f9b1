-- ===== src/Flow/RiderPolicies.antt =====
-- What the policies of the rider let through, as edges of the diagram.
use wer_te_backend.Prelude.{true, ◌≡◌, arith}
use wer_te_backend.Domain.Enums.{OrderStatus, DeliveryType, order_is}
use wer_te_backend.Domain.Entities.{User}
use wer_te_backend.Deliveries.Policy.{
  DeliveryDetail, can_rider_accept_delivery_request, can_rider_reject_delivery_request,
  can_rider_mark_delivery_picked_up, can_rider_mark_delivery_on_the_way,
  can_rider_mark_delivery_delivered, can_rider_mark_delivery_failed, can_rider_cancel_pre_pickup,
}
use wer_te_backend.Deliveries.Actions.{
  TransitionConfig, accept_config, reject_config, picked_up_config, on_the_way_config,
  delivered_config, failed_config,
}
use wer_te_backend.Flow.Diagram.{Edge, IsGivenUp}

-- What a rider's policy lets through is an edge.
abbrev pub IsSoundFor : TransitionConfig → Type 0
IsSoundFor cfg =
    (u : User) (d : DeliveryDetail)
    → cfg.can_transition u d ≡ true
    → Edge d.order.delivery_type d.order.status cfg.target_order_status

pub take_on-Edge :
    (t : DeliveryType) (s : OrderStatus)
    → order_is s OrderStatus.rider_assigned ≡ true
    → Edge t s OrderStatus.rider_accepted
take_on-Edge t OrderStatus.rider_assigned h = Edge.take_on
take_on-Edge t _ h = cc

pub hand_back-Edge :
    (t : DeliveryType) (s : OrderStatus)
    → order_is s OrderStatus.rider_assigned ≡ true
    → Edge t s OrderStatus.merchant_accepted
hand_back-Edge t OrderStatus.rider_assigned h = Edge.give_up IsGivenUp.assigned
hand_back-Edge t _ h = cc

pub pick_up-Edge :
    (t : DeliveryType) (s : OrderStatus)
    → order_is s OrderStatus.ready ≡ true
    → Edge t s OrderStatus.picked_up
pick_up-Edge t OrderStatus.ready h = Edge.pick_up
pick_up-Edge t _ h = cc

pub set_off-Edge :
    (t : DeliveryType) (s : OrderStatus)
    → order_is s OrderStatus.picked_up ≡ true
    → Edge t s OrderStatus.on_the_way
set_off-Edge t OrderStatus.picked_up h = Edge.set_off
set_off-Edge t _ h = cc

pub deliver-Edge :
    (t : DeliveryType) (s : OrderStatus)
    → order_is s OrderStatus.on_the_way ≡ true
    → Edge t s OrderStatus.delivered
deliver-Edge t OrderStatus.on_the_way h = Edge.deliver
deliver-Edge t _ h = cc

pub give_up-Edge :
    (u : User) (t : DeliveryType) (s : OrderStatus) (d : DeliveryDetail)
    → d.order.status ≡ s
    → can_rider_cancel_pre_pickup u d ≡ true
    → Edge t s OrderStatus.merchant_accepted
unfolding can_rider_cancel_pre_pickup
give_up-Edge u t OrderStatus.rider_assigned d e h = Edge.give_up IsGivenUp.assigned
give_up-Edge u t OrderStatus.rider_accepted d e h = Edge.give_up IsGivenUp.accepted
give_up-Edge u t OrderStatus.preparing d e h = Edge.give_up IsGivenUp.preparing
give_up-Edge u t OrderStatus.ready d e h = Edge.give_up IsGivenUp.ready
give_up-Edge u t _ d e h = absurd (ground arith)

pub accept-IsSoundFor : IsSoundFor accept_config
unfolding can_rider_accept_delivery_request
accept-IsSoundFor u d h = take_on-Edge d.order.delivery_type d.order.status (ground arith)

pub reject-IsSoundFor : IsSoundFor reject_config
unfolding can_rider_reject_delivery_request can_rider_accept_delivery_request
reject-IsSoundFor u d h = hand_back-Edge d.order.delivery_type d.order.status (ground arith)

pub pick_up-IsSoundFor : IsSoundFor picked_up_config
unfolding can_rider_mark_delivery_picked_up
pick_up-IsSoundFor u d h = pick_up-Edge d.order.delivery_type d.order.status (ground arith)

pub set_off-IsSoundFor : IsSoundFor on_the_way_config
unfolding can_rider_mark_delivery_on_the_way
set_off-IsSoundFor u d h = set_off-Edge d.order.delivery_type d.order.status (ground arith)

pub deliver-IsSoundFor : IsSoundFor delivered_config
unfolding can_rider_mark_delivery_delivered
deliver-IsSoundFor u d h = deliver-Edge d.order.delivery_type d.order.status (ground arith)

pub fail-IsSoundFor : IsSoundFor failed_config
unfolding can_rider_mark_delivery_failed
fail-IsSoundFor u d h = Edge.lose (ground arith)
