-- ===== src/Deliveries/Actions.antt =====
-- deliveries/services/rider-delivery-actions.service.ts and the writes of
-- deliveries/repositories/deliveries.repository.ts.
use wer_te_backend.Prelude.{
  ℕ, Bool, true, false, Option, none, some, ◌==◌, if◌then◌else◌, find_by, update_by, Text, codes,
  option_is,
}
use wer_te_backend.Domain.Enums.{OrderStatus, DeliveryStatus}
use wer_te_backend.Domain.Entities.{User, Delivery}
use wer_te_backend.Domain.Store.{Db, MessageCode}
use wer_te_backend.Orders.View.{find_order}
use wer_te_backend.Deliveries.Policy.{
  DeliveryDetail, can_rider_accept_delivery_request, can_rider_reject_delivery_request,
  can_rider_mark_delivery_picked_up, can_rider_mark_delivery_on_the_way,
  can_rider_mark_delivery_delivered, can_rider_mark_delivery_failed,
}

abbrev pub find_delivery : ℕ → Db → Option Delivery
find_delivery delivery_id db = find_by (λ d. d.id == delivery_id) db.deliveries

-- The row with its order; the foreign key says that the order is there.
abbrev with_order : Option Delivery → Db → Option DeliveryDetail
with_order none db = none
with_order (some d) db = elim (find_order d.order_id db) [
  | none ↦ none
  | some o ↦ some (record { delivery = d; order = o })
]

unfoldable pub find_delivery_detail : ℕ → Db → Option DeliveryDetail
find_delivery_detail delivery_id db = with_order (find_delivery delivery_id db) db

-- `findRiderDeliveryById`
unfoldable pub find_rider_delivery : ℕ → ℕ → Db → Option DeliveryDetail
unfolding find_delivery_detail
find_rider_delivery delivery_id rider_id db = elim (find_delivery_detail delivery_id db) [
  | none ↦ none
  | some d ↦ if option_is d.delivery.rider_id rider_id then some d else none
]

unfoldable pub update_delivery : ℕ → (Delivery → Delivery) → Db → Db
update_delivery delivery_id f db = record db {
  deliveries = update_by (λ d. d.id == delivery_id) f db.deliveries;
}

-- `RiderDeliveryActionInput`
pub record RiderInput : Type 0 where
  pub delivery_id : ℕ
  pub reason_code : Option Text
  pub note : Option Text

-- `RiderDeliveryTransitionConfig`; the update is given the time, the reason and the note.
pub record TransitionConfig : Type 0 where
  pub target_order_status : OrderStatus
  pub target_delivery_status : DeliveryStatus
  pub default_reason_code : Option Text
  pub reload_unscoped : Bool
  pub require_reason_code : Bool
  pub system_message_code : MessageCode
  pub can_transition : User → DeliveryDetail → Bool
  pub build_delivery_update : ℕ → Option Text → Option Text → Delivery → Delivery

-- Back to PENDING_ASSIGNMENT with no rider.
abbrev pub reset_delivery : Delivery → Delivery
reset_delivery d = record d {
  rider_id = none;
  status = DeliveryStatus.pending_assignment;
  eta_minutes = none;
  accepted_at = none;
  picked_up_at = none;
  on_the_way_at = none;
  delivered_at = none;
  failed_at = none;
  cancelled_at = none;
  failure_reason_code = none;
  failure_note = none;
}

abbrev pub accept_config : TransitionConfig
accept_config = record {
  target_order_status = OrderStatus.rider_accepted;
  target_delivery_status = DeliveryStatus.accepted;
  default_reason_code = some (codes "rider_accepted_assignment");
  reload_unscoped = false;
  require_reason_code = false;
  system_message_code = MessageCode.rider_accepted;
  can_transition = can_rider_accept_delivery_request;
  build_delivery_update =
      λ now reason note d. record d { status = DeliveryStatus.accepted; accepted_at = some now };
}

abbrev pub reject_config : TransitionConfig
reject_config = record {
  target_order_status = OrderStatus.merchant_accepted;
  target_delivery_status = DeliveryStatus.pending_assignment;
  default_reason_code = some (codes "rider_rejected_assignment");
  reload_unscoped = true;
  require_reason_code = false;
  system_message_code = MessageCode.rider_rejected_assignment;
  can_transition = can_rider_reject_delivery_request;
  build_delivery_update = λ now reason note d. reset_delivery d;
}

abbrev pub picked_up_config : TransitionConfig
picked_up_config = record {
  target_order_status = OrderStatus.picked_up;
  target_delivery_status = DeliveryStatus.picked_up;
  default_reason_code = some (codes "rider_picked_up_order");
  reload_unscoped = false;
  require_reason_code = false;
  system_message_code = MessageCode.order_picked_up;
  can_transition = can_rider_mark_delivery_picked_up;
  build_delivery_update =
      λ now reason note d. record d { status = DeliveryStatus.picked_up; picked_up_at = some now };
}

abbrev pub on_the_way_config : TransitionConfig
on_the_way_config = record {
  target_order_status = OrderStatus.on_the_way;
  target_delivery_status = DeliveryStatus.on_the_way;
  default_reason_code = some (codes "rider_on_the_way");
  reload_unscoped = false;
  require_reason_code = false;
  system_message_code = MessageCode.order_on_the_way;
  can_transition = can_rider_mark_delivery_on_the_way;
  build_delivery_update = λ now reason note d. record d {
    status = DeliveryStatus.on_the_way;
    on_the_way_at = some now;
  };
}

abbrev pub delivered_config : TransitionConfig
delivered_config = record {
  target_order_status = OrderStatus.delivered;
  target_delivery_status = DeliveryStatus.delivered;
  default_reason_code = some (codes "rider_delivered_order");
  reload_unscoped = false;
  require_reason_code = false;
  system_message_code = MessageCode.order_delivered;
  can_transition = can_rider_mark_delivery_delivered;
  build_delivery_update =
      λ now reason note d. record d { status = DeliveryStatus.delivered; delivered_at = some now };
}

abbrev pub failed_config : TransitionConfig
failed_config = record {
  target_order_status = OrderStatus.failed_delivery;
  target_delivery_status = DeliveryStatus.failed;
  default_reason_code = none;
  reload_unscoped = false;
  require_reason_code = true;
  system_message_code = MessageCode.failed_delivery;
  can_transition = can_rider_mark_delivery_failed;
  build_delivery_update = λ now reason note d. record d {
    status = DeliveryStatus.failed;
    failed_at = some now;
    failure_reason_code = reason;
    failure_note = note;
  };
}
