-- ===== src/Flow/Diagram.antt =====
-- The transitions of `Order.status` without the admin's override.
use wer_te_backend.Prelude.{
  Bool, true, false, Option, some, List, [], ◌∷◌, ◌++◌, ◌≡◌, refl, sym, ◌∙◌, arith,
}
use wer_te_backend.Domain.Enums.{OrderStatus, DeliveryType}
use wer_te_backend.Domain.Entities.{StatusChange}
use wer_te_backend.Orders.Policy.{customer_cancellable, admin_cancellable, rider_failable}

-- A delivery that its rider may still give up.
pub data IsGivenUp : OrderStatus → Type 0 where
  assigned : IsGivenUp OrderStatus.rider_assigned
  accepted : IsGivenUp OrderStatus.rider_accepted
  preparing : IsGivenUp OrderStatus.preparing
  ready : IsGivenUp OrderStatus.ready

pub data Edge : DeliveryType → OrderStatus → OrderStatus → Type 0 where
  accept : {t : DeliveryType} → Edge t OrderStatus.placed OrderStatus.merchant_accepted
  reject : {t : DeliveryType} → Edge t OrderStatus.placed OrderStatus.merchant_rejected
  prepare_pickup : Edge DeliveryType.pickup OrderStatus.merchant_accepted OrderStatus.preparing
  prepare_delivery : Edge DeliveryType.delivery OrderStatus.rider_accepted OrderStatus.preparing
  finish_cooking : {t : DeliveryType} → Edge t OrderStatus.preparing OrderStatus.ready
  hand_over : Edge DeliveryType.pickup OrderStatus.ready OrderStatus.delivered
  assign : {t : DeliveryType} → Edge t OrderStatus.merchant_accepted OrderStatus.rider_assigned
  reassign : {t : DeliveryType} → Edge t OrderStatus.rider_assigned OrderStatus.rider_assigned
  take_on : {t : DeliveryType} → Edge t OrderStatus.rider_assigned OrderStatus.rider_accepted
  give_up :
      {t : DeliveryType} {s : OrderStatus} → IsGivenUp s → Edge t s OrderStatus.merchant_accepted
  pick_up : {t : DeliveryType} → Edge t OrderStatus.ready OrderStatus.picked_up
  set_off : {t : DeliveryType} → Edge t OrderStatus.picked_up OrderStatus.on_the_way
  deliver : {t : DeliveryType} → Edge t OrderStatus.on_the_way OrderStatus.delivered
  lose :
      {t : DeliveryType} {s : OrderStatus}
      → rider_failable s ≡ true
      → Edge t s OrderStatus.failed_delivery
  cancel :
      {t : DeliveryType} {s : OrderStatus}
      → customer_cancellable s ≡ true
      → Edge t s OrderStatus.cancelled
  cancel_by_admin :
      {t : DeliveryType} {s : OrderStatus}
      → admin_cancellable s ≡ true
      → Edge t s OrderStatus.cancelled

pub data Moves (t : DeliveryType) : OrderStatus → OrderStatus → Type 0 where
  stay : {a : OrderStatus} → Moves t a a
  go : {a b c : OrderStatus} → Edge t a b → Moves t b c → Moves t a c

pub Moves-trans : {t : DeliveryType} {a b c : OrderStatus} → Moves t a b → Moves t b c → Moves t a c
Moves-trans stay n = n
Moves-trans (go e m) n = go e (Moves-trans m n)

abbrev pub is_terminal : OrderStatus → Bool
is_terminal OrderStatus.delivered = true
is_terminal OrderStatus.cancelled = true
is_terminal OrderStatus.merchant_rejected = true
is_terminal OrderStatus.failed_delivery = true
is_terminal _ = false

-- No edge leaves a terminal status.
pub terminal_Edge : {t : DeliveryType} {a b : OrderStatus} → Edge t a b → is_terminal a ≡ false
terminal_Edge accept = refl
terminal_Edge reject = refl
terminal_Edge prepare_pickup = refl
terminal_Edge prepare_delivery = refl
terminal_Edge finish_cooking = refl
terminal_Edge hand_over = refl
terminal_Edge assign = refl
terminal_Edge reassign = refl
terminal_Edge take_on = refl
terminal_Edge (give_up g) = given g
  where
    given : {s : OrderStatus} → IsGivenUp s → is_terminal s ≡ false
    given assigned = refl
    given accepted = refl
    given preparing = refl
    given ready = refl
terminal_Edge pick_up = refl
terminal_Edge set_off = refl
terminal_Edge deliver = refl
terminal_Edge (lose h) = ground arith
terminal_Edge (cancel h) = ground arith
terminal_Edge (cancel_by_admin h) = ground arith

pub terminal_Moves :
    {t : DeliveryType} {a b : OrderStatus} → Moves t a b → is_terminal a ≡ true → b ≡ a
terminal_Moves stay h = refl
terminal_Moves (go e m) h = absurd (cc (terminal_Edge e))

-- The entries of a history follow one another, from a first status that may be missing to the last.
abbrev pub IsHistory : Option OrderStatus → List StatusChange → OrderStatus → Type 0
IsHistory from [] to = from ≡ some to
IsHistory from (c ∷ cs) to = (c.from_status ≡ from) × IsHistory (some c.to_status) cs to

pub IsHistory-append :
    (from : Option OrderStatus) (cs : List StatusChange) {to : OrderStatus} (c : StatusChange)
    → IsHistory from cs to
    → c.from_status ≡ some to
    → IsHistory from (cs ++ c ∷ []) c.to_status
IsHistory-append from [] c h e = (e ∙ sym h, refl)
IsHistory-append from (d ∷ cs) c h e = (h.0, IsHistory-append (some d.to_status) cs c h.1 e)
