-- ===== src/Dispatch/Eligibility.antt =====
-- dispatch/policies/dispatch-assignment-policy.helper.ts, `findEligibleRiders` of
-- riders/repositories/riders.repository.ts and the choice of a rider in
-- dispatch/services/auto-dispatch.service.ts.
use wer_te_backend.Prelude.{
  ℕ, Bool, true, false, not, ◌&&◌, Option, none, some, List, ◌==◌, filter, head?, count_by,
  option_is, includes, map,
}
use wer_te_backend.Domain.Enums.{RiderStatus, UserStatus, DeliveryStatus}
use wer_te_backend.Domain.Entities.{Rider, Availability, Delivery}
use wer_te_backend.Domain.Store.{Db}

abbrev rider_is_active : RiderStatus → Bool
rider_is_active RiderStatus.active = true
rider_is_active _ = false

abbrev user_is_active : UserStatus → Bool
user_is_active UserStatus.active = true
user_is_active _ = false

abbrev is_reachable : Option Availability → Bool
is_reachable none = false
is_reachable (some a) = a.is_online && a.is_available

unfoldable pub is_dispatch_eligible_rider : Rider → Bool
is_dispatch_eligible_rider r =
    rider_is_active r.status && user_is_active r.user_status && is_reachable r.availability

-- The statuses that the query for riders counts as busy: not ACCEPTED.
abbrev pub busy_for_query : DeliveryStatus → Bool
busy_for_query DeliveryStatus.assigned = true
busy_for_query DeliveryStatus.picked_up = true
busy_for_query DeliveryStatus.on_the_way = true
busy_for_query _ = false

-- The statuses that the assignment counts as active.
abbrev pub is_active_delivery : DeliveryStatus → Bool
is_active_delivery DeliveryStatus.assigned = true
is_active_delivery DeliveryStatus.accepted = true
is_active_delivery DeliveryStatus.picked_up = true
is_active_delivery DeliveryStatus.on_the_way = true
is_active_delivery _ = false

abbrev pub is_active_for : ℕ → Delivery → Bool
is_active_for rider_id d = option_is d.rider_id rider_id && is_active_delivery d.status

-- `tx.delivery.count`
abbrev pub active_deliveries : ℕ → List Delivery → ℕ
active_deliveries rider_id rows = count_by (is_active_for rider_id) rows

abbrev in_township : Option ℕ → Rider → Bool
in_township none r = true
in_township (some t) r = option_is r.current_township t

-- The conditions of the query: eligible, not busy, and of the township if one is asked for.
unfoldable pub is_candidate : Option ℕ → Db → Rider → Bool
unfolding is_dispatch_eligible_rider
is_candidate township db r =
    is_dispatch_eligible_rider r
    && count_by (λ d. option_is d.rider_id r.id && busy_for_query d.status) db.deliveries == 0
    && in_township township r

-- `findEligibleRiders`; the table of riders stands in the query's order.
unfoldable pub find_eligible_riders : Option ℕ → Db → List Rider
unfolding is_candidate filter
find_eligible_riders township db = filter (is_candidate township db) db.riders

-- `getTriedRiderIds`: the rider of every attempt, however it ended.
unfoldable pub get_tried_rider_ids : ℕ → Db → List ℕ
unfolding filter
get_tried_rider_ids order_id db =
    map (λ a. a.rider_id) (filter (λ a. a.order_id == order_id) db.dispatch_attempts)

unfoldable pub first_untried : List ℕ → List Rider → Option Rider
unfolding filter includes
first_untried excluded riders = head? (filter (λ r. not (includes excluded r.id)) riders)

abbrev pub or_any : Option Rider → Option Rider → Option Rider
or_any none other = other
or_any (some r) other = some r

-- `pickEligibleRider`: a rider of the township, or else any.
unfoldable pub pick_eligible_rider : Option ℕ → List ℕ → Db → Option Rider
unfolding find_eligible_riders first_untried
pick_eligible_rider none excluded db = first_untried excluded (find_eligible_riders none db)
pick_eligible_rider (some t) excluded db =
    or_any (first_untried excluded (find_eligible_riders (some t) db))
      (first_untried excluded (find_eligible_riders none db))
