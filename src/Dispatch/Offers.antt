-- ===== src/Dispatch/Offers.antt =====
-- The attempts that a dispatch adds.
use wer_te_backend.Prelude.{ℕ, true, ◌&&◌, ◌||◌, some, List, ◌==◌, ◌≡◌, count_by, option_is}
use wer_te_backend.Domain.Enums.{RiderStatus, UserStatus, DeliveryStatus, delivery_is}
use wer_te_backend.Domain.Entities.{Rider, Availability, DispatchAttempt}
use wer_te_backend.Domain.Store.{Db}

-- How often an order was offered to a rider.
abbrev pub offers_in : ℕ → ℕ → List DispatchAttempt → ℕ
offers_in order_id rider_id rows =
    count_by (λ a. a.order_id == order_id && a.rider_id == rider_id) rows

abbrev pub offers : ℕ → ℕ → Db → ℕ
offers order_id rider_id db = offers_in order_id rider_id db.dispatch_attempts

-- The deliveries of a rider that are assigned, picked up or on the way; not the accepted ones.
abbrev pub deliveries_under_way : ℕ → Db → ℕ
deliveries_under_way rider_id db =
    count_by
      (λ d.
        option_is d.rider_id rider_id
        && (delivery_is d.status DeliveryStatus.assigned
            || delivery_is d.status DeliveryStatus.picked_up
            || delivery_is d.status DeliveryStatus.on_the_way))
      db.deliveries

-- A first offer of an order to a rider, and who may get it.
pub record IsFirstOffer (order_id rider_id : ℕ) (before after : Db) : Type 0 where
  pub rider : Rider
  pub availability : Availability
  pub same_rider : rider.id ≡ rider_id
  pub active : rider.status ≡ RiderStatus.active
  pub user_active : rider.user_status ≡ UserStatus.active
  pub reachable : rider.availability ≡ some availability
  pub online : availability.is_online ≡ true
  pub available : availability.is_available ≡ true
  pub free : deliveries_under_way rider_id before ≡ 0
  pub never_before : offers order_id rider_id before ≡ 0
  pub once : offers order_id rider_id after ≡ 1
