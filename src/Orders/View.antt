-- ===== src/Orders/View.antt =====
-- orders/entities/order-summary.entity.ts, and the reads and the status write of
-- orders/repositories/orders.repository.ts.
use wer_te_backend.Prelude.{
  ℕ, Bool, Option, none, some, [], ◌∷◌, ◌++◌, ◌==◌, ◌≡◌, refl, arith, if◌then◌else◌, find_by,
  update_by, find_by-update_by, Text,
}
use wer_te_backend.Domain.Enums.{OrderStatus, DeliveryType}
use wer_te_backend.Domain.Entities.{Order, Delivery, Rider}
use wer_te_backend.Domain.Store.{Db}

pub record RiderSummary : Type 0 where
  pub rider_id : ℕ
  pub user_id : ℕ

pub record DeliverySummary : Type 0 where
  pub delivery_id : ℕ
  pub rider_id : Option ℕ
  pub rider : Option RiderSummary

-- `OrderSummaryEntity`, as far as the policies read it.
pub record OrderSummary : Type 0 where
  pub order_id : ℕ
  pub order_code : ℕ
  pub status : OrderStatus
  pub delivery_type : DeliveryType
  pub customer_profile_id : ℕ
  pub customer_user_id : ℕ
  pub merchant_id : ℕ
  pub merchant_user_id : ℕ
  pub delivery : Option DeliverySummary

abbrev pub find_order : ℕ → Db → Option Order
find_order order_id db = find_by (λ o. o.id == order_id) db.orders

-- The id is the primary key, so a further condition filters the one row that has it.
abbrev pub find_order_where : (Order → Bool) → ℕ → Db → Option Order
find_order_where test order_id db = elim (find_order order_id db) [
  | none ↦ none
  | some o ↦ if test o then some o else none
]

unfoldable pub find_customer_order : ℕ → ℕ → Db → Option Order
find_customer_order order_id profile_id =
    find_order_where (λ o. o.customer_profile_id == profile_id) order_id

unfoldable pub find_merchant_order : ℕ → ℕ → Db → Option Order
find_merchant_order order_id merchant_id =
    find_order_where (λ o. o.merchant_id == merchant_id) order_id

-- The relation `order.delivery`.
abbrev pub find_delivery_of : ℕ → Db → Option Delivery
find_delivery_of order_id db = find_by (λ d. d.order_id == order_id) db.deliveries

abbrev pub find_rider : ℕ → Db → Option Rider
find_rider rider_id db = find_by (λ r. r.id == rider_id) db.riders

abbrev rider_summary : Option Rider → Option RiderSummary
rider_summary none = none
rider_summary (some r) = some (record { rider_id = r.id; user_id = r.user_id })

abbrev rider_of : Option ℕ → Db → Option RiderSummary
rider_of none db = none
rider_of (some k) db = rider_summary (find_rider k db)

abbrev delivery_summary : Option Delivery → Db → Option DeliverySummary
delivery_summary none db = none
delivery_summary (some d) db =
    some (record { delivery_id = d.id; rider_id = d.rider_id; rider = rider_of d.rider_id db })

unfoldable pub build_order_summary : Db → Order → OrderSummary
build_order_summary db o = record {
  order_id = o.id;
  order_code = o.order_code;
  status = o.status;
  delivery_type = o.delivery_type;
  customer_profile_id = o.customer_profile_id;
  customer_user_id = o.customer_user_id;
  merchant_id = o.merchant_id;
  merchant_user_id = o.merchant_user_id;
  delivery = delivery_summary (find_delivery_of o.id db) db;
}

-- `UpdateOrderStatusInput`
pub record StatusUpdate : Type 0 where
  pub status : OrderStatus
  pub from_status : OrderStatus
  pub changed_by_user_id : ℕ
  pub reason_code : Option Text
  pub note : Option Text

unfoldable pub apply_status : StatusUpdate → Order → Order
apply_status u o = record o {
  status = u.status;
  status_history =
      o.status_history
      ++ record {
        from_status = some u.from_status;
        to_status = u.status;
        changed_by_user_id = u.changed_by_user_id;
        reason_code = u.reason_code;
        note = u.note;
      }
        ∷ [];
}

-- `OrdersRepository.updateOrderStatus`: the status and one more entry of the history.
unfoldable pub update_order_status : ℕ → StatusUpdate → Db → Db
update_order_status order_id u db = record db {
  orders = update_by (λ o. o.id == order_id) (apply_status u) db.orders;
}

-- The write changes the order that it names, and that order only.
pub find_order-update_order_status :
    (j k : ℕ) (u : StatusUpdate) (db : Db)
    → find_order j (update_order_status k u db) ≡ elim (find_order j db) [
      | none ↦ none
      | some o ↦ some (if o.id == k then apply_status u o else o)
    ]
unfolding update_order_status apply_status
find_order-update_order_status j k u db = ground (
  arith,
  find_by-update_by (λ o. o.id == j) (λ o. o.id == k) (apply_status u) db.orders (λ o. refl),
)
