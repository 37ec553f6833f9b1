-- ===== src/Domain/Store.antt =====
-- The database as one record of tables, with the queue and the outbox of messages beside them, and
-- a service call as a state and exception monad over it.
use wer_te_backend.Prelude.{ℕ, Bool, Option, none, some, List, ◌++◌, [], ◌∷◌, if◌then◌else◌}
use wer_te_backend.Domain.Entities.{Order, Delivery, Rider, DispatchAttempt}
use wer_te_backend.Domain.Finance.{Payment, Refund, ProviderEvent, RefundEvent}
use wer_te_backend.Domain.Shop.{Catalog, Cart, CartItem, PromotionUsage}

-- A row of MenuItem, ItemOption or ItemVariantCombination, as far as its stock goes.
pub record StockRow : Type 0 where
  pub id : ℕ
  pub is_stock_tracked : Bool
  pub stock_quantity : Option ℕ
  pub low_stock_threshold : Option ℕ

-- MenuItemInventoryLot
pub record Lot : Type 0 where
  pub id : ℕ
  pub menu_item_id : ℕ
  pub batch_no : ℕ
  pub expiry_date : Option ℕ
  pub received_at : ℕ
  pub created_at : ℕ
  pub remaining_quantity : ℕ

-- A job on the queue; the last number is `delayMs`.
pub data Job : Type 0 where
  auto_dispatch_order : ℕ → ℕ → Job
  order_timeout : ℕ → ℕ → Job
  rider_timeout : ℕ → ℕ → Job
  rider_dispatch_timeout : ℕ → ℕ → ℕ → Job

-- `SystemMessageCode`, as far as the modelled services publish it.
pub data MessageCode : Type 0 where
  order_placed order_accepted order_rejected order_preparing order_ready order_delivered :
      MessageCode
  order_cancelled admin_intervention rider_assigned rider_accepted : MessageCode
  rider_rejected_assignment order_picked_up order_on_the_way failed_delivery : MessageCode
  payment_succeeded payment_failed payment_cancelled : MessageCode
  refund_requested refund_succeeded refund_failed order_auto_cancelled : MessageCode

-- A published event: the order and the code.
pub record Message : Type 0 where
  pub order_id : ℕ
  pub code : MessageCode

pub record Db : Type 0 where
  pub orders : List Order
  pub deliveries : List Delivery
  pub riders : List Rider
  pub dispatch_attempts : List DispatchAttempt
  pub payments : List Payment
  pub refunds : List Refund
  pub payment_events : List ProviderEvent
  pub refund_events : List RefundEvent
  pub menu_items : List StockRow
  pub item_options : List StockRow
  pub combinations : List StockRow
  pub lots : List Lot
  pub catalog : Catalog
  pub carts : List Cart
  pub cart_items : List CartItem
  pub promotion_usages : List PromotionUsage
  pub jobs : List Job
  pub messages : List Message

-- The status of an `AppException`.
pub data Error : Type 0 where
  bad_request forbidden not_found conflict unprocessable_entity infrastructure : Error
  internal_server_error too_many_requests : Error

pub data Result {ℓ} (A : Type ℓ) : Type ℓ where
  ok : A → Result A
  err : Error → Result A

-- A call of a service; what was committed stays committed after a throw.
abbrev pub Action : Type 0 → Type 0
Action A = Db → Result A × Db

infixl 5 ◌>>=◌ ◌>>◌
abbrev pub ◌>>=◌ : {A B : Type 0} → Action A → (A → Action B) → Action B
◌>>=◌ m f db = let (r, db') = m db in elim r [ ok a ↦ f a db' | err e ↦ (err e, db') ]

abbrev pub ◌>>◌ : {A B : Type 0} → Action A → Action B → Action B
m >> k = m >>= λ _. k

abbrev pub pure : {A : Type 0} → A → Action A
pure a db = (ok a, db)

abbrev pub throw : {A : Type 0} → Error → Action A
throw e db = (err e, db)

abbrev pub gets : {A : Type 0} → (Db → A) → Action A
gets f db = (ok (f db), db)

abbrev pub modify : (Db → Db) → Action (Unit {0})
modify f db = (ok tt, f db)

abbrev pub throw_unless : Bool → Error → Action (Unit {0})
throw_unless b e db = (if b then ok tt else err e, db)

abbrev pub require : {A : Type 0} → Option A → Error → Action A
require none e db = (err e, db)
require (some a) e db = (ok a, db)

-- `runInTransaction`: a throw rolls the tables back.
abbrev pub transaction : {A : Type 0} → Action A → Action A
transaction m db = let (r, db') = m db in elim r [ ok a ↦ (ok a, db') | err e ↦ (err e, db) ]

-- `systemMessageService.publishOrderEvent`
abbrev pub publish : ℕ → MessageCode → Db → Db
publish order_id code db = record db {
  messages = db.messages ++ record { order_id = order_id; code = code } ∷ [];
}

-- `queueService.add`
abbrev pub enqueue : Job → Db → Db
enqueue job db = record db { jobs = db.jobs ++ job ∷ [] }
