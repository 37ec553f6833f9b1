-- ===== src/Domain/Enums.antt =====
-- The enums of prisma/schema.prisma that the modelled services branch on, each with a number that
-- tells its values apart and the comparison `===`.
use wer_te_backend.Prelude.{ℕ, Bool, ◌==◌}

pub data UserRole : Type 0 where
  admin customer rider merchant merchant_staff support : UserRole

pub data UserStatus : Type 0 where
  active suspended pending : UserStatus

pub data RiderStatus : Type 0 where
  active suspended pending : RiderStatus

pub data OrderStatus : Type 0 where
  placed merchant_accepted preparing ready rider_assigned rider_accepted : OrderStatus
  picked_up on_the_way delivered cancelled merchant_rejected failed_delivery : OrderStatus

pub data DeliveryType : Type 0 where
  delivery pickup : DeliveryType

pub data DeliveryStatus : Type 0 where
  pending_assignment assigned accepted picked_up on_the_way : DeliveryStatus
  delivered failed cancelled : DeliveryStatus

pub data PaymentMethod : Type 0 where
  cash_on_delivery digital_wallet card bank_transfer manual : PaymentMethod

pub data PaymentProvider : Type 0 where
  cod manual stripe kbz_pay wave_pay aya_pay : PaymentProvider

pub data PaymentStatus : Type 0 where
  pending requires_action processing succeeded failed : PaymentStatus
  cancelled expired partially_refunded refunded : PaymentStatus

pub data RefundStatus : Type 0 where
  pending processing succeeded failed cancelled : RefundStatus

pub data VerificationStatus : Type 0 where
  pending verified failed skipped : VerificationStatus

pub data ProcessingStatus : Type 0 where
  received processed failed ignored : ProcessingStatus

pub data DiscountType : Type 0 where
  fixed_amount percentage free_delivery : DiscountType

-- `OrderDispatchAttempt.outcomeCode`; `failed` is written by `assignAndNotify`.
pub data AttemptOutcome : Type 0 where
  pending timeout rejected accepted failed : AttemptOutcome

abbrev role_code : UserRole → ℕ
role_code UserRole.admin = 0
role_code UserRole.customer = 1
role_code UserRole.rider = 2
role_code UserRole.merchant = 3
role_code UserRole.merchant_staff = 4
role_code UserRole.support = 5

abbrev pub role_is : UserRole → UserRole → Bool
role_is a b = role_code a == role_code b

abbrev order_code : OrderStatus → ℕ
order_code OrderStatus.placed = 0
order_code OrderStatus.merchant_accepted = 1
order_code OrderStatus.preparing = 2
order_code OrderStatus.ready = 3
order_code OrderStatus.rider_assigned = 4
order_code OrderStatus.rider_accepted = 5
order_code OrderStatus.picked_up = 6
order_code OrderStatus.on_the_way = 7
order_code OrderStatus.delivered = 8
order_code OrderStatus.cancelled = 9
order_code OrderStatus.merchant_rejected = 10
order_code OrderStatus.failed_delivery = 11

abbrev pub order_is : OrderStatus → OrderStatus → Bool
order_is a b = order_code a == order_code b

abbrev delivery_code : DeliveryStatus → ℕ
delivery_code DeliveryStatus.pending_assignment = 0
delivery_code DeliveryStatus.assigned = 1
delivery_code DeliveryStatus.accepted = 2
delivery_code DeliveryStatus.picked_up = 3
delivery_code DeliveryStatus.on_the_way = 4
delivery_code DeliveryStatus.delivered = 5
delivery_code DeliveryStatus.failed = 6
delivery_code DeliveryStatus.cancelled = 7

abbrev pub delivery_is : DeliveryStatus → DeliveryStatus → Bool
delivery_is a b = delivery_code a == delivery_code b

abbrev payment_code : PaymentStatus → ℕ
payment_code PaymentStatus.pending = 0
payment_code PaymentStatus.requires_action = 1
payment_code PaymentStatus.processing = 2
payment_code PaymentStatus.succeeded = 3
payment_code PaymentStatus.failed = 4
payment_code PaymentStatus.cancelled = 5
payment_code PaymentStatus.expired = 6
payment_code PaymentStatus.partially_refunded = 7
payment_code PaymentStatus.refunded = 8

abbrev pub payment_is : PaymentStatus → PaymentStatus → Bool
payment_is a b = payment_code a == payment_code b

abbrev refund_code : RefundStatus → ℕ
refund_code RefundStatus.pending = 0
refund_code RefundStatus.processing = 1
refund_code RefundStatus.succeeded = 2
refund_code RefundStatus.failed = 3
refund_code RefundStatus.cancelled = 4

abbrev pub refund_is : RefundStatus → RefundStatus → Bool
refund_is a b = refund_code a == refund_code b

abbrev provider_code : PaymentProvider → ℕ
provider_code PaymentProvider.cod = 0
provider_code PaymentProvider.manual = 1
provider_code PaymentProvider.stripe = 2
provider_code PaymentProvider.kbz_pay = 3
provider_code PaymentProvider.wave_pay = 4
provider_code PaymentProvider.aya_pay = 5

abbrev pub provider_is : PaymentProvider → PaymentProvider → Bool
provider_is a b = provider_code a == provider_code b
