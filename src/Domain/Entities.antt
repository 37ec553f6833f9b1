-- ===== src/Domain/Entities.antt =====
-- Users, orders with their lines and history, deliveries, riders and dispatch attempts: the rows of
-- prisma/schema.prisma, with the columns that the modelled services read or write. An id is a
-- number, since the code only compares ids; a date is its `getTime()`.
use wer_te_backend.Prelude.{ℕ, Bool, Option, List, Text}
use wer_te_backend.Domain.Enums.{
  UserRole, UserStatus, RiderStatus, OrderStatus, DeliveryType, DeliveryStatus, AttemptOutcome,
}
use wer_te_backend.Domain.Finance.{Decimal}

-- `ActorContextEntity`
pub record ActorContext : Type 0 where
  pub customer_profile_id : Option ℕ
  pub merchant_id : Option ℕ
  pub rider_id : Option ℕ

-- `AuthenticatedUserEntity`
pub record User : Type 0 where
  pub user_id : ℕ
  pub role : UserRole
  pub actor_context : ActorContext

-- An entry of `inventoryLotAllocations`.
pub record LotAllocation : Type 0 where
  pub inventory_lot_id : ℕ
  pub batch_no_snapshot : ℕ
  pub expiry_date_snapshot : Option ℕ
  pub quantity : ℕ

pub record SelectedOption : Type 0 where
  pub item_option_id : ℕ
  pub stock_tracked_snapshot : Bool

-- `MenuInventoryOrderLineInput`
pub record OrderLine : Type 0 where
  pub line_key : Option ℕ
  pub menu_item_id : ℕ
  pub quantity : ℕ
  pub menu_item_stock_tracked_snapshot : Bool
  pub selected_variant_combination_id : Option ℕ
  pub variant_combination_stock_tracked_snapshot : Bool
  pub inventory_lot_allocations : List LotAllocation
  pub selected_options : List SelectedOption

-- A row of `statusHistory`.
pub record StatusChange : Type 0 where
  pub from_status : Option OrderStatus
  pub to_status : OrderStatus
  pub changed_by_user_id : ℕ
  pub reason_code : Option Text
  pub note : Option Text

pub record Order : Type 0 where
  pub id : ℕ
  pub order_code : ℕ
  pub customer_profile_id : ℕ
  pub customer_user_id : ℕ
  pub merchant_id : ℕ
  pub merchant_user_id : ℕ
  pub idempotency_key : Option ℕ
  pub cart_id : Option ℕ
  pub promotion_id : Option ℕ
  pub subtotal_amount : Decimal
  pub discount_amount : Decimal
  pub delivery_fee : Decimal
  pub total_amount : Decimal
  pub delivery_type : DeliveryType
  pub delivery_township : Option ℕ
  pub status : OrderStatus
  pub items : List OrderLine
  pub status_history : List StatusChange

pub record Delivery : Type 0 where
  pub id : ℕ
  pub order_id : ℕ
  pub rider_id : Option ℕ
  pub status : DeliveryStatus
  pub eta_minutes : Option ℕ
  pub assigned_at : Option ℕ
  pub accepted_at : Option ℕ
  pub picked_up_at : Option ℕ
  pub on_the_way_at : Option ℕ
  pub delivered_at : Option ℕ
  pub failed_at : Option ℕ
  pub cancelled_at : Option ℕ
  pub failure_reason_code : Option Text
  pub failure_note : Option Text

pub record Availability : Type 0 where
  pub is_online : Bool
  pub is_available : Bool

pub record Rider : Type 0 where
  pub id : ℕ
  pub user_id : ℕ
  pub status : RiderStatus
  pub user_status : UserStatus
  pub current_township : Option ℕ
  pub availability : Option Availability

pub record DispatchAttempt : Type 0 where
  pub id : ℕ
  pub order_id : ℕ
  pub rider_id : ℕ
  pub outcome : AttemptOutcome
  pub resolved_at : Option ℕ
