-- ===== src/Domain/Shop.antt =====
-- Menus, carts, promotions and customers: the rows of prisma/schema.prisma behind the carts and the
-- checkout. The stock columns of an item, an option or a combination are in the row of `Db` with
-- the same id.
use wer_te_backend.Prelude.{ℕ, Bool, true, false, Option, List, Text}
use wer_te_backend.Domain.Enums.{UserRole, DiscountType}
use wer_te_backend.Domain.Finance.{Decimal}

pub data CartStatus : Type 0 where
  active checked_out abandoned expired : CartStatus

pub data BranchStatus : Type 0 where
  active inactive suspended : BranchStatus

pub data MerchantStatus : Type 0 where
  active suspended pending : MerchantStatus

pub data OptionGroupKind : Type 0 where
  add_on variant_selector : OptionGroupKind

abbrev pub cart_is_active : CartStatus → Bool
cart_is_active CartStatus.active = true
cart_is_active _ = false

abbrev pub branch_is_active : BranchStatus → Bool
branch_is_active BranchStatus.active = true
branch_is_active _ = false

abbrev pub merchant_is_active : MerchantStatus → Bool
merchant_is_active MerchantStatus.active = true
merchant_is_active _ = false

abbrev pub selects_variant : OptionGroupKind → Bool
selects_variant OptionGroupKind.variant_selector = true
selects_variant _ = false

-- CustomerProfile with its user.
pub record CustomerProfile : Type 0 where
  pub id : ℕ
  pub user_id : ℕ
  pub user_role : UserRole

-- Branch with its merchant.
pub record Branch : Type 0 where
  pub id : ℕ
  pub status : BranchStatus
  pub merchant_id : ℕ
  pub merchant_user_id : ℕ
  pub merchant_status : MerchantStatus

pub record Address : Type 0 where
  pub id : ℕ
  pub customer_profile_id : ℕ
  pub customer_user_id : ℕ
  pub township : ℕ
  pub is_default : Bool
  pub updated_at : ℕ
  pub created_at : ℕ

pub record MenuItem : Type 0 where
  pub id : ℕ
  pub branch_id : ℕ
  pub base_price : Decimal
  pub is_available : Bool

pub record OptionGroup : Type 0 where
  pub id : ℕ
  pub menu_item_id : ℕ
  pub kind : OptionGroupKind
  pub min_select : ℕ
  pub max_select : ℕ
  pub is_active : Bool

-- ItemOption with the kind of its group.
pub record ItemOption : Type 0 where
  pub id : ℕ
  pub group_id : ℕ
  pub group_kind : OptionGroupKind
  pub price_delta : Decimal
  pub is_active : Bool

-- ItemVariantCombination; the signature is the list of its option ids, in order.
pub record VariantCombination : Type 0 where
  pub id : ℕ
  pub menu_item_id : ℕ
  pub signature : List ℕ
  pub is_active : Bool

pub record Promotion : Type 0 where
  pub id : ℕ
  pub branch_id : ℕ
  pub code : Text
  pub discount_type : DiscountType
  pub discount_value : Decimal
  pub minimum_subtotal_amount : Decimal
  pub maximum_discount_amount : Option Decimal
  pub per_customer_limit : Option ℕ
  pub starts_at : Option ℕ
  pub ends_at : Option ℕ
  pub is_active : Bool
  pub deleted_at : Option ℕ

pub record PromotionUsage : Type 0 where
  pub promotion_id : ℕ
  pub customer_profile_id : ℕ
  pub order_id : ℕ

-- What the carts and the checkout only read; options and groups in their sort order.
pub record Catalog : Type 0 where
  pub profiles : List CustomerProfile
  pub branches : List Branch
  pub addresses : List Address
  pub items : List MenuItem
  pub option_groups : List OptionGroup
  pub options : List ItemOption
  pub variant_combinations : List VariantCombination
  pub promotions : List Promotion

pub record CartItemOption : Type 0 where
  pub item_option_id : ℕ
  pub price_delta_snapshot : Decimal

-- CartItem with its selected options.
pub record CartItem : Type 0 where
  pub id : ℕ
  pub cart_id : ℕ
  pub menu_item_id : ℕ
  pub quantity : ℕ
  pub unit_price_snapshot : Decimal
  pub line_total : Decimal
  pub selected_options : List CartItemOption

-- Cart with the user of its customer.
pub record Cart : Type 0 where
  pub id : ℕ
  pub customer_profile_id : ℕ
  pub customer_user_id : ℕ
  pub branch_id : ℕ
  pub status : CartStatus
  pub total_quantity : ℕ
  pub subtotal_amount : Decimal
  pub total_amount : Decimal
  pub updated_at : ℕ
  pub created_at : ℕ
