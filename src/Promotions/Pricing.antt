-- ===== src/Promotions/Pricing.antt =====
-- promotions/services/promotion-pricing.service.ts, with the queries of
-- promotions/repositories/promotions.repository.ts.
use wer_te_backend.Prelude.{
  ℕ, Bool, true, false, not, ◌&&◌, Option, none, some, List, [], ◌∷◌, ◌==◌, ltb, leb, min, is_none,
  if◌then◌else◌, find_by, count_by, Text, trim,
}
use wer_te_backend.Domain.Enums.{DiscountType}
use wer_te_backend.Domain.Finance.{Decimal}
use wer_te_backend.Domain.Shop.{Promotion, PromotionUsage}
use wer_te_backend.Domain.Store.{Db, Error}
use wer_te_backend.Domain.Reads.{Read, ◌>>=◌, ◌>>◌, pure, require, throw_unless}

-- What the runtime and decimal.js compute: `toUpperCase`, and `mul(value).div(100)` with its
-- rounding.
pub record Platform : Type 0 where
  pub to_upper_case : Text → Text
  pub percent_of : Decimal → Decimal → Decimal

-- `PromotionPricingEvaluation`
pub record PromotionEvaluation : Type 0 where
  pub promotion_id : ℕ
  pub code : Text
  pub discount_type : DiscountType
  pub discount_amount : Decimal
  pub delivery_fee_waived : Bool

abbrev non_empty : Text → Option Text
non_empty [] = none
non_empty (c ∷ s) = some (c ∷ s)

unfoldable pub normalize_promotion_code : Platform → Option Text → Option Text
normalize_promotion_code pf none = none
normalize_promotion_code pf (some code) = non_empty (pf.to_upper_case (trim code))

abbrev pub same_text : Text → Text → Bool
same_text [] [] = true
same_text [] (d ∷ t) = false
same_text (c ∷ s) [] = false
same_text (c ∷ s) (d ∷ t) = c == d && same_text s t

-- `findPromotionByBranchIdAndCode`
unfoldable pub find_promotion_by_branch_id_and_code : ℕ → Text → Db → Option Promotion
find_promotion_by_branch_id_and_code branch_id code db =
    find_by (λ p. p.branch_id == branch_id && same_text p.code code && is_none p.deleted_at)
      db.catalog.promotions

-- `promotion === null || !promotion.isActive`
abbrev pub find_active_promotion : ℕ → Text → Db → Option Promotion
find_active_promotion branch_id code db =
    elim (find_promotion_by_branch_id_and_code branch_id code db) [
      | none ↦ none
      | some p ↦ if p.is_active then some p else none
    ]

abbrev pub starts_later : ℕ → Option ℕ → Bool
starts_later now none = false
starts_later now (some t) = ltb now t

abbrev pub ended_before : ℕ → Option ℕ → Bool
ended_before now none = false
ended_before now (some t) = ltb t now

-- `countCustomerUsage`
unfoldable pub count_customer_usage : ℕ → ℕ → List PromotionUsage → ℕ
count_customer_usage promotion_id profile_id usages =
    count_by (λ u. u.promotion_id == promotion_id && u.customer_profile_id == profile_id) usages

abbrev pub limit_reached : Promotion → Option ℕ → Db → Bool
limit_reached p none db = false
limit_reached p (some profile_id) db = elim p.per_customer_limit [
  | none ↦ false
  | some limit ↦ leb limit (count_customer_usage p.id profile_id db.promotion_usages)
]

abbrev capped : Option Decimal → Decimal → Decimal
capped none discount = discount
capped (some maximum) discount = min discount maximum

unfoldable pub discount_of : Platform → Promotion → Decimal → Decimal
discount_of pf p subtotal = elim p.discount_type [
  | DiscountType.free_delivery ↦ 0
  | DiscountType.fixed_amount ↦ min (capped p.maximum_discount_amount p.discount_value) subtotal
  | DiscountType.percentage ↦
      min (capped p.maximum_discount_amount (pf.percent_of subtotal p.discount_value)) subtotal
]

abbrev waives_delivery_fee : DiscountType → Bool
waives_delivery_fee DiscountType.free_delivery = true
waives_delivery_fee _ = false

abbrev pub evaluation_of : Platform → Promotion → Decimal → PromotionEvaluation
evaluation_of pf p subtotal = record {
  promotion_id = p.id;
  code = p.code;
  discount_type = p.discount_type;
  discount_amount = discount_of pf p subtotal;
  delivery_fee_waived = waives_delivery_fee p.discount_type;
}

-- `evaluatePromotionForCheckout` once there is a code.
unfoldable pub evaluate_code :
    Platform → ℕ → ℕ → Decimal → Option ℕ → Text → Read (Option PromotionEvaluation)
evaluate_code pf now branch_id subtotal profile_id code = do
  promotion ← require (find_active_promotion branch_id code) Error.unprocessable_entity
  throw_unless (λ db. not (starts_later now promotion.starts_at)) Error.unprocessable_entity
  throw_unless (λ db. not (ended_before now promotion.ends_at)) Error.unprocessable_entity
  throw_unless (λ db. not (ltb subtotal promotion.minimum_subtotal_amount))
      Error.unprocessable_entity
  throw_unless (λ db. not (limit_reached promotion profile_id db)) Error.unprocessable_entity
  pure (some (evaluation_of pf promotion subtotal))

unfoldable pub evaluate_promotion_for_checkout :
    Platform → ℕ → ℕ → Decimal → Option Text → Option ℕ → Read (Option PromotionEvaluation)
evaluate_promotion_for_checkout pf now branch_id subtotal code profile_id =
    elim (normalize_promotion_code pf code) [
      | none ↦ pure none
      | some c ↦ evaluate_code pf now branch_id subtotal profile_id c
    ]
