-- ===== src/Checkout/Amounts.antt =====
-- The amounts of a checkout.
use wer_te_backend.Prelude.{ℕ, ◌+◌, ◌≤◌, true, Option, none, some, ◌≡◌, ◌⊎◌, inl, inr, arith, Text}
use wer_te_backend.Domain.Entities.{User}
use wer_te_backend.Domain.Finance.{Decimal}
use wer_te_backend.Domain.Store.{Db, Result, Error}
use wer_te_backend.Domain.Reads.{Result-cases}
use wer_te_backend.Promotions.Pricing.{
  Platform, PromotionEvaluation, evaluate_promotion_for_checkout,
}
use wer_te_backend.Promotions.Discounts.{evaluate_promotion_for_checkout-IsInForce}
use wer_te_backend.Checkout.Context.{
  CheckoutContext, ContextInput, PricingBreakdown, is_pickup, applied_discount, cart_subtotal,
  standard_delivery_fee, price, get_validated_current_customer_checkout_context,
  build_pricing_breakdown,
}

pub get_validated-pickup :
    (u : User) (input : ContextInput) (ctx : CheckoutContext) (db : Db)
    → get_validated_current_customer_checkout_context u input db ≡ Result.ok ctx
    → is_pickup input.delivery_type ≡ true
    → ctx.address ≡ none
unfolding get_validated_current_customer_checkout_context
get_validated-pickup u input ctx db h e = ground (arith, h, e)

evaluate-subtotal :
    (pf : Platform) (now branch_id : ℕ) (subtotal : Decimal) (code : Option Text)
    (profile_id : Option ℕ) (promotion : Option PromotionEvaluation) (db : Db)
    → evaluate_promotion_for_checkout pf now branch_id subtotal code profile_id db
      ≡ Result.ok promotion
    → applied_discount promotion ≤ subtotal
evaluate-subtotal pf now branch_id subtotal code profile_id none db h = omega arith
evaluate-subtotal pf now branch_id subtotal code profile_id (some e) db h =
    let granted =
      evaluate_promotion_for_checkout-IsInForce pf now branch_id subtotal code profile_id e db h in
    granted.1.within_subtotal

-- The discount is the one of the promotion that is applied, and without one it is zero; the fee is
-- zero without an address, and the standard one at most; and the amounts fit together.
pub record IsPriced (ctx : CheckoutContext) (b : PricingBreakdown) : Type 0 where
  pub no_promotion : b.applied_promotion ≡ none → b.discount_amount ≡ 0
  pub promotion :
      (e : PromotionEvaluation)
      → b.applied_promotion ≡ some e
      → (b.discount_amount ≡ e.discount_amount) × (b.discount_amount ≤ b.subtotal_amount)
  pub waived :
      (e : PromotionEvaluation)
      → b.applied_promotion ≡ some e
      → e.delivery_fee_waived ≡ true
      → (b.delivery_fee ≡ 0) × (b.discount_amount ≡ 0)
  pub fee : (b.delivery_fee ≡ 0) ⊎ (b.delivery_fee ≡ standard_delivery_fee)
  pub no_fee : ctx.address ≡ none → b.delivery_fee ≡ 0
  pub total : b.total_amount + b.discount_amount ≡ b.subtotal_amount + b.delivery_fee

-- A breakdown is the price for what the promotion grants.
breakdown-price :
    (pf : Platform) (now : ℕ) (ctx : CheckoutContext) (code : Option Text) (b : PricingBreakdown)
    (db : Db)
    → build_pricing_breakdown pf now ctx code db ≡ Result.ok b
    → (o : Option PromotionEvaluation) × (evaluate_promotion_for_checkout pf now ctx.branch.id
          (cart_subtotal ctx.cart.cart)
          code
          (some ctx.customer.id)
          db
        ≡ Result.ok o)
      × (b ≡ price ctx o)
unfolding build_pricing_breakdown
breakdown-price pf now ctx code b db h = by_promotion (
    Result-cases (
      evaluate_promotion_for_checkout pf now ctx.branch.id (cart_subtotal ctx.cart.cart) code
        (some ctx.customer.id) db))
  where
    evaluated : Result (Option PromotionEvaluation)
    evaluated =
        evaluate_promotion_for_checkout pf now ctx.branch.id (cart_subtotal ctx.cart.cart) code
          (some ctx.customer.id) db

    by_promotion :
        ((e : Error) × (evaluated ≡ Result.err e))
          ⊎ ((o : Option PromotionEvaluation) × (evaluated ≡ Result.ok o))
        → (o : Option PromotionEvaluation) × (evaluated ≡ Result.ok o) × (b ≡ price ctx o)
    by_promotion (inl (e, x)) = absurd (ground (arith, h, x))
    by_promotion (inr (o, x)) = (o, x, ground (arith, h, x))

-- Where no price is below zero, the discount of a checkout is at most its subtotal.
pub build_pricing_breakdown-discount :
    (pf : Platform) (now : ℕ) (ctx : CheckoutContext) (code : Option Text) (b : PricingBreakdown)
    (db : Db)
    → build_pricing_breakdown pf now ctx code db ≡ Result.ok b
    → b.discount_amount ≤ b.subtotal_amount
unfolding price
build_pricing_breakdown-discount pf now ctx code b db h =
    let (o, x, e) = breakdown-price pf now ctx code b db h in
    ground (
      arith,
      e,
      evaluate-subtotal pf now ctx.branch.id (cart_subtotal ctx.cart.cart) code
          (some ctx.customer.id) o db x,
    )

-- The price of a checkout: the discount is the one of the promotion that is applied, which is at
-- most the subtotal, and zero without a promotion; the fee is zero or the standard one, and zero
-- without an address; a promotion that waives the fee makes it zero and gives no discount; and the total is the
-- subtotal less the discount plus the fee.
pub build_pricing_breakdown-IsPriced :
    (pf : Platform) (now : ℕ) (ctx : CheckoutContext) (code : Option Text) (b : PricingBreakdown)
    (db : Db)
    → build_pricing_breakdown pf now ctx code db ≡ Result.ok b
    → IsPriced ctx b
unfolding price
build_pricing_breakdown-IsPriced pf now ctx code b db h =
    let (o, x, same) = breakdown-price pf now ctx code b db h in
    let bound = build_pricing_breakdown-discount pf now ctx code b db h in
    record {
      no_promotion = λ e. ground (arith, same, e);
      promotion = λ p e. (ground (arith, same, e), bound);
      waived = λ p e w. (
        ground (arith, same, e, w),
        ground (arith, same, e, granted o p x (ground (arith, same, e)) w),
      );
      fee = ground (arith, same);
      no_fee = λ none_there. ground (arith, same, none_there);
      total = ground (arith, same, bound);
    }
  where
    granted :
        (o : Option PromotionEvaluation) (p : PromotionEvaluation)
        → evaluate_promotion_for_checkout pf now ctx.branch.id
            (cart_subtotal ctx.cart.cart)
            code
            (some ctx.customer.id)
            db
          ≡ Result.ok o
        → o ≡ some p
        → p.delivery_fee_waived ≡ true
        → p.discount_amount ≡ 0
    granted o p x e w =
        let grant =
          evaluate_promotion_for_checkout-IsInForce pf now ctx.branch.id
            (cart_subtotal ctx.cart.cart) code (some ctx.customer.id) p db (ground (arith, x, e)) in
        grant.1.no_double_benefit w
