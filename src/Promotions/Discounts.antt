-- ===== src/Promotions/Discounts.antt =====
-- Which promotion a checkout accepts, and what it takes off.
use wer_te_backend.Prelude.{
  ℕ, ◌≤◌, Bool, true, false, ◌&&◌, Option, none, some, ◌≡◌, arith, leb, Text, is_none, ◌==◌,
  find_by_sound, Option-cases, ◌⊎◌, inl, inr,
}
use wer_te_backend.Domain.Finance.{Decimal}
use wer_te_backend.Domain.Shop.{Promotion}
use wer_te_backend.Domain.Store.{Db, Result}
use wer_te_backend.Promotions.Pricing.{
  Platform, PromotionEvaluation, evaluation_of, discount_of, find_promotion_by_branch_id_and_code,
  starts_later, ended_before, limit_reached, find_active_promotion, evaluate_code,
  evaluate_promotion_for_checkout, normalize_promotion_code, same_text,
}

-- No more than the maximum, if the promotion has one.
abbrev pub within_maximum : Option Decimal → Decimal → Bool
within_maximum none discount = true
within_maximum (some maximum) discount = leb discount maximum

-- A promotion that is in force for the customer's order, and what it grants.
pub record IsInForce (now branch_id : ℕ) (subtotal : Decimal) (profile_id : Option ℕ) (db : Db)
    (p : Promotion) (e : PromotionEvaluation) : Type 0 where
  pub of_branch : p.branch_id ≡ branch_id
  pub not_deleted : is_none p.deleted_at ≡ true
  pub active : p.is_active ≡ true
  pub started : starts_later now p.starts_at ≡ false
  pub not_ended : ended_before now p.ends_at ≡ false
  pub large_enough : p.minimum_subtotal_amount ≤ subtotal
  pub not_used_up : limit_reached p profile_id db ≡ false
  pub same_promotion : e.promotion_id ≡ p.id
  pub within_subtotal : e.discount_amount ≤ subtotal
  pub within_cap : within_maximum p.maximum_discount_amount e.discount_amount ≡ true
  pub no_double_benefit : e.delivery_fee_waived ≡ true → e.discount_amount ≡ 0

discount_of-subtotal :
    (pf : Platform) (p : Promotion) (subtotal : Decimal) → discount_of pf p subtotal ≤ subtotal
unfolding discount_of
discount_of-subtotal pf p subtotal = ground arith

discount_of-maximum :
    (pf : Platform) (p : Promotion) (subtotal : Decimal)
    → within_maximum p.maximum_discount_amount (discount_of pf p subtotal) ≡ true
unfolding discount_of
discount_of-maximum pf p subtotal = ground arith

waived-discount_of :
    (pf : Platform) (p : Promotion) (subtotal : Decimal)
    → (evaluation_of pf p subtotal).delivery_fee_waived ≡ true
    → discount_of pf p subtotal ≡ 0
unfolding discount_of
waived-discount_of pf p subtotal h = ground arith

-- The promotion that a code finds, with the checks that let it through.
evaluate_code-IsInForce :
    (pf : Platform) (now branch_id : ℕ) (subtotal : Decimal) (profile_id : Option ℕ) (code : Text)
    (e : PromotionEvaluation) (db : Db)
    → evaluate_code pf now branch_id subtotal profile_id code db ≡ Result.ok (some e)
    → (p : Promotion) × IsInForce now branch_id subtotal profile_id db p e
unfolding evaluate_code find_promotion_by_branch_id_and_code
evaluate_code-IsInForce pf now branch_id subtotal profile_id code e db h =
    by_promotion (Option-cases (find_active_promotion branch_id code db))
  where
    by_promotion :
        (find_active_promotion branch_id code db ≡ none)
          ⊎ ((p : Promotion) × (find_active_promotion branch_id code db ≡ some p))
        → (p : Promotion) × IsInForce now branch_id subtotal profile_id db p e
    by_promotion (inl x) = ground (arith, h, x)
    by_promotion (inr (p, x)) = (
      p,
      record {
        of_branch = ground (
          arith,
          x,
          find_by_sound
              (λ p. p.branch_id == branch_id && same_text p.code code && is_none p.deleted_at)
              db.catalog.promotions {a = p},
        );
        not_deleted = ground (
          arith,
          x,
          find_by_sound
              (λ p. p.branch_id == branch_id && same_text p.code code && is_none p.deleted_at)
              db.catalog.promotions {a = p},
        );
        active = ground (arith, x);
        started = ground (arith, h, x);
        not_ended = ground (arith, h, x);
        large_enough = ground (arith, h, x);
        not_used_up = ground (arith, h, x);
        same_promotion = ground (arith, h, x);
        within_subtotal = ground (arith, h, x, discount_of-subtotal pf p subtotal);
        within_cap = ground (arith, h, x, discount_of-maximum pf p subtotal);
        no_double_benefit = λ w. ground (arith, h, x, w, waived-discount_of pf p subtotal);
      },
    )

pub evaluate_promotion_for_checkout-IsInForce :
    (pf : Platform) (now branch_id : ℕ) (subtotal : Decimal) (code : Option Text)
    (profile_id : Option ℕ) (e : PromotionEvaluation) (db : Db)
    → evaluate_promotion_for_checkout pf now branch_id subtotal code profile_id db
      ≡ Result.ok (some e)
    → (p : Promotion) × IsInForce now branch_id subtotal profile_id db p e
unfolding evaluate_promotion_for_checkout
evaluate_promotion_for_checkout-IsInForce pf now branch_id subtotal code profile_id e db h =
    by_code (Option-cases (normalize_promotion_code pf code))
  where
    by_code :
        (normalize_promotion_code pf code ≡ none)
          ⊎ ((c : Text) × (normalize_promotion_code pf code ≡ some c))
        → (p : Promotion) × IsInForce now branch_id subtotal profile_id db p e
    by_code (inl x) = ground (arith, h, x)
    by_code (inr (c, x)) =
        evaluate_code-IsInForce pf now branch_id subtotal profile_id c e db (ground (arith, h, x))
