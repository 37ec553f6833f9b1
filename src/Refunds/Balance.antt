-- ===== src/Refunds/Balance.antt =====
-- The refunds of a payment and its amount.
use mathlib.Core.Path.{subst}
use wer_te_backend.Prelude.{
  ℕ, ◌≤◌, Bool, true, false, Option, none, some, List, [], ◌∷◌, ◌≡◌, ◌⊎◌, inl, inr, Bool-cases,
  Option-cases, ==_iff, find_by_sound, sym, refl, arith, ◌==◌, leb, find_by, update_by, count_by,
}
use wer_te_backend.Domain.Enums.{RefundStatus}
use wer_te_backend.Domain.Entities.{User}
use wer_te_backend.Domain.Finance.{Payment, Refund}
use wer_te_backend.Domain.Store.{Db, Action}
use wer_te_backend.Orders.Effects.{Services, publish_order_event}
use wer_te_backend.Refunds.Operations.{
  RequestInput, FinalizeInput, FinalizeConfig, is_finalizable, find_payment, find_refund,
  reserved_amount, compute_succeeded_refund_amount, compute_available_refundable_amount,
  parse_positive_amount, create_refund_request, new_refund, ParsedAmount, RequestedAmount,
  refuses_nan, replay, find_by_idempotency_key, request_new_refund, request_current_admin_refund,
  finalized, transition_refund_status, with_refunded, update_refund_state, commit_finalize,
  finalize_found_refund, finalize_refund,
}

-- The amount of a payment, 0 where there is none.
abbrev amount_or_zero : Option Payment → ℕ
amount_or_zero none = 0
amount_or_zero (some p) = p.amount

abbrev pub amount_of : ℕ → Db → ℕ
amount_of k db = amount_or_zero (find_payment k db)

-- What is refunded, or may still be, is no more than what was paid.
abbrev pub IsCovered : ℕ → Db → Type 0
IsCovered k db = reserved_amount k db.refunds ≤ amount_of k db

untouched :
    (k j : ℕ) (input : FinalizeInput) (target : RefundStatus) (now : ℕ) (rs : List Refund)
    → count_by (λ r. r.id == j) rs ≡ 0
    → reserved_amount k (update_by (λ r. r.id == j) (finalized input target now) rs)
      ≡ reserved_amount k rs
unfolding reserved_amount
untouched k j input target now [] h = refl
untouched k j input target now (r ∷ rs) h = ground (arith, untouched k j input target now rs)

transition-reserved :
    (k j : ℕ) (input : FinalizeInput) (target : RefundStatus) (now : ℕ) (rs : List Refund)
    (current : Refund)
    → find_by (λ r. r.id == j) rs ≡ some current
    → is_finalizable current.status ≡ true
    → count_by (λ r. r.id == j) rs ≤ 1
    → reserved_amount k (update_by (λ r. r.id == j) (finalized input target now) rs)
      ≤ reserved_amount k rs
unfolding reserved_amount
transition-reserved k j input target now [] current e h one = absurd cc
transition-reserved k j input target now (r ∷ rs) current e h one =
    ground (
      arith,
      untouched k j input target now rs,
      transition-reserved k j input target now rs current,
    )

create-IsCovered :
    (k n : ℕ) (r : Refund) (p : Payment) (db after : Db)
    → find_payment p.id db ≡ some p
    → r.payment_id ≡ p.id
    → r.amount ≡ n
    → leb n (compute_available_refundable_amount p db) ≡ true
    → after.refunds ≡ r ∷ db.refunds
    → after.payments ≡ db.payments
    → IsCovered k db
    → IsCovered k after
unfolding compute_available_refundable_amount reserved_amount
create-IsCovered k n r p db after found of_payment amount fits made same h =
    by_payment (Bool-cases (p.id == k))
  where
    by_payment : ((p.id == k) ≡ true) ⊎ ((p.id == k) ≡ false) → IsCovered k after
    by_payment (inl at_k) =
        let is_k : p.id ≡ k = (==_iff p.id k).0 at_k in
        let at : find_payment k db ≡ some p = subst (λ m. find_payment m db ≡ some p) is_k found in
        ground (arith, at)
    by_payment (inr other) = ground arith

request_new_refund-IsCovered :
    (sv : Services) (refund_id now : ℕ) (input : RequestInput) (k : ℕ) (db : Db)
    → refuses_nan input.amount ≡ true
    → IsCovered k db
    → IsCovered k (request_new_refund sv refund_id now input db).1
unfolding request_new_refund parse_positive_amount create_refund_request publish_order_event
request_new_refund-IsCovered sv refund_id now input k db finite h =
    by_payment (Option-cases (find_payment input.payment_id db)) input.amount refl
  where
    after : Db
    after = (request_new_refund sv refund_id now input db).1

    by_commit :
        (n : ℕ) (p : Payment)
        → find_payment p.id db ≡ some p
        → ((after.refunds ≡ db.refunds) × (after.payments ≡ db.payments))
          ⊎ ((leb n (compute_available_refundable_amount p db) ≡ true)
              × (after.refunds ≡ new_refund refund_id now input p n ∷ db.refunds)
              × (after.payments ≡ db.payments))
        → IsCovered k after
    by_commit n p found (inl (same, payments)) = ground (arith, same, payments)
    by_commit n p found (inr (fits, made, payments)) =
        create-IsCovered k n (new_refund refund_id now input p n) p db after found refl refl fits
          made payments h

    by_payment :
        (find_payment input.payment_id db ≡ none)
          ⊎ ((p : Payment) × (find_payment input.payment_id db ≡ some p))
        → (a : ParsedAmount) → input.amount ≡ a
        → IsCovered k after
    by_payment (inl missing) a e = ground arith
    by_payment (inr (p, found)) ParsedAmount.invalid e = ground arith
    by_payment (inr (p, found)) ParsedAmount.not_positive e = ground arith
    by_payment (inr (p, found)) (ParsedAmount.accepted RequestedAmount.infinity) e = ground arith
    by_payment (inr (p, found)) (ParsedAmount.accepted (RequestedAmount.not_a_number none)) e =
        ground arith
    by_payment (inr (p, found)) (ParsedAmount.accepted (RequestedAmount.not_a_number (some n))) e =
        absurd (ground (arith, finite, e))
    by_payment (inr (p, found)) (ParsedAmount.accepted (RequestedAmount.number n)) e =
        let is_id : p.id ≡ input.payment_id =
          (==_iff p.id input.payment_id).0
            (find_by_sound (λ q. q.id == input.payment_id) db.payments found) in
        by_commit n p (subst (λ m. find_payment m db ≡ some p) (sym is_id) found) (ground arith)

replay-IsCovered :
    (input : RequestInput) (request : Action Refund) (existing : Option Refund) (k : ℕ) (db : Db)
    → IsCovered k (request db).1
    → IsCovered k db
    → IsCovered k (replay input request existing db).1
replay-IsCovered input request none k db r h = r
replay-IsCovered input request (some e) k db r h = ground arith

-- A request of a refund, whether it returns or throws, leaves what is refunded or reserved within what
-- was paid; if the amount is NaN, on a database that refuses it.
pub request_current_admin_refund-IsCovered :
    (sv : Services) (refund_id now : ℕ) (u : User) (input : RequestInput) (k : ℕ) (db : Db)
    → refuses_nan input.amount ≡ true
    → IsCovered k db
    → IsCovered k (request_current_admin_refund sv refund_id now u input db).1
unfolding request_current_admin_refund
request_current_admin_refund-IsCovered sv refund_id now u input k db finite h = ground (
  arith,
  replay-IsCovered input (request_new_refund sv refund_id now input)
      (find_by_idempotency_key input.idempotency_key db) k db
      (request_new_refund-IsCovered sv refund_id now input k db finite h),
)

settled-amount :
    (k pid total : ℕ) (ps : List Payment)
    → amount_or_zero
        (find_by (λ p. p.id == k) (update_by (λ p. p.id == pid) (with_refunded total) ps))
      ≡ amount_or_zero (find_by (λ p. p.id == k) ps)
settled-amount k pid total [] = refl
settled-amount k pid total (p ∷ ps) = ground (arith, settled-amount k pid total ps)

commit_finalize-IsCovered :
    (input : FinalizeInput) (target : RefundStatus) (now : ℕ) (current : Refund) (k : ℕ) (db : Db)
    → find_refund current.id db ≡ some current
    → is_finalizable current.status ≡ true
    → count_by (λ r. r.id == current.id) db.refunds ≤ 1
    → IsCovered k db
    → IsCovered k (commit_finalize input target now current db)
unfolding commit_finalize transition_refund_status update_refund_state
commit_finalize-IsCovered input target now current k db found final one h =
    let rs = update_by (λ r. r.id == current.id) (finalized input target now) db.refunds in
    ground (
      arith,
      transition-reserved k current.id input target now db.refunds current found final one,
      settled-amount k current.payment_id (compute_succeeded_refund_amount current.payment_id rs)
          db.payments,
    )

finalize_found-IsCovered :
    (sv : Services) (now : ℕ) (input : FinalizeInput) (cfg : FinalizeConfig) (current : Refund)
    (k : ℕ) (db : Db)
    → find_refund current.id db ≡ some current
    → count_by (λ r. r.id == current.id) db.refunds ≤ 1
    → IsCovered k db
    → IsCovered k (finalize_found_refund sv now input cfg current db).1
unfolding finalize_found_refund publish_order_event
finalize_found-IsCovered sv now input cfg current k db found one h =
    ground (arith, commit_finalize-IsCovered input cfg.target_status now current k db)

-- Where the ids of refunds are unique, finishing a refund in any of the three ways, whether it returns
-- or throws, leaves what is refunded or reserved within what was paid.
pub finalize_refund-IsCovered :
    (sv : Services) (now : ℕ) (skip : Bool) (u : User) (input : FinalizeInput)
    (cfg : FinalizeConfig) (k : ℕ) (db : Db)
    → count_by (λ r. r.id == input.refund_id) db.refunds ≤ 1
    → IsCovered k db
    → IsCovered k (finalize_refund sv now skip u input cfg db).1
unfolding finalize_refund
finalize_refund-IsCovered sv now skip u input cfg k db one h =
    by_refund (Option-cases (find_refund input.refund_id db))
  where
    by_refund :
        (find_refund input.refund_id db ≡ none)
          ⊎ ((r : Refund) × (find_refund input.refund_id db ≡ some r))
        → IsCovered k (finalize_refund sv now skip u input cfg db).1
    by_refund (inl missing) = ground arith
    by_refund (inr (r, found)) =
        let is_id : r.id ≡ input.refund_id =
          (==_iff r.id input.refund_id).0
            (find_by_sound (λ q. q.id == input.refund_id) db.refunds found) in
        let covered : IsCovered k (finalize_found_refund sv now input cfg r db).1 =
          finalize_found-IsCovered sv now input cfg r k db
            (subst (λ m. find_refund m db ≡ some r) (sym is_id) found)
            (subst (λ m. count_by (λ q. q.id == m) db.refunds ≤ 1) (sym is_id) one) h in
        ground arith
