-- ===== src/Flow/Rules.antt =====
-- The rules by which a service call is shown to make progress only.
use mathlib.Core.Path.{subst}
use wer_te_backend.Prelude.{
  ℕ, Bool, true, false, some, ◌==◌, ==_iff, find_by_sound, sym, ◌≡◌, ◌⊎◌, inl, inr, refl, arith,
  if◌then◌else◌,
}
use wer_te_backend.Orders.View.{find_order}
use wer_te_backend.Domain.Entities.{Order}
use wer_te_backend.Domain.Enums.{OrderStatus}
use wer_te_backend.Domain.Store.{Db, Action, Result, ◌>>=◌}
use wer_te_backend.Inventory.Untouched.{restore_tracked_inventory_for_order-part}
use wer_te_backend.Orders.Effects.{settle_cash_payment, release_inventory}
use wer_te_backend.Flow.Progress.{Steps, Steps-same, Steps-trans}

pub Steps-refl : (db : Db) → Steps db db
Steps-refl db = Steps-same db db refl

-- An order is found by its own id.
pub found_by_id :
    (k : ℕ) (o : Order) (db : Db) → find_order k db ≡ some o → find_order o.id db ≡ some o
found_by_id k o db e =
    let same : o.id ≡ k = (==_iff o.id k).0 (find_by_sound (λ r. r.id == k) db.orders e) in
    subst (λ n. find_order n db ≡ some o) (sym same) e

pub bind-Steps :
    {A B : Type 0} (m : Action A) (f : A → Action B) (db : Db)
    → Steps db (m db).1
    → ((a : A) (db' : Db) → Steps db' (f a db').1)
    → Steps db ((m >>= f) db).1
bind-Steps {A} {B} m f db s k = continue (m db) s
  where
    continue :
        (x : Result A × Db)
        → Steps db x.1
        → let y : Result B × Db = elim x.0 [
          | Result.ok a ↦ f a x.1
          | Result.err e ↦ (Result.err e, x.1)
        ] in
          Steps db y.1
    continue (Result.ok a, db') s = Steps-trans s (k a db')
    continue (Result.err e, db') s = s

pub if-Steps :
    {B : Type 0} (b : Bool) (m n : Action B) (db : Db)
    → Steps db (m db).1
    → Steps db (n db).1
    → Steps db ((if b then m else n) db).1
if-Steps true m n db s t = s
if-Steps false m n db s t = t

pub Steps-then-same : {a b : Db} → Steps a b → (c : Db) → c.orders ≡ b.orders → Steps a c
Steps-then-same {b = b} s c same = Steps-trans s (Steps-same b c same)

-- What a step of a call left of the tables, where the orders are what they were or what a commit
-- made of them.
pub commit_or_same-Steps :
    (p : Type 0) (db committed after : Db)
    → (after.orders ≡ db.orders) ⊎ (p × (after.orders ≡ committed.orders))
    → (p → Steps db committed)
    → Steps db after
commit_or_same-Steps p db committed after (inl same) s = Steps-same db after same
commit_or_same-Steps p db committed after (inr (h, e)) s =
    Steps-trans (s h) (Steps-same committed after e)

settle_cash_payment-Steps : (k now : ℕ) (db : Db) → Steps db (settle_cash_payment k now db)
unfolding settle_cash_payment
settle_cash_payment-Steps k now db = Steps-same db (settle_cash_payment k now db) refl

pub settle-Steps :
    (b : Bool) (k now : ℕ) (db : Db) → Steps db (if b then settle_cash_payment k now db else db)
settle-Steps true k now db = settle_cash_payment-Steps k now db
settle-Steps false k now db = Steps-refl db

-- The release of the stock does not touch an order.
pub release_inventory-orders :
    (order : Order) (target : OrderStatus) (db : Db)
    → (release_inventory order target db).orders ≡ db.orders
unfolding release_inventory
release_inventory-orders order target db = ground (
  arith,
  restore_tracked_inventory_for_order-part (λ x. x.orders) (λ rows x. refl) (λ rows x. refl)
      (λ rows x. refl) (λ rows x. refl) order.items db,
)

pub release_inventory-Steps :
    (order : Order) (target : OrderStatus) (db : Db) → Steps db (release_inventory order target db)
release_inventory-Steps order target db =
    Steps-same db (release_inventory order target db) (release_inventory-orders order target db)
