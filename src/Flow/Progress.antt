-- ===== src/Flow/Progress.antt =====
-- What a handler does to every order: it follows the diagram and extends the history.
use mathlib.Core.Path.{subst, ap}
use wer_te_backend.Prelude.{
  ℕ, true, false, none, some, ◌==◌, ◌≡◌, refl, sym, arith, ◌∙◌, ◌⊎◌, find_by_sound, Bool-cases,
  ==_iff, inl, inr, Option-cases,
}
use wer_te_backend.Domain.Enums.{OrderStatus}
use wer_te_backend.Domain.Entities.{Order}
use wer_te_backend.Domain.Store.{Db}
use wer_te_backend.Orders.View.{
  find_order, update_order_status, apply_status, StatusUpdate, find_order-update_order_status,
}
use wer_te_backend.Flow.Diagram.{Edge, Moves, stay, go, Moves-trans, IsHistory, IsHistory-append}

abbrev pub HasHistory : Order → Type 0
HasHistory o = IsHistory none o.status_history o.status

-- The order moved along the diagram, its history still fits, and the rest of it is as it was.
pub record Progress (o o' : Order) : Type 0 where
  pub moves : Moves o.delivery_type o.status o'.status
  pub history : HasHistory o → HasHistory o'
  pub same_type : o'.delivery_type ≡ o.delivery_type
  pub same_items : o'.items ≡ o.items
  pub same_customer : o'.customer_profile_id ≡ o.customer_profile_id
  pub same_merchant : o'.merchant_id ≡ o.merchant_id

pub Progress-refl : (o : Order) → Progress o o
Progress-refl o = record {
  moves = stay;
  history = λ h. h;
  same_type = refl;
  same_items = refl;
  same_customer = refl;
  same_merchant = refl;
}

pub Progress-trans : {a b c : Order} → Progress a b → Progress b c → Progress a c
Progress-trans {a} {b} {c} p q = record {
  moves = Moves-trans p.moves (subst (λ t. Moves t b.status c.status) p.same_type q.moves);
  history = λ h. q.history (p.history h);
  same_type = q.same_type ∙ p.same_type;
  same_items = q.same_items ∙ p.same_items;
  same_customer = q.same_customer ∙ p.same_customer;
  same_merchant = q.same_merchant ∙ p.same_merchant;
}

-- What a new order has come to: it was placed, and its history says so.
pub record Began (o : Order) : Type 0 where
  pub history : HasHistory o
  pub moves : Moves o.delivery_type OrderStatus.placed o.status

pub Progress-Began : {o o' : Order} → Progress o o' → Began o → Began o'
Progress-Began {o} {o'} p b = record {
  history = p.history b.history;
  moves =
      subst (λ t. Moves t OrderStatus.placed o'.status) (sym p.same_type)
        (Moves-trans b.moves p.moves);
}

-- Every order is still there, and has made progress; an order that was not there has begun.
pub record Steps (db db' : Db) : Type 0 where
  pub each :
      (k : ℕ) (o : Order)
      → find_order k db ≡ some o
      → (o' : Order) × (find_order k db' ≡ some o') × Progress o o'
  pub fresh : (k : ℕ) (o : Order) → find_order k db ≡ none → find_order k db' ≡ some o → Began o

pub Steps-same : (db db' : Db) → db'.orders ≡ db.orders → Steps db db'
Steps-same db db' same = record {
  each = λ k o e. (o, rw same e, Progress-refl o);
  fresh = λ k o e after. absurd (ground (arith, same, e, after));
}

pub Steps-trans : {a b c : Db} → Steps a b → Steps b c → Steps a c
Steps-trans {a} {b} {c} s t = record {
  each = λ k o e.
      let (o1, e1, p) = s.each k o e in
      let (o2, e2, q) = t.each k o1 e1 in (o2, e2, Progress-trans p q);
  fresh = λ k o e after. by_middle k o e after (Option-cases (find_order k b));
}
  where
    by_middle :
        (k : ℕ) (o : Order)
        → find_order k a ≡ none
        → find_order k c ≡ some o
        → (find_order k b ≡ none) ⊎ ((m : Order) × (find_order k b ≡ some m))
        → Began o
    by_middle k o e after (inl none_yet) = t.fresh k o none_yet after
    by_middle k o e after (inr (m, there)) =
        let (o2, e2, q) = t.each k m there in
        subst (λ x. Began x) (same_order o o2 after e2) (Progress-Began q (s.fresh k m e there))
      where
        same_order : (x y : Order) → find_order k c ≡ some x → find_order k c ≡ some y → y ≡ x
        same_order x y p q = cc

apply_status-Progress :
    (u : StatusUpdate) (o : Order)
    → u.from_status ≡ o.status
    → Edge o.delivery_type o.status u.status
    → Progress o (apply_status u o)
unfolding apply_status
apply_status-Progress u o from edge = record {
  moves = go edge stay;
  history = λ h. IsHistory-append none o.status_history _ h (ap some from);
  same_type = refl;
  same_items = refl;
  same_customer = refl;
  same_merchant = refl;
}

-- A status write from the status that was read, along an edge of the diagram.
pub update_order_status-Steps :
    (k : ℕ) (u : StatusUpdate) (db : Db) (o : Order)
    → find_order k db ≡ some o
    → u.from_status ≡ o.status
    → Edge o.delivery_type o.status u.status
    → Steps db (update_order_status k u db)
update_order_status-Steps k u db o found from edge = record {
  each = λ j p e. write j p e (Bool-cases (p.id == k));
  fresh = λ j p e after. absurd (ground (arith, find_order-update_order_status j k u db, e, after));
}
  where
    at_row : (p : Order) → o ≡ p → Progress p (apply_status u p)
    at_row p e = subst (λ q. Progress q (apply_status u q)) e (apply_status-Progress u o from edge)

    row_is : (j : ℕ) (p : Order) → find_order j db ≡ some p → (p.id == k) ≡ true → o ≡ p
    row_is j p e same =
        let at_j : p.id ≡ j = (==_iff p.id j).0 (find_by_sound (λ r. r.id == j) db.orders e) in
        let at_k : p.id ≡ k = (==_iff p.id k).0 same in
        let e' : find_order k db ≡ some p =
          subst (λ n. find_order n db ≡ some p) (sym at_j ∙ at_k) e in
        cc

    write :
        (j : ℕ) (p : Order)
        → find_order j db ≡ some p
        → ((p.id == k) ≡ true) ⊎ ((p.id == k) ≡ false)
        → (q : Order) × (find_order j (update_order_status k u db) ≡ some q) × Progress p q
    write j p e (inl same) = (
      apply_status u p,
      ground (arith, find_order-update_order_status j k u db),
      at_row p (row_is j p e same),
    )
    write j p e (inr other) =
        (p, ground (arith, find_order-update_order_status j k u db), Progress-refl p)
