-- ===== src/Carts/Consistency.antt =====
-- What each commit of an operation on carts does to the totals.
use wer_te_backend.Prelude.{
  ℕ, ◌*◌, Bool, true, false, not, Option, none, some, List, [], ◌∷◌, ◌++◌, ◌==◌, ◌≡◌, refl, arith,
  if◌then◌else◌, filter, update_first, delete_first, find_by_sound,
}
use wer_te_backend.Domain.Entities.{User}
use wer_te_backend.Domain.Shop.{Cart, CartItem}
use wer_te_backend.Domain.Store.{Db, Result}
use wer_te_backend.Carts.Lookup.{
  OwnedItem, find_cart_item, recompute_cart_totals, resolve_owned_cart_item,
}
use wer_te_backend.Carts.Mutation.{
  CartRun, UpdateCartItemInput, Addition, new_cart, Change, commit_addition, open_cart,
  open_cart_id, new_cart_item, commit_change, reprice, commit_removal, commit_clearing,
  prepare_change,
}
use wer_te_backend.Carts.Totals.{
  AllPriced, OthersHaveTotals, AgreeBut, AreConsistent, AllHaveTotals-others, AllHaveTotals-append,
  recompute-AllHaveTotals, sum_in-append_other, sum_in-update_other, sum_in-delete_other,
  sum_in-filter_other,
}

AllPriced-append :
    (items : List CartItem) (i : CartItem)
    → i.line_total ≡ i.unit_price_snapshot * i.quantity
    → AllPriced items
    → AllPriced (items ++ i ∷ [])
AllPriced-append [] i h all = (h, tt)
AllPriced-append (x ∷ items) i h (p, all) = (p, AllPriced-append items i h all)

AllPriced-update :
    (q : CartItem → Bool) (g : CartItem → CartItem) (items : List CartItem)
    → ((x : CartItem) → (g x).line_total ≡ (g x).unit_price_snapshot * (g x).quantity)
    → AllPriced items
    → AllPriced (update_first q g items)
AllPriced-update q g [] h all = tt
AllPriced-update q g (x ∷ items) h (p, all) = go (q x) (AllPriced-update q g items h all)
  where
    go :
        (b : Bool)
        → AllPriced (update_first q g items)
        → AllPriced (if b then g x ∷ items else x ∷ update_first q g items)
    go true rest = (h x, all)
    go false rest = (p, rest)

AllPriced-delete :
    (q : CartItem → Bool) (items : List CartItem)
    → AllPriced items
    → AllPriced (delete_first q items)
AllPriced-delete q [] all = tt
AllPriced-delete q (x ∷ items) (p, all) = go (q x) (AllPriced-delete q items all)
  where
    go :
        (b : Bool)
        → AllPriced (delete_first q items)
        → AllPriced (if b then items else x ∷ delete_first q items)
    go true rest = all
    go false rest = (p, rest)

AllPriced-filter :
    (q : CartItem → Bool) (items : List CartItem) → AllPriced items → AllPriced (filter q items)
unfolding filter
AllPriced-filter q [] all = tt
AllPriced-filter q (x ∷ items) (p, all) = go (q x) (AllPriced-filter q items all)
  where
    go :
        (b : Bool)
        → AllPriced (filter q items)
        → AllPriced (if b then x ∷ filter q items else filter q items)
    go true rest = (p, rest)
    go false rest = rest

-- A change of the items of one cart, followed by the new totals of that cart.
recompute-AreConsistent :
    (now k : ℕ) (items items' : List CartItem) (db : Db)
    → AgreeBut k items items'
    → OthersHaveTotals k items db.carts
    → AllPriced items'
    → AreConsistent (recompute_cart_totals now k (record db { cart_items = items' }))
unfolding recompute_cart_totals
recompute-AreConsistent now k items items' db agree others priced = record {
  totals = recompute-AllHaveTotals now k items items' db.carts agree others;
  priced = priced;
}

open_cart-others :
    (run : CartRun) (found : Addition) (branch_id : ℕ) (o : Option Cart) (db : Db)
    → AreConsistent db
    → OthersHaveTotals
        (open_cart_id run o)
        db.cart_items
        (open_cart run found.profile branch_id o db.carts)
open_cart-others run found branch_id none db h =
    AllHaveTotals-append run.cart_id db.cart_items db.carts (new_cart run found.profile branch_id)
      refl h.totals
open_cart-others run found branch_id (some c) db h =
    AllHaveTotals-others c.id db.cart_items db.carts h.totals

pub commit_addition-AreConsistent :
    (run : CartRun) (branch_id quantity : ℕ) (found : Addition) (db : Db)
    → AreConsistent db
    → AreConsistent (commit_addition run branch_id quantity found db)
unfolding commit_addition
commit_addition-AreConsistent run branch_id quantity found db h =
    let i = new_cart_item run quantity found in
    recompute-AreConsistent run.now (open_cart_id run found.active_cart) db.cart_items
      (db.cart_items ++ i ∷ [])
      (record db { carts = open_cart run found.profile branch_id found.active_cart db.carts })
      (λ j d f. sum_in-append_other j (open_cart_id run found.active_cart) f db.cart_items i refl d)
      (open_cart-others run found branch_id found.active_cart db h)
      (AllPriced-append db.cart_items i refl h.priced)

-- The item that was found is in its cart.
abbrev pub IsOwned : OwnedItem → Db → Type 0
IsOwned o db = (find_cart_item o.item.id db ≡ some o.item) × (o.item.cart_id ≡ o.cart.id)

pub resolve_owned_cart_item-IsOwned :
    (u : User) (k : ℕ) (o : OwnedItem) (db : Db)
    → resolve_owned_cart_item u k db ≡ Result.ok o
    → IsOwned o db
unfolding resolve_owned_cart_item
resolve_owned_cart_item-IsOwned u k o db h = ground (
  arith,
  find_by_sound (λ i. i.id == k) db.cart_items {a = o.item},
  find_by_sound (λ c. c.id == o.item.cart_id) db.carts {a = o.cart},
)

pub prepare_change-owned :
    (u : User) (k : ℕ) (input : UpdateCartItemInput) (found : Change) (db : Db)
    → prepare_change u k input db ≡ Result.ok found
    → resolve_owned_cart_item u k db ≡ Result.ok found.owned
unfolding prepare_change
prepare_change-owned u k input found db h = ground arith

pub commit_change-AreConsistent :
    (now quantity : ℕ) (found : Change) (db : Db)
    → IsOwned found.owned db
    → AreConsistent db
    → AreConsistent (commit_change now quantity found db)
unfolding commit_change
commit_change-AreConsistent now quantity found db (e, same) h =
    let g = reprice quantity found in
    let k = found.owned.cart.id in
    recompute-AreConsistent now k db.cart_items
      (update_first (λ i. i.id == found.owned.item.id) g db.cart_items) db
      (λ j d f.
        sum_in-update_other j k found.owned.item.id f g db.cart_items found.owned.item
          (λ x. ground arith) e same d)
      (AllHaveTotals-others k db.cart_items db.carts h.totals)
      (AllPriced-update (λ i. i.id == found.owned.item.id) g db.cart_items (λ x. ground arith)
        h.priced)

pub commit_removal-AreConsistent :
    (now : ℕ) (owned : OwnedItem) (db : Db)
    → IsOwned owned db
    → AreConsistent db
    → AreConsistent (commit_removal now owned db)
unfolding commit_removal
commit_removal-AreConsistent now owned db (e, same) h =
    recompute-AreConsistent now owned.cart.id db.cart_items
      (delete_first (λ i. i.id == owned.item.id) db.cart_items) db
      (λ j d f.
        sum_in-delete_other j owned.cart.id owned.item.id f db.cart_items owned.item e same d)
      (AllHaveTotals-others owned.cart.id db.cart_items db.carts h.totals)
      (AllPriced-delete (λ i. i.id == owned.item.id) db.cart_items h.priced)

pub commit_clearing-AreConsistent :
    (now : ℕ) (o : Option Cart) (db : Db)
    → AreConsistent db
    → AreConsistent (commit_clearing now o db)
unfolding commit_clearing
commit_clearing-AreConsistent now none db h = h
commit_clearing-AreConsistent now (some c) db h =
    recompute-AreConsistent now c.id db.cart_items
      (filter (λ i. not (i.cart_id == c.id)) db.cart_items) db
      (λ j d f. sum_in-filter_other j c.id f db.cart_items d)
      (AllHaveTotals-others c.id db.cart_items db.carts h.totals)
      (AllPriced-filter (λ i. not (i.cart_id == c.id)) db.cart_items h.priced)
