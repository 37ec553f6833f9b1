-- ===== src/Carts/Totals.antt =====
-- The totals of the carts.
use wer_te_backend.Prelude.{
  ℕ, ◌+◌, ◌*◌, true, false, not, some, List, [], ◌∷◌, ◌++◌, ◌==◌, ◌≡◌, refl, ◌⊎◌, inl, inr, arith,
  Bool-cases, if◌then◌else◌, sum_of, filter, find_by, update_by, update_first, delete_first,
}
use wer_te_backend.Domain.Shop.{Cart, CartItem}
use wer_te_backend.Domain.Store.{Db}
use wer_te_backend.Carts.Lookup.{items_of, add_line_totals, add_quantities, with_totals}

-- The sum of a measure over the items of a cart.
abbrev pub sum_in : ℕ → (CartItem → ℕ) → List CartItem → ℕ
sum_in cart_id f items = sum_of (λ i. if i.cart_id == cart_id then f i else 0) items

-- The stored totals of a cart are the sums over its items.
pub record HasTotals (items : List CartItem) (c : Cart) : Type 0 where
  pub quantity : c.total_quantity ≡ sum_in c.id (λ i. i.quantity) items
  pub subtotal : c.subtotal_amount ≡ sum_in c.id (λ i. i.line_total) items
  pub total : c.total_amount ≡ c.subtotal_amount

abbrev pub AllHaveTotals : List CartItem → List Cart → Type 0
AllHaveTotals items [] = Unit
AllHaveTotals items (c ∷ cs) = HasTotals items c × AllHaveTotals items cs

-- The line total of each item is its price times its quantity.
abbrev pub AllPriced : List CartItem → Type 0
AllPriced [] = Unit
AllPriced (i ∷ is) = (i.line_total ≡ i.unit_price_snapshot * i.quantity) × AllPriced is

pub record AreConsistent (db : Db) : Type 0 where
  pub totals : AllHaveTotals db.cart_items db.carts
  pub priced : AllPriced db.cart_items

-- The same of every cart but one.
abbrev pub OthersHaveTotals : ℕ → List CartItem → List Cart → Type 0
OthersHaveTotals k items [] = Unit
OthersHaveTotals k items (c ∷ cs) =
    ((c.id == k) ≡ false → HasTotals items c) × OthersHaveTotals k items cs

pub AllHaveTotals-others :
    (k : ℕ) (items : List CartItem) (carts : List Cart)
    → AllHaveTotals items carts
    → OthersHaveTotals k items carts
AllHaveTotals-others k items [] all = tt
AllHaveTotals-others k items (c ∷ cs) (h, rest) = ((λ d. h), AllHaveTotals-others k items cs rest)

pub AllHaveTotals-append :
    (k : ℕ) (items : List CartItem) (carts : List Cart) (c : Cart)
    → c.id ≡ k
    → AllHaveTotals items carts
    → OthersHaveTotals k items (carts ++ c ∷ [])
AllHaveTotals-append k items [] c e all = ((λ d. ground (arith, e, d)), tt)
AllHaveTotals-append k items (x ∷ carts) c e (h, rest) =
    ((λ d. h), AllHaveTotals-append k items carts c e rest)

-- Two lists of items hold the same for every cart but one.
abbrev pub AgreeBut : ℕ → List CartItem → List CartItem → Type 0
AgreeBut k items items' =
    (j : ℕ) → (j == k) ≡ false → (f : CartItem → ℕ) → sum_in j f items' ≡ sum_in j f items

add_quantities-sum :
    (k n : ℕ) (items : List CartItem)
    → add_quantities n (items_of k items) ≡ n + sum_in k (λ i. i.quantity) items
unfolding add_quantities filter
add_quantities-sum k n [] = omega arith
add_quantities-sum k n (i ∷ is) =
    ground (arith, add_quantities-sum k n is, add_quantities-sum k (n + i.quantity) is)

add_line_totals-sum :
    (k n : ℕ) (items : List CartItem)
    → add_line_totals n (items_of k items) ≡ n + sum_in k (λ i. i.line_total) items
unfolding add_line_totals filter
add_line_totals-sum k n [] = omega arith
add_line_totals-sum k n (i ∷ is) =
    ground (arith, add_line_totals-sum k n is, add_line_totals-sum k (n + i.line_total) is)

-- Recomputing the totals of the cart whose items changed makes all totals right again.
pub recompute-AllHaveTotals :
    (now k : ℕ) (items items' : List CartItem) (carts : List Cart)
    → AgreeBut k items items'
    → OthersHaveTotals k items carts
    → AllHaveTotals items' (update_by (λ c. c.id == k) (with_totals now (items_of k items')) carts)
recompute-AllHaveTotals now k items items' [] agree all = tt
recompute-AllHaveTotals now k items items' (c ∷ cs) agree (h, rest) =
    (one (Bool-cases (c.id == k)), recompute-AllHaveTotals now k items items' cs agree rest)
  where
    one :
        ((c.id == k) ≡ true) ⊎ ((c.id == k) ≡ false)
        → HasTotals items' (if c.id == k then with_totals now (items_of k items') c else c)
    one (inl e) = record {
      quantity = ground (arith, add_quantities-sum k 0 items');
      subtotal = ground (arith, add_line_totals-sum k 0 items');
      total = ground arith;
    }
    one (inr e) = record {
      quantity = ground (arith, agree c.id e (λ i. i.quantity), (h e).quantity);
      subtotal = ground (arith, agree c.id e (λ i. i.line_total), (h e).subtotal);
      total = ground (arith, (h e).total);
    }

pub sum_in-append_other :
    (j k : ℕ) (f : CartItem → ℕ) (items : List CartItem) (i : CartItem)
    → i.cart_id ≡ k
    → (j == k) ≡ false
    → sum_in j f (items ++ i ∷ []) ≡ sum_in j f items
sum_in-append_other j k f [] i e d = ground arith
sum_in-append_other j k f (x ∷ items) i e d = ground (arith, sum_in-append_other j k f items i e d)

pub sum_in-update_other :
    (j k n : ℕ) (f : CartItem → ℕ) (g : CartItem → CartItem) (items : List CartItem) (i : CartItem)
    → ((x : CartItem) → (g x).cart_id ≡ x.cart_id)
    → find_by (λ x. x.id == n) items ≡ some i
    → i.cart_id ≡ k
    → (j == k) ≡ false
    → sum_in j f (update_first (λ x. x.id == n) g items) ≡ sum_in j f items
sum_in-update_other j k n f g [] i same h e d = refl
sum_in-update_other j k n f g (x ∷ items) i same h e d =
    ground (arith, same x, sum_in-update_other j k n f g items i same)

pub sum_in-delete_other :
    (j k n : ℕ) (f : CartItem → ℕ) (items : List CartItem) (i : CartItem)
    → find_by (λ x. x.id == n) items ≡ some i
    → i.cart_id ≡ k
    → (j == k) ≡ false
    → sum_in j f (delete_first (λ x. x.id == n) items) ≡ sum_in j f items
sum_in-delete_other j k n f [] i h e d = refl
sum_in-delete_other j k n f (x ∷ items) i h e d =
    ground (arith, sum_in-delete_other j k n f items i)

pub sum_in-filter_other :
    (j k : ℕ) (f : CartItem → ℕ) (items : List CartItem)
    → (j == k) ≡ false
    → sum_in j f (filter (λ x. not (x.cart_id == k)) items) ≡ sum_in j f items
unfolding filter
sum_in-filter_other j k f [] d = refl
sum_in-filter_other j k f (x ∷ items) d = ground (arith, sum_in-filter_other j k f items d)
