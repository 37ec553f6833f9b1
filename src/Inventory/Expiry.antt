-- ===== src/Inventory/Expiry.antt =====
-- The order in which lots are used.
use wer_te_backend.Prelude.{
  ℕ, ◌+◌, Bool, true, false, ◌&&◌, not, Option, none, some, ◌≤◌, ◌==◌, leb, List, [], ◌∷◌, ◌≡◌, ◌⊎◌,
  inl, inr, refl, arith, if◌then◌else◌, filter, count_by, Bool-cases,
}
use wer_te_backend.Domain.Store.{Lot, Db}
use wer_te_backend.Inventory.Lots.{
  compare_optional_dates, compare_lots, lot_le, insert_lot, sort_lots, is_available, available_lots,
}

-- Each lot comes no later than the next by the comparator.
abbrev IsSorted : List Lot → Type 0
IsSorted [] = Unit
IsSorted (l ∷ []) = Unit
IsSorted (l ∷ m ∷ ms) = (lot_le l m ≡ true) × IsSorted (m ∷ ms)

lot_le_total : (l m : Lot) → lot_le l m ≡ false → lot_le m l ≡ true
unfolding compare_lots compare_optional_dates
lot_le_total l m h = ground arith

insert_lot-IsSorted : (l : Lot) (ms : List Lot) → IsSorted ms → IsSorted (insert_lot l ms)
unfolding insert_lot
insert_lot-IsSorted l [] s = tt
insert_lot-IsSorted l (m ∷ []) s = by_order (Bool-cases (lot_le l m))
  where
    by_order : (lot_le l m ≡ true) ⊎ (lot_le l m ≡ false) → IsSorted (insert_lot l (m ∷ []))
    by_order (inl h) = rw h (h, tt)
    by_order (inr h) = rw h (lot_le_total l m h, tt)
insert_lot-IsSorted l (m ∷ n ∷ ms) s =
    ground (arith, lot_le_total l m, insert_lot-IsSorted l (n ∷ ms) s.1)

count-insert_lot :
    (p : Lot → Bool) (l : Lot) (ms : List Lot)
    → count_by p (insert_lot l ms) ≡ (if p l then 1 else 0) + count_by p ms
unfolding insert_lot
count-insert_lot p l [] = refl
count-insert_lot p l (m ∷ ms) = ground (arith, count-insert_lot p l ms)

count-sort_lots : (p : Lot → Bool) (ls : List Lot) → count_by p (sort_lots ls) ≡ count_by p ls
unfolding sort_lots
count-sort_lots p [] = refl
count-sort_lots p (l ∷ ls) =
    ground (arith, count-insert_lot p l (sort_lots ls), count-sort_lots p ls)

sort_lots-IsSorted : (ls : List Lot) → IsSorted (sort_lots ls)
unfolding sort_lots
sort_lots-IsSorted [] = tt
sort_lots-IsSorted (l ∷ ls) = insert_lot-IsSorted l (sort_lots ls) (sort_lots-IsSorted ls)

count-filter :
    (p q : Lot → Bool) (ls : List Lot) → count_by p (filter q ls) ≡ count_by (λ l. q l && p l) ls
unfolding filter
count-filter p q [] = refl
count-filter p q (l ∷ ls) = ground (arith, count-filter p q ls)

-- A lot that expires comes before one that does not, and the earlier date before the later.
abbrev pub expires_by : Option ℕ → Option ℕ → Bool
expires_by l none = true
expires_by none (some m) = false
expires_by (some l) (some m) = leb l m

-- A lot is used before another: it expires no later; of two that expire together it was received no
-- later; of two that were also received together it was created no later; and else its id is no larger.
pub record IsUsedBefore (l m : Lot) : Type 0 where
  pub by_expiry : expires_by l.expiry_date m.expiry_date ≡ true
  pub by_receipt : l.expiry_date ≡ m.expiry_date → l.received_at ≤ m.received_at
  pub by_creation :
      l.expiry_date ≡ m.expiry_date → l.received_at ≡ m.received_at → l.created_at ≤ m.created_at
  pub by_id :
      l.expiry_date ≡ m.expiry_date
      → l.received_at ≡ m.received_at
      → l.created_at ≡ m.created_at
      → l.id ≤ m.id

lot_le-IsUsedBefore : (l m : Lot) → lot_le l m ≡ true → IsUsedBefore l m
unfolding compare_lots compare_optional_dates
lot_le-IsUsedBefore l m h = record {
  by_expiry = ground (arith, h);
  by_receipt = λ e. ground (arith, h, e);
  by_creation = λ e r. ground (arith, h, e, r);
  by_id = λ e r c. ground (arith, h, e, r, c);
}

-- Each lot of the list is used before the next.
abbrev pub IsFirstExpiredFirst : List Lot → Type 0
IsFirstExpiredFirst [] = Unit
IsFirstExpiredFirst (l ∷ []) = Unit
IsFirstExpiredFirst (l ∷ m ∷ ms) = IsUsedBefore l m × IsFirstExpiredFirst (m ∷ ms)

IsSorted-IsFirstExpiredFirst : (ls : List Lot) → IsSorted ls → IsFirstExpiredFirst ls
IsSorted-IsFirstExpiredFirst [] s = tt
IsSorted-IsFirstExpiredFirst (l ∷ []) s = tt
IsSorted-IsFirstExpiredFirst (l ∷ m ∷ ms) s =
    (lot_le-IsUsedBefore l m s.0, IsSorted-IsFirstExpiredFirst (m ∷ ms) s.1)

count-available :
    (p : Lot → Bool) (m : ℕ) (ls : List Lot)
    → count_by (λ l. is_available m l && p l) ls
      ≡ count_by (λ l. l.menu_item_id == m && not (l.remaining_quantity == 0) && p l) ls
count-available p m [] = refl
count-available p m (l ∷ ls) = ground (arith, count-available p m ls)

-- The lots that a reservation goes through come in the order of expiry, those without a date last, then
-- of receipt, of creation and of id; and they are exactly the lots of the item whose remaining
-- quantity is not zero: whatever is counted, the count is the same.
pub available_lots-IsFirstExpiredFirst :
    (p : Lot → Bool) (m : ℕ) (db : Db)
    → IsFirstExpiredFirst (available_lots m db)
      × (count_by p (available_lots m db)
          ≡ count_by (λ l. l.menu_item_id == m && not (l.remaining_quantity == 0) && p l) db.lots)
unfolding available_lots
available_lots-IsFirstExpiredFirst p m db = (
  IsSorted-IsFirstExpiredFirst (available_lots m db)
      (sort_lots-IsSorted (filter (is_available m) db.lots)),
  ground (
    arith,
    count-sort_lots p (filter (is_available m) db.lots),
    count-filter p (is_available m) db.lots,
    count-available p m db.lots,
  ),
)
