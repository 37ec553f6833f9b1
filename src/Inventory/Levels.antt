-- ===== src/Inventory/Levels.antt =====
-- What each stock statement does to the level of every row.
use wer_te_backend.Prelude.{
  ℕ, ◌+◌, Bool, true, false, none, some, List, ◌==◌, ◌≡◌, refl, arith, if◌then◌else◌, find_by,
  update_by, find_by-update_by, find_by-update_by_self, find_by_sound, rewritten, Bool-cases,
  Option-cases, ==_iff, inl, inr, ◌⊎◌,
}
use wer_te_backend.Domain.Store.{StockRow, Lot}
use wer_te_backend.Inventory.Stock.{
  find_row, find_lot, lower, raise, decrement_stock, increment_stock, decrement_lot, increment_lot,
  level, lot_level, present, lot_present, take_lot, put_lot,
}

module _ (j k : ℕ) (rows : List StockRow) (f : StockRow → StockRow)
    (keeps : (j : ℕ) (r : StockRow) → ((f r).id == j) ≡ (r.id == j)) where
  -- An update of another row is not seen.
  level-update_ne : (k == j) ≡ false → level j (update_by (λ s. s.id == k) f rows) ≡ level j rows
  unfolding level
  level-update_ne ne = elim (Option-cases (find_row j rows)) [
    | inl e ↦ ground (arith, find_by-update_by (λ s. s.id == j) (λ s. s.id == k) f rows (keeps j))
    | inr (r, e) ↦ ground (
      arith,
      find_by-update_by (λ s. s.id == j) (λ s. s.id == k) f rows (keeps j),
      find_by_sound (λ s. s.id == j) rows e,
    )
  ]

-- A decrement that is done takes its quantity from the row that it names, and from no other row.
pub level-decrement_stock :
    (j k q : ℕ) (rows : List StockRow)
    → (decrement_stock k q rows).0 ≡ true
    → level j rows ≡ level j (decrement_stock k q rows).1 + (if k == j then q else 0)
unfolding decrement_stock level
level-decrement_stock j k q rows h = elim (Bool-cases (k == j)) [
  | inr ne ↦ grind (arith, level-update_ne j k rows (lower q) (λ j r. refl) ne)
  | inl e ↦ rw (← ((==_iff k j).0 e)) (taken (Option-cases (find_row k rows)))
]
  where
    taken :
        (find_row k rows ≡ none) ⊎ ((r : StockRow) × (find_row k rows ≡ some r))
        → level k rows ≡ level k (decrement_stock k q rows).1 + (if k == k then q else 0)
    taken (inl e) = ground arith
    taken (inr (r, e)) =
        ground (arith, find_by-update_by_self (λ s. s.id == k) (lower q) rows (λ s. refl) e)

pub present-decrement_stock :
    (j k q : ℕ) (rows : List StockRow) → present j (decrement_stock k q rows).1 ≡ present j rows
unfolding decrement_stock present
present-decrement_stock j k q rows =
    ground (arith, find_by-update_by (λ s. s.id == j) (λ s. s.id == k) (lower q) rows (λ s. refl))

pub present-increment_stock :
    (j k q : ℕ) (rows : List StockRow) → present j (increment_stock k q rows) ≡ present j rows
unfolding increment_stock present
present-increment_stock j k q rows =
    ground (arith, find_by-update_by (λ s. s.id == j) (λ s. s.id == k) (raise q) rows (λ s. refl))

-- A quantity reaches a row only if the row is there.
abbrev pub if_there : Bool → ℕ → ℕ
if_there there q = if there then q else 0

-- An increment adds its quantity to the row that it names, if there is one, and to no other row.
pub level-increment_stock :
    (j k q : ℕ) (rows : List StockRow)
    → level j (increment_stock k q rows)
      ≡ level j rows + if_there (present j rows) (if k == j then q else 0)
unfolding increment_stock level present
level-increment_stock j k q rows = elim (Option-cases (find_row j rows)) [
  | inl e ↦
      ground (arith, find_by-update_by (λ s. s.id == j) (λ s. s.id == k) (raise q) rows (λ s. refl))
  | inr (r, e) ↦ ground (
    arith,
    find_by-update_by (λ s. s.id == j) (λ s. s.id == k) (raise q) rows (λ s. refl),
    find_by_sound (λ s. s.id == j) rows e,
  )
]

pub level_absent : (j : ℕ) (rows : List StockRow) → present j rows ≡ false → level j rows ≡ 0
unfolding level present
level_absent j rows h = ground arith

module _ (j k q : ℕ) (lots : List Lot) where
  abbrev row_j : Lot → Bool
  row_j l = l.id == j

  -- A taken lot is found again, with less in it.
  lot_after_take :
      find_by (λ l. l.id == j) (update_by (λ l. l.id == k) (take_lot q) lots)
      ≡ rewritten (λ l. l.id == k) (take_lot q) (find_lot j lots)
  lot_after_take = find_by-update_by row_j (λ l. l.id == k) (take_lot q) lots (λ l. refl)

  lot_after_put :
      find_by (λ l. l.id == j) (update_by (λ l. l.id == k) (put_lot q) lots)
      ≡ rewritten (λ l. l.id == k) (put_lot q) (find_lot j lots)
  lot_after_put = find_by-update_by row_j (λ l. l.id == k) (put_lot q) lots (λ l. refl)

  found_lot_id : {l : Lot} → find_lot j lots ≡ some l → (l.id == j) ≡ true
  found_lot_id e = find_by_sound row_j lots e

-- A lot that is reported reserved loses the quantity, and no other lot does.
pub lot_level-decrement_lot :
    (j k q : ℕ) (lots : List Lot)
    → (decrement_lot k q lots).0 ≡ true
    → lot_level j lots ≡ lot_level j (decrement_lot k q lots).1 + (if k == j then q else 0)
unfolding decrement_lot lot_level
lot_level-decrement_lot j k q lots h = elim (Bool-cases (k == j)) [
  | inl e ↦ rw (← ((==_iff k j).0 e)) (elim (Option-cases (find_lot k lots)) [
    | inl missing ↦ ground arith
    | inr (l, found) ↦ ground (arith, lot_after_take k k q lots, found_lot_id k k q lots found)
  ])
  | inr ne ↦ elim (Option-cases (find_lot j lots)) [
    | inl missing ↦ ground (arith, lot_after_take j k q lots)
    | inr (l, found) ↦ ground (arith, lot_after_take j k q lots, found_lot_id j k q lots found)
  ]
]

pub lot_present-decrement_lot :
    (j k q : ℕ) (lots : List Lot) → lot_present j (decrement_lot k q lots).1 ≡ lot_present j lots
unfolding decrement_lot lot_present
lot_present-decrement_lot j k q lots = ground (arith, lot_after_take j k q lots)

pub lot_present-increment_lot :
    (j k q : ℕ) (lots : List Lot) → lot_present j (increment_lot k q lots) ≡ lot_present j lots
unfolding increment_lot lot_present
lot_present-increment_lot j k q lots = ground (arith, lot_after_put j k q lots)

-- What is put back is added to the lot that is named.
pub lot_level-increment_lot :
    (j k q : ℕ) (lots : List Lot)
    → lot_level j (increment_lot k q lots)
      ≡ lot_level j lots + if_there (lot_present j lots) (if k == j then q else 0)
unfolding increment_lot lot_level lot_present
lot_level-increment_lot j k q lots = elim (Option-cases (find_lot j lots)) [
  | inl missing ↦ ground (arith, lot_after_put j k q lots)
  | inr (l, found) ↦ ground (arith, lot_after_put j k q lots, found_lot_id j k q lots found)
]

pub lot_level_absent : (j : ℕ) (lots : List Lot) → lot_present j lots ≡ false → lot_level j lots ≡ 0
unfolding lot_level lot_present
lot_level_absent j lots h = ground arith
