-- ===== src/Inventory/Lots.antt =====
-- `reserveTrackedInventoryLots` of menus/services/menu-inventory-lifecycle.service.ts: the lots of
-- an item are used in the order of expiry, receipt, creation and id.
use wer_te_backend.Prelude.{
  ℕ, ◌-◌, min, Bool, true, false, ◌&&◌, Option, none, some, List, [], ◌∷◌, ◌==◌, ltb, leb,
  if◌then◌else◌, filter, sum_of,
}
use Prim.Native.Nat.{compare, Ordering}
use wer_te_backend.Domain.Entities.{LotAllocation}
use wer_te_backend.Domain.Store.{Lot, Db, Action, Error, ◌>>=◌, ◌>>◌, pure, gets, throw_unless}
use wer_te_backend.Inventory.Stock.{decrement_item_inventory_lot_quantity}

-- `left.getTime() - right.getTime()`, with a missing date last.
unfoldable pub compare_optional_dates : Option ℕ → Option ℕ → Ordering
compare_optional_dates none none = Ordering.eq
compare_optional_dates none (some r) = Ordering.gt
compare_optional_dates (some l) none = Ordering.lt
compare_optional_dates (some l) (some r) = compare l r

-- `a || b` on the result of a comparison.
abbrev or_then : Ordering → Ordering → Ordering
or_then Ordering.lt rest = Ordering.lt
or_then Ordering.eq rest = rest
or_then Ordering.gt rest = Ordering.gt

-- The comparator; the order of the ids stands for `localeCompare`.
unfoldable pub compare_lots : Lot → Lot → Ordering
unfolding compare_optional_dates
compare_lots l r = or_then (compare_optional_dates l.expiry_date r.expiry_date) (
    or_then (compare l.received_at r.received_at)
      (or_then (compare l.created_at r.created_at) (compare l.id r.id)))

abbrev pub lot_le : Lot → Lot → Bool
lot_le l r = elim (compare_lots l r) [ Ordering.gt ↦ false | _ ↦ true ]

-- `Array.prototype.sort`, which is stable, by the comparator.
unfoldable pub insert_lot : Lot → List Lot → List Lot
insert_lot l [] = l ∷ []
insert_lot l (m ∷ ms) = if lot_le l m then l ∷ m ∷ ms else m ∷ insert_lot l ms

unfoldable pub sort_lots : List Lot → List Lot
unfolding insert_lot
sort_lots [] = []
sort_lots (l ∷ ls) = insert_lot l (sort_lots ls)

abbrev pub is_available : ℕ → Lot → Bool
is_available menu_item_id l = l.menu_item_id == menu_item_id && ltb 0 l.remaining_quantity

unfoldable pub available_lots : ℕ → Db → List Lot
unfolding sort_lots filter
available_lots menu_item_id db = sort_lots (filter (is_available menu_item_id) db.lots)

unfoldable pub available_quantity : List Lot → ℕ
available_quantity lots = sum_of (λ l. l.remaining_quantity) lots

abbrev allocation : Lot → ℕ → LotAllocation
allocation l q = record {
  inventory_lot_id = l.id;
  batch_no_snapshot = l.batch_no;
  expiry_date_snapshot = l.expiry_date;
  quantity = q;
}

-- The loop over the available lots, with what is still to be reserved.
unfoldable pub allocate : List Lot → ℕ → Action (List LotAllocation)
unfolding decrement_item_inventory_lot_quantity
allocate [] wanted = pure []
allocate (l ∷ ls) wanted =
    let rest = allocate ls (wanted - min l.remaining_quantity wanted) in
    if wanted == 0 then pure [] else do
      reserved ← decrement_item_inventory_lot_quantity l.id (min l.remaining_quantity wanted)
      throw_unless reserved Error.conflict
      allocations ← rest
      pure (allocation l (min l.remaining_quantity wanted) ∷ allocations)

unfoldable pub reserve_tracked_inventory_lots : ℕ → ℕ → Action (List LotAllocation)
unfolding allocate available_quantity available_lots
reserve_tracked_inventory_lots menu_item_id quantity = do
  lots ← gets (available_lots menu_item_id)
  throw_unless (leb quantity (available_quantity lots)) Error.conflict
  allocate lots quantity
