-- ===== src/Carts/Selection.antt =====
-- Which options a cart item may select: `resolveSelectedOptionsForMenuItem` of
-- carts/services/cart-mutation.service.ts with the checks that it calls, and the reads of
-- menus/repositories/menus.repository.ts and menus/utils/item-variant-combination.util.ts.
use wer_te_backend.Prelude.{
  ℕ, ◌+◌, Bool, true, false, not, ◌&&◌, ◌||◌, Option, none, some, List, [], ◌∷◌, ◌++◌, ◌==◌, ltb,
  if◌then◌else◌, or_else, filter, find_by, includes, map,
}
use wer_te_backend.Domain.Shop.{
  Catalog, MenuItem, OptionGroup, ItemOption, VariantCombination, selects_variant,
}
use wer_te_backend.Domain.Store.{Db, StockRow, Error, Result}

abbrev pub find_menu_item : ℕ → Db → Option MenuItem
find_menu_item item_id db = find_by (λ m. m.id == item_id) db.catalog.items

-- `listOptionGroupsByMenuItemId(…)`, then `filter((group) => group.isActive)`
unfoldable pub active_groups : ℕ → Catalog → List OptionGroup
active_groups item_id cat =
    filter (λ g. g.is_active) (filter (λ g. g.menu_item_id == item_id) cat.option_groups)

-- The active options of the groups, group by group.
unfoldable pub active_options : List OptionGroup → Catalog → List ItemOption
active_options [] cat = []
active_options (g ∷ gs) cat =
    filter (λ o. o.is_active) (filter (λ o. o.group_id == g.id) cat.options)
    ++ active_options gs cat

-- `selectionCountByGroup`
abbrev pub Counts : Type 0
Counts = List (ℕ × ℕ)

-- `get(id) ?? 0`
unfoldable pub count_of : ℕ → Counts → ℕ
count_of k [] = 0
count_of k ((j, n) ∷ counts) = if j == k then n else count_of k counts

-- `set(id, n)`
unfoldable pub set_count : ℕ → ℕ → Counts → Counts
set_count k n [] = (k, n) ∷ []
set_count k n ((j, m) ∷ counts) = if j == k then (j, n) ∷ counts else (j, m) ∷ set_count k n counts

unfoldable pub zero_counts : List OptionGroup → Counts
zero_counts [] = []
zero_counts (g ∷ gs) = set_count g.id 0 (zero_counts gs)

abbrev pub keep_option :
    ItemOption → Result (List ItemOption × Counts) → Result (List ItemOption × Counts)
keep_option o (Result.ok (os, counts)) = Result.ok (o ∷ os, counts)
keep_option o (Result.err e) = Result.err e

-- `selectedOptionIds.map(…)`: the options, and how many of each group they are.
unfoldable pub select_options :
    List ItemOption → List ℕ → Counts → Result (List ItemOption × Counts)
select_options active [] counts = Result.ok ([], counts)
select_options active (k ∷ ks) counts = elim (find_by (λ o. o.id == k) active) [
  | none ↦ Result.err Error.unprocessable_entity
  | some o ↦
      keep_option o
        (select_options active ks (set_count o.group_id (count_of o.group_id counts + 1) counts))
]

-- The loop over the active groups.
unfoldable pub groups_are_satisfied : List OptionGroup → Counts → Bool
groups_are_satisfied [] counts = true
groups_are_satisfied (g ∷ gs) counts =
    if ltb (count_of g.id counts) g.min_select || ltb g.max_select (count_of g.id counts)
    then false
    else groups_are_satisfied gs counts

-- `isStockTracked && (stockQuantity ?? 0) < quantity`; the row is there, being the same row.
unfoldable pub lacks_stock : ℕ → ℕ → List StockRow → Bool
lacks_stock row_id quantity rows = elim (find_by (λ r. r.id == row_id) rows) [
  | none ↦ false
  | some r ↦ r.is_stock_tracked && ltb (or_else r.stock_quantity 0) quantity
]

-- `assertSelectedOptionsHaveAvailableStock`
unfoldable pub options_have_stock : List ItemOption → ℕ → Db → Bool
options_have_stock [] quantity db = true
options_have_stock (o ∷ os) quantity db =
    if lacks_stock o.id quantity db.item_options then false else options_have_stock os quantity db

insert_id : ℕ → List ℕ → List ℕ
insert_id k [] = k ∷ []
insert_id k (j ∷ js) = if k == j then j ∷ js else if ltb k j then k ∷ j ∷ js else j ∷ insert_id k js

-- `buildVariantCombinationSignature`: the ids once each, in the order of the ids.
unfoldable pub build_variant_combination_signature : List ℕ → List ℕ
unfolding insert_id
build_variant_combination_signature [] = []
build_variant_combination_signature (k ∷ ks) = insert_id k (build_variant_combination_signature ks)

unfoldable pub same_ids : List ℕ → List ℕ → Bool
same_ids [] [] = true
same_ids [] (j ∷ js) = false
same_ids (i ∷ is) [] = false
same_ids (i ∷ is) (j ∷ js) = i == j && same_ids is js

-- `findActiveVariantCombinationByMenuItemIdAndOptionIds`
unfoldable pub find_active_variant_combination : ℕ → List ℕ → Catalog → Option VariantCombination
find_active_variant_combination item_id option_ids cat =
    find_by
      (λ c.
        c.menu_item_id == item_id
        && same_ids c.signature (build_variant_combination_signature option_ids)
        && c.is_active)
      cat.variant_combinations

abbrev pub variant_option_ids : List ItemOption → List ℕ
variant_option_ids os = map (λ o. o.id) (filter (λ o. selects_variant o.group_kind) os)

abbrev variant_is_valid : ℕ → ℕ → Db → List ℕ → Bool
variant_is_valid item_id quantity db [] = true
variant_is_valid item_id quantity db (k ∷ ks) =
    elim (find_active_variant_combination item_id (k ∷ ks) db.catalog) [
      | none ↦ false
      | some c ↦ not (lacks_stock c.id quantity db.combinations)
    ]

-- `assertSelectedVariantCombinationIsValid`
unfoldable pub selected_variant_is_valid : ℕ → List ItemOption → ℕ → Db → Bool
selected_variant_is_valid item_id os quantity db =
    variant_is_valid item_id quantity db (variant_option_ids os)

-- `assertNoDuplicateOptionSelection`
unfoldable pub has_duplicates : List ℕ → Bool
has_duplicates [] = false
has_duplicates (k ∷ ks) = includes ks k || has_duplicates ks

-- The checks on the options that were found.
abbrev pub check_selection :
    ℕ → ℕ → List OptionGroup → Db → Result (List ItemOption × Counts) → Result (List ItemOption)
check_selection item_id quantity groups db (Result.err e) = Result.err e
check_selection item_id quantity groups db (Result.ok (os, counts)) =
    if groups_are_satisfied groups counts
      && options_have_stock os quantity db
      && selected_variant_is_valid item_id os quantity db
    then Result.ok os
    else Result.err Error.unprocessable_entity

unfoldable pub resolve_selected_options_for_menu_item :
    ℕ → List ℕ → ℕ → Db → Result (List ItemOption)
resolve_selected_options_for_menu_item item_id option_ids quantity db =
    let groups = active_groups item_id db.catalog in
    if has_duplicates option_ids
    then Result.err Error.unprocessable_entity
    else check_selection item_id quantity groups db
        (select_options (active_options groups db.catalog) option_ids (zero_counts groups))
