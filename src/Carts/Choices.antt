-- ===== src/Carts/Choices.antt =====
-- What a selection of options that is let through looks like.
use wer_te_backend.Prelude.{
  ℕ, ◌+◌, Bool, true, false, ◌&&◌, ◌||◌, Option, none, some, List, [], ◌∷◌, ◌++◌, ◌==◌, leb, ◌≡◌,
  refl, arith, if◌then◌else◌, filter, find_by, count_by, map,
}
use wer_te_backend.Domain.Shop.{Catalog, OptionGroup, ItemOption}
use wer_te_backend.Domain.Store.{Db, Error, Result}
use wer_te_backend.Carts.Selection.{
  Counts, active_groups, active_options, count_of, set_count, zero_counts, keep_option,
  select_options, groups_are_satisfied, options_have_stock, selected_variant_is_valid,
  check_selection, has_duplicates, resolve_selected_options_for_menu_item,
}

-- The number of the selected options that are of a group.
abbrev pub selected_in : ℕ → List ItemOption → ℕ
selected_in group_id os = count_by (λ o. o.group_id == group_id) os

-- Every group has as many of the options as it asks for.
abbrev pub within_limits : List OptionGroup → List ItemOption → Bool
within_limits [] os = true
within_limits (g ∷ gs) os =
    leb g.min_select (selected_in g.id os)
    && leb (selected_in g.id os) g.max_select
    && within_limits gs os

abbrev pub has_group : ℕ → List OptionGroup → Bool
has_group k [] = false
has_group k (g ∷ gs) = g.id == k || has_group k gs

-- Every option is active and of one of the groups.
abbrev pub all_offered : List OptionGroup → List ItemOption → Bool
all_offered gs [] = true
all_offered gs (o ∷ os) = o.is_active && has_group o.group_id gs && all_offered gs os

count_of-set_count :
    (k j n : ℕ) (counts : Counts)
    → count_of k (set_count j n counts) ≡ (if j == k then n else count_of k counts)
unfolding count_of set_count
count_of-set_count k j n [] = ground arith
count_of-set_count k j n ((i, m) ∷ counts) = ground (arith, count_of-set_count k j n counts)

count_of-zero_counts : (k : ℕ) (gs : List OptionGroup) → count_of k (zero_counts gs) ≡ 0
unfolding zero_counts count_of
count_of-zero_counts k [] = refl
count_of-zero_counts k (g ∷ gs) =
    ground (arith, count_of-set_count k g.id 0 (zero_counts gs), count_of-zero_counts k gs)

-- What the loop over the ids makes of its state.
record Selected (ks : List ℕ) (counts : Counts) (os : List ItemOption) (counts' : Counts)
    : Type 0 where
  ids : map (λ o. o.id) os ≡ ks
  counted : (k : ℕ) → count_of k counts' ≡ count_of k counts + selected_in k os

abbrev WhenSelected :
    List OptionGroup → List ℕ → Counts → Result (List ItemOption × Counts) → Type 0
WhenSelected gs ks counts (Result.ok (os, counts')) =
    Selected ks counts os counts' × (all_offered gs os ≡ true)
WhenSelected gs ks counts (Result.err e) = Unit

keep_option-Selected :
    (gs : List OptionGroup) (o : ItemOption) (k : ℕ) (ks : List ℕ) (counts : Counts)
    (r : Result (List ItemOption × Counts))
    → o.id ≡ k
    → (o.is_active && has_group o.group_id gs) ≡ true
    → WhenSelected gs ks (set_count o.group_id (count_of o.group_id counts + 1) counts) r
    → WhenSelected gs (k ∷ ks) counts (keep_option o r)
keep_option-Selected gs o k ks counts (Result.ok (os, counts')) e offered (sel, rest) = (
  record {
    ids = cc (sel.ids, e);
    counted = λ j. ground (
      arith,
      sel.counted j,
      count_of-set_count j o.group_id (count_of o.group_id counts + 1) counts,
    );
  },
  ground (arith, offered, rest),
)
keep_option-Selected gs o k ks counts (Result.err x) e offered rest = tt

find_by-offered :
    (gs : List OptionGroup) (k : ℕ) (os : List ItemOption) (o : ItemOption)
    → all_offered gs os ≡ true
    → find_by (λ o'. o'.id == k) os ≡ some o
    → (o.id ≡ k) × ((o.is_active && has_group o.group_id gs) ≡ true)
find_by-offered gs k [] o all h = cc
find_by-offered gs k (x ∷ os) o all h = ground (arith, find_by-offered gs k os o)

select_options-Selected :
    (gs : List OptionGroup) (active : List ItemOption) (ks : List ℕ) (counts : Counts)
    → all_offered gs active ≡ true
    → WhenSelected gs ks counts (select_options active ks counts)
unfolding select_options
select_options-Selected gs active [] counts all =
    (record { ids = refl; counted = λ k. omega arith }, refl)
select_options-Selected gs active (k ∷ ks) counts all =
    go (find_by (λ o. o.id == k) active) refl
      (λ counts'. select_options-Selected gs active ks counts' all)
  where
    go :
        (found : Option ItemOption)
        → find_by (λ o. o.id == k) active ≡ found
        → ((counts' : Counts) → WhenSelected gs ks counts' (select_options active ks counts'))
        → WhenSelected gs (k ∷ ks) counts (elim found [
          | none ↦ Result.err Error.unprocessable_entity
          | some o ↦ keep_option o (
              select_options active ks
                (set_count o.group_id (count_of o.group_id counts + 1) counts))
        ])
    go none e rest = tt
    go (some o) e rest =
        let f = find_by-offered gs k active o all e in
        let counts' = set_count o.group_id (count_of o.group_id counts + 1) counts in
        keep_option-Selected gs o k ks counts (select_options active ks counts') f.0 f.1
          (rest counts')

all_offered-append :
    (gs : List OptionGroup) (os os' : List ItemOption)
    → all_offered gs os ≡ true
    → all_offered gs os' ≡ true
    → all_offered gs (os ++ os') ≡ true
all_offered-append gs [] os' h h' = h'
all_offered-append gs (o ∷ os) os' h h' = ground (arith, all_offered-append gs os os')

all_offered-weaken :
    (g : OptionGroup) (gs : List OptionGroup) (os : List ItemOption)
    → all_offered gs os ≡ true
    → all_offered (g ∷ gs) os ≡ true
all_offered-weaken g gs [] h = refl
all_offered-weaken g gs (o ∷ os) h = ground (arith, all_offered-weaken g gs os)

all_offered-filter :
    (g : OptionGroup) (gs : List OptionGroup) (os : List ItemOption)
    → all_offered (g ∷ gs) (filter (λ o. o.is_active) (filter (λ o. o.group_id == g.id) os)) ≡ true
unfolding filter
all_offered-filter g gs [] = refl
all_offered-filter g gs (o ∷ os) = ground (arith, all_offered-filter g gs os)

active_options-offered :
    (gs : List OptionGroup) (cat : Catalog) → all_offered gs (active_options gs cat) ≡ true
unfolding active_options
active_options-offered [] cat = refl
active_options-offered (g ∷ gs) cat =
    all_offered-append (g ∷ gs)
      (filter (λ o. o.is_active) (filter (λ o. o.group_id == g.id) cat.options))
      (active_options gs cat) (all_offered-filter g gs cat.options)
      (all_offered-weaken g gs (active_options gs cat) (active_options-offered gs cat))

groups_are_satisfied-limits :
    (gs : List OptionGroup) (counts : Counts) (os : List ItemOption)
    → ((k : ℕ) → count_of k counts ≡ selected_in k os)
    → groups_are_satisfied gs counts ≡ true
    → within_limits gs os ≡ true
unfolding groups_are_satisfied
groups_are_satisfied-limits [] counts os h e = refl
groups_are_satisfied-limits (g ∷ gs) counts os h e =
    ground (arith, h g.id, groups_are_satisfied-limits gs counts os h)

-- What is known of the options of a selection that is let through.
pub record IsValidSelection (db : Db) (item_id quantity : ℕ) (ids : List ℕ) (os : List ItemOption)
    : Type 0 where
  pub same_ids : map (λ o. o.id) os ≡ ids
  pub distinct : has_duplicates ids ≡ false
  pub offered : all_offered (active_groups item_id db.catalog) os ≡ true
  pub limits : within_limits (active_groups item_id db.catalog) os ≡ true
  pub stocked : options_have_stock os quantity db ≡ true
  pub variant : selected_variant_is_valid item_id os quantity db ≡ true

-- A selection that is let through consists of the requested options, in their order and each once;
-- all are active and of an active group of the item, each of these groups has as many as it asks
-- for, and the options and the combination of the variants have the stock for the quantity.
pub resolve_selected_options_for_menu_item-IsValidSelection :
    (item_id quantity : ℕ) (ids : List ℕ) (os : List ItemOption) (db : Db)
    → resolve_selected_options_for_menu_item item_id ids quantity db ≡ Result.ok os
    → IsValidSelection db item_id quantity ids os
unfolding resolve_selected_options_for_menu_item
resolve_selected_options_for_menu_item-IsValidSelection item_id quantity ids os db h =
    let groups = active_groups item_id db.catalog in
    checked (select_options (active_options groups db.catalog) ids (zero_counts groups))
      (select_options-Selected groups (active_options groups db.catalog) ids (zero_counts groups)
        (active_options-offered groups db.catalog))
      h
  where
    checked :
        (r : Result (List ItemOption × Counts))
        → WhenSelected
            (active_groups item_id db.catalog)
            ids
            (zero_counts (active_groups item_id db.catalog))
            r
        → (if has_duplicates ids
            then Result.err Error.unprocessable_entity
            else check_selection item_id quantity (active_groups item_id db.catalog) db r)
          ≡ Result.ok os
        → IsValidSelection db item_id quantity ids os
    checked (Result.ok (os', counts)) (sel, offered) e =
        let same = count_of-zero_counts in
        let limits =
          groups_are_satisfied-limits (active_groups item_id db.catalog) counts os'
            (λ k. omega (arith, sel.counted k, same k (active_groups item_id db.catalog))) in
        record {
          same_ids = ground (arith, sel.ids, e);
          distinct = ground (arith, e);
          offered = ground (arith, offered, e);
          limits = ground (arith, limits, e);
          stocked = ground (arith, e);
          variant = ground (arith, e);
        }
    checked (Result.err x) w e = ground (arith, e)
