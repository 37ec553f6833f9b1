-- ===== src/Inventory/Alerts.antt =====
-- The stock alerts of menus/services/menu-inventory-lifecycle.service.ts, without the names that
-- they carry for the reader.
use wer_te_backend.Prelude.{
  ℕ, Bool, true, false, ◌&&◌, Option, none, some, List, [], ◌∷◌, ◌==◌, leb, if◌then◌else◌, or_else,
  not,
}
use wer_te_backend.Domain.Store.{StockRow}

pub data AttentionLevel : Type 0 where
  low_stock out_of_stock : AttentionLevel

pub data ResourceType : Type 0 where
  menu_item item_option : ResourceType

pub record Alert : Type 0 where
  pub resource_type : ResourceType
  pub resource_id : ℕ
  pub attention_level : AttentionLevel
  pub stock_quantity : Option ℕ
  pub low_stock_threshold : Option ℕ

abbrev at_threshold : Option ℕ → Option ℕ → Bool
at_threshold (some stock) (some threshold) = leb stock threshold
at_threshold (some stock) none = false
at_threshold none threshold = false

-- `resolveItemAttentionLevel` and `resolveOptionAttentionLevel`, which are the same on a row.
unfoldable pub resolve_attention_level : StockRow → Option AttentionLevel
resolve_attention_level r =
    if not r.is_stock_tracked
    then none
    else if or_else r.stock_quantity 0 == 0
    then some AttentionLevel.out_of_stock
    else if at_threshold r.stock_quantity r.low_stock_threshold
    then some AttentionLevel.low_stock
    else none

unfoldable pub should_emit_alert : Option AttentionLevel → AttentionLevel → Bool
should_emit_alert none next = true
should_emit_alert (some AttentionLevel.low_stock) AttentionLevel.out_of_stock = true
should_emit_alert (some AttentionLevel.low_stock) AttentionLevel.low_stock = false
should_emit_alert (some AttentionLevel.out_of_stock) next = false

abbrev alert_at :
    ResourceType → StockRow → Option AttentionLevel → Option AttentionLevel → Option Alert
alert_at kind next before none = none
alert_at kind next before (some now) =
    if should_emit_alert before now
    then some (record {
      resource_type = kind;
      resource_id = next.id;
      attention_level = now;
      stock_quantity = next.stock_quantity;
      low_stock_threshold = next.low_stock_threshold;
    })
    else none

-- `buildItemAlertEvent` and `buildOptionAlertEvent`
unfoldable pub build_alert_event : ResourceType → Option StockRow → Option StockRow → Option Alert
unfolding resolve_attention_level should_emit_alert
build_alert_event kind none next = none
build_alert_event kind (some previous) none = none
build_alert_event kind (some previous) (some next) =
    alert_at kind next (resolve_attention_level previous) (resolve_attention_level next)

abbrev same_kind : ResourceType → ResourceType → Bool
same_kind ResourceType.menu_item ResourceType.menu_item = true
same_kind ResourceType.item_option ResourceType.item_option = true
same_kind _ _ = false

-- `alerts.set(key, alert)`: the alert of a key is replaced in its place.
unfoldable pub set_alert : Alert → List Alert → List Alert
set_alert a [] = a ∷ []
set_alert a (b ∷ bs) =
    if same_kind a.resource_type b.resource_type && a.resource_id == b.resource_id
    then a ∷ bs
    else b ∷ set_alert a bs

unfoldable pub record_alert : Option Alert → List Alert → List Alert
unfolding set_alert
record_alert none alerts = alerts
record_alert (some a) alerts = set_alert a alerts
