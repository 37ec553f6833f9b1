-- ===== src/Notifications/QuietHours.antt =====
-- notifications/utils/notification-preference-time.util.ts.
use wer_te_backend.Prelude.{
  ℕ, ◌+◌, ◌-◌, ◌*◌, min, Bool, false, ◌&&◌, ◌||◌, Option, none, some, ltb, leb, if◌then◌else◌,
}

-- A stored time of day 'HH:mm', and the parts of a formatted date.
pub record LocalTime : Type 0 where
  pub hour : ℕ
  pub minute : ℕ

pub record ClockParts : Type 0 where
  pub hour : ℕ
  pub minute : ℕ
  pub second : ℕ

-- What `Intl.DateTimeFormat` makes of a date in a time zone; none if a part is missing.
abbrev pub Formatter : Type 0
Formatter = ℕ → ℕ → Option ClockParts

-- `MerchantInventoryAlertPreferenceEntity`
pub record AlertPreference : Type 0 where
  pub push_enabled : Bool
  pub quiet_hours_enabled : Bool
  pub start_local_time : Option LocalTime
  pub end_local_time : Option LocalTime
  pub timezone : Option ℕ

-- The quiet hours of a preference that has them.
pub record QuietHours : Type 0 where
  pub start : LocalTime
  pub end_time : LocalTime
  pub zone : ℕ

unfoldable pub parse_local_minute_of_day : LocalTime → ℕ
parse_local_minute_of_day t = t.hour * 60 + t.minute

unfoldable pub resolve_local_minute_of_day : Formatter → ℕ → ℕ → ℕ
resolve_local_minute_of_day format at zone = elim (format at zone) [
  | none ↦ 0
  | some p ↦ p.hour * 60 + p.minute
]

unfoldable pub resolve_local_second_of_day : Formatter → ℕ → ℕ → ℕ
resolve_local_second_of_day format at zone = elim (format at zone) [
  | none ↦ 0
  | some p ↦ p.hour * 3600 + p.minute * 60 + p.second
]

-- The null checks that both functions start with.
abbrev quiet_hours_of : Option LocalTime → Option LocalTime → Option ℕ → Option QuietHours
quiet_hours_of (some s) (some e) (some z) = some (record { start = s; end_time = e; zone = z })
quiet_hours_of (some s) (some e) none = none
quiet_hours_of (some s) none z = none
quiet_hours_of none e z = none

unfoldable pub quiet_hours : AlertPreference → Option QuietHours
quiet_hours p =
    if p.quiet_hours_enabled
    then quiet_hours_of p.start_local_time p.end_local_time p.timezone
    else none

-- The comparison at the end of `isInventoryAlertPushMutedNow`.
unfoldable pub is_muted_at : ℕ → ℕ → ℕ → Bool
is_muted_at start end_minute current =
    if ltb start end_minute
    then leb start current && ltb current end_minute
    else leb start current || ltb current end_minute

unfoldable pub is_inventory_alert_push_muted_now : Formatter → AlertPreference → ℕ → Bool
is_inventory_alert_push_muted_now format p at = elim (quiet_hours p) [
  | none ↦ false
  | some q ↦
      is_muted_at (parse_local_minute_of_day q.start) (parse_local_minute_of_day q.end_time)
        (resolve_local_minute_of_day format at q.zone)
]

-- `boundarySecond - currentSecondOfDay` with its sign.
pub data Delta : Type 0 where
  above_zero not_above_zero : ℕ → Delta

abbrev pub delta_of : ℕ → ℕ → Delta
delta_of boundary current =
    if leb boundary current
    then Delta.not_above_zero (current - boundary)
    else Delta.above_zero (boundary - current)

-- `delta <= 0 ? delta + 24 * 60 * 60 : delta`; both are seconds of the day, so that the sum is above
-- zero.
unfoldable pub delay_until : ℕ → ℕ → ℕ
delay_until boundary current = elim (delta_of boundary current) [
  | Delta.above_zero n ↦ n
  | Delta.not_above_zero n ↦ 24 * 60 * 60 - n
]

unfoldable pub next_boundary_delay_seconds : QuietHours → ℕ → ℕ
next_boundary_delay_seconds q current =
    min (delay_until (parse_local_minute_of_day q.start * 60) current)
      (delay_until (parse_local_minute_of_day q.end_time * 60) current)

unfoldable pub resolve_next_quiet_hours_boundary_at : Formatter → AlertPreference → ℕ → Option ℕ
resolve_next_quiet_hours_boundary_at format p from =
    elim (if p.push_enabled then quiet_hours p else none) [
      | none ↦ none
      | some q ↦ some (
          from
          + next_boundary_delay_seconds q (resolve_local_second_of_day format from q.zone) * 1000)
    ]
