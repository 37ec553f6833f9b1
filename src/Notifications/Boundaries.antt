-- ===== src/Notifications/Boundaries.antt =====
-- The quiet hours as a window of the day, and the boundaries at which they start and end.
use wer_te_backend.Prelude.{ℕ, ◌*◌, ◌≤◌, ◌⊎◌, ◌+◌, ◌-◌, ◌/◌, ◌%◌, ◌<◌, ◌≡◌, ◌≢◌, arith, ltb}
use wer_te_backend.Notifications.QuietHours.{
  QuietHours, LocalTime, parse_local_minute_of_day, is_muted_at, delay_until,
  next_boundary_delay_seconds,
}

-- Unless the two times are equal, a minute of the day is quiet exactly if it is fewer minutes after
-- the start than the end is, counted around midnight.
pub is_muted_at-window :
    (start end_minute current : ℕ)
    → start < 1440
    → end_minute < 1440
    → current < 1440
    → start ≢ end_minute
    → is_muted_at start end_minute current
      ≡ ltb (((current + 1440) - start) % 1440) (((end_minute + 1440) - start) % 1440)
unfolding is_muted_at
is_muted_at-window start end_minute current s e c d = ground arith

abbrev IsTimeOfDay : LocalTime → Type 0
IsTimeOfDay t = (t.hour < 24) × (t.minute < 60)

-- A delay is the time to the next boundary: it is not zero and within a day, a boundary is then
-- reached, and until then a moment is quiet if and only if the present one is.
pub record IsNextBoundary (q : QuietHours) (current delay : ℕ) : Type 0 where
  pub later : 0 < delay
  pub within_a_day : delay ≤ 86400
  pub at_boundary :
      ((current + delay) % 86400 ≡ (q.start.hour * 60 + q.start.minute) * 60)
      ⊎ ((current + delay) % 86400 ≡ (q.end_time.hour * 60 + q.end_time.minute) * 60)
  pub unchanged :
      (d : ℕ)
      → d < delay
      → is_muted_at
          (parse_local_minute_of_day q.start)
          (parse_local_minute_of_day q.end_time)
          (((current + d) % 86400) / 60)
        ≡ is_muted_at
            (parse_local_minute_of_day q.start)
            (parse_local_minute_of_day q.end_time)
            (current / 60)

-- From a second of the day, on a clock that is not put forward or back, the computed delay is not
-- zero and within a day, reaches the start or the end of the quiet hours, and until then a moment is
-- quiet if and only if the present one is.
pub next_boundary_delay_seconds-IsNextBoundary :
    (q : QuietHours) (current : ℕ)
    → IsTimeOfDay q.start
    → IsTimeOfDay q.end_time
    → current < 86400
    → IsNextBoundary q current (next_boundary_delay_seconds q current)
unfolding is_muted_at next_boundary_delay_seconds delay_until parse_local_minute_of_day
next_boundary_delay_seconds-IsNextBoundary q current (sh, sm) (eh, em) c = record {
  later = ground arith;
  within_a_day = ground arith;
  at_boundary = ground arith;
  unchanged = λ d h. ground arith;
}
