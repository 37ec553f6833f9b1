-- ===== src/Common/Windows.antt =====
-- How large the fallback limiter grows, and how many requests it lets through.
use wer_te_backend.Prelude.{
  ℕ, ◌+◌, ◌≤◌, suc, Bool, not, none, some, List, [], ◌∷◌, leb, length, ◌≡◌, inl, inr, ◌⊎◌, arith,
  filter, Option-cases,
}
use wer_te_backend.Common.Throttle.{
  Hit, Fallback, FallbackRecord, fallback_max_entries, sweep_fallback_records_if_due, find_record,
  set_record, open_window, count_hit, check_found, check_fallback_limit,
}

abbrev pub check_all : List Hit → Fallback → Fallback
check_all [] f = f
check_all (h ∷ hs) f = check_all hs (check_fallback_limit h f).1

filter-length :
    (p : FallbackRecord → Bool) (rs : List FallbackRecord) → length (filter p rs) ≤ length rs
unfolding filter
filter-length p [] = omega arith
filter-length p (r ∷ rs) = ground (arith, filter-length p rs)

set_record-length :
    (new : FallbackRecord) (rs : List FallbackRecord) → length (set_record new rs) ≤ suc (length rs)
unfolding set_record
set_record-length new [] = omega arith
set_record-length new (r ∷ rs) = ground (arith, set_record-length new rs)

-- Setting the record of a key that has one adds none.
set_record-found :
    (k : ℕ) (new r : FallbackRecord) (rs : List FallbackRecord)
    → find_record k rs ≡ some r
    → new.key ≡ k
    → length (set_record new rs) ≡ length rs
unfolding set_record find_record
set_record-found k new r [] h e = cc
set_record-found k new r (x ∷ rs) h e = ground (arith, set_record-found k new r rs)

pub find_record-key :
    (k : ℕ) (r : FallbackRecord) (rs : List FallbackRecord) → find_record k rs ≡ some r → r.key ≡ k
unfolding find_record
find_record-key k r [] h = cc
find_record-key k r (x ∷ rs) h = ground (arith, find_record-key k r rs)

sweep-length :
    (now : ℕ) (f : Fallback)
    → length (sweep_fallback_records_if_due now f).records ≤ length f.records
unfolding sweep_fallback_records_if_due
sweep-length now f = ground (arith, filter-length (λ r. not (leb r.reset_at now)) f.records)

check_found-length :
    (h : Hit) (f : Fallback)
    → length f.records ≤ fallback_max_entries
    → length (check_found h f (find_record h.key f.records)).1.records ≤ fallback_max_entries
unfolding open_window count_hit
check_found-length h f room = by_record (Option-cases (find_record h.key f.records))
  where
    by_record :
        (find_record h.key f.records ≡ none)
          ⊎ ((r : FallbackRecord) × (find_record h.key f.records ≡ some r))
        → length (check_found h f (find_record h.key f.records)).1.records ≤ fallback_max_entries
    by_record (inl e) = ground (
      arith,
      e,
      set_record-length (record { key = h.key; count = 1; reset_at = h.now + h.ttl }) f.records,
    )
    by_record (inr (r, e)) = ground (
      arith,
      e,
      find_record-key h.key r f.records e,
      set_record-length (record { key = h.key; count = 1; reset_at = h.now + h.ttl }) f.records,
      set_record-found h.key (record r { count = r.count + 1 }) r f.records e,
    )

check_fallback_limit-length :
    (h : Hit) (f : Fallback)
    → length f.records ≤ fallback_max_entries
    → length (check_fallback_limit h f).1.records ≤ fallback_max_entries
unfolding check_fallback_limit
check_fallback_limit-length h f room =
    let swept = sweep_fallback_records_if_due h.now f in
    check_found-length h swept (omega (arith, sweep-length h.now f, room))

-- Whatever requests come, the fallback map never holds more than its maximum number of entries.
pub check_all-length :
    (hs : List Hit) (f : Fallback)
    → length f.records ≤ fallback_max_entries
    → length (check_all hs f).records ≤ fallback_max_entries
check_all-length [] f room = room
check_all-length (h ∷ hs) f room =
    check_all-length hs (check_fallback_limit h f).1 (check_fallback_limit-length h f room)
