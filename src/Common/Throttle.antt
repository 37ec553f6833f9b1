-- ===== src/Common/Throttle.antt =====
-- common/guards/throttler.guard.ts: the client that a request is counted for, and the limiter that
-- is used while the storage of @nestjs/throttler does not answer.
use wer_te_backend.Prelude.{
  ℕ, ◌+◌, ◌-◌, not, Option, none, some, List, [], ◌∷◌, ◌==◌, ltb, leb, length, if◌then◌else◌,
  or_else, or_option, filter, Text, codes, trim,
}
use wer_te_backend.Domain.Store.{Error, Result}

-- The headers and addresses of a request; a header that is no string is none.
pub record Request : Type 0 where
  pub x_forwarded_for : Option Text
  pub x_real_ip : Option Text
  pub ip : Option Text
  pub remote_address : Option Text

-- `split(',')[0]`
unfoldable pub first_part : Text → Text
first_part [] = []
first_part (c ∷ s) = if c == 44 then [] else c ∷ first_part s

abbrev non_empty : Text → Option Text
non_empty [] = none
non_empty (c ∷ s) = some (c ∷ s)

-- One turn of the loop over the headers; a blank value has a blank first part.
unfoldable pub client_ip : Option Text → Option Text
client_ip none = none
client_ip (some value) = elim (non_empty (trim value)) [
  | none ↦ none
  | some t ↦ non_empty (trim (first_part value))
]

unfoldable pub get_tracker : Request → Text
get_tracker req =
    or_else
      (or_option (client_ip req.x_forwarded_for)
        (or_option (client_ip req.x_real_ip) (or_option req.ip req.remote_address)))
      (codes "unknown")

abbrev pub fallback_max_entries : ℕ
fallback_max_entries = 50000

abbrev pub fallback_sweep_interval_ms : ℕ
fallback_sweep_interval_ms = 60000

-- An entry of `fallbackRecords`: the key that `generateKey` made, and its record.
pub record FallbackRecord : Type 0 where
  pub key : ℕ
  pub count : ℕ
  pub reset_at : ℕ

pub record Fallback : Type 0 where
  pub records : List FallbackRecord
  pub last_sweep_at : ℕ

-- What a request brings: its time, its key, and the limit and the window of its throttler.
pub record Hit : Type 0 where
  pub now : ℕ
  pub key : ℕ
  pub limit : ℕ
  pub ttl : ℕ

unfoldable pub sweep_fallback_records_if_due : ℕ → Fallback → Fallback
sweep_fallback_records_if_due now f =
    if ltb (now - f.last_sweep_at) fallback_sweep_interval_ms
    then f
    else record { records = filter (λ r. not (leb r.reset_at now)) f.records; last_sweep_at = now }

-- `fallbackRecords.get(key)`
unfoldable pub find_record : ℕ → List FallbackRecord → Option FallbackRecord
find_record key [] = none
find_record key (r ∷ rs) = if r.key == key then some r else find_record key rs

-- `fallbackRecords.set(key, …)`
unfoldable pub set_record : FallbackRecord → List FallbackRecord → List FallbackRecord
set_record new [] = new ∷ []
set_record new (r ∷ rs) = if r.key == new.key then new ∷ rs else r ∷ set_record new rs

abbrev fresh_record : Hit → FallbackRecord
fresh_record h = record { key = h.key; count = 1; reset_at = h.now + h.ttl }

-- A key without a record in force.
unfoldable pub open_window : Hit → Fallback → Result (Unit {0}) × Fallback
open_window h f =
    if leb fallback_max_entries (length f.records)
    then (Result.ok tt, f)
    else (Result.ok tt, record f { records = set_record (fresh_record h) f.records })

unfoldable pub count_hit : Hit → FallbackRecord → Fallback → Result (Unit {0}) × Fallback
count_hit h r f = if leb h.limit r.count then (Result.err Error.too_many_requests, f) else (
  Result.ok tt,
  record f { records = set_record (record r { count = r.count + 1 }) f.records },
)

abbrev pub check_found : Hit → Fallback → Option FallbackRecord → Result (Unit {0}) × Fallback
check_found h f none = open_window h f
check_found h f (some r) = if leb r.reset_at h.now then open_window h f else count_hit h r f

-- `checkFallbackLimit`
unfoldable pub check_fallback_limit : Hit → Fallback → Result (Unit {0}) × Fallback
check_fallback_limit h f =
    let swept = sweep_fallback_records_if_due h.now f in
    check_found h swept (find_record h.key swept.records)
