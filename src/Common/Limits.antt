-- ===== src/Common/Limits.antt =====
-- How many requests the fallback limiter lets through in a window.
use mathlib.Core.Path.{subst}
use wer_te_backend.Prelude.{
  sym, ℕ, ◌+◌, ◌≤◌, ◌<◌, Bool, true, false, not, ◌&&◌, Option, none, some, List, [], ◌∷◌, ◌==◌, leb,
  ltb, ◌≡◌, refl, inl, inr, ◌⊎◌, arith, if◌then◌else◌, filter, Bool-cases,
}
use wer_te_backend.Domain.Store.{Result}
use wer_te_backend.Common.Throttle.{
  Hit, Fallback, FallbackRecord, sweep_fallback_records_if_due, find_record, set_record,
  open_window, count_hit, check_found, check_fallback_limit,
}
use wer_te_backend.Common.Windows.{find_record-key}

abbrev is_ok : Result (Unit {0}) → Bool
is_ok (Result.ok x) = true
is_ok (Result.err e) = false

-- The number of requests of a key that are let through.
abbrev pub passes : ℕ → List Hit → Fallback → ℕ
passes k [] f = 0
passes k (h ∷ hs) f =
    (if h.key == k && is_ok (check_fallback_limit h f).0 then 1 else 0)
    + passes k hs (check_fallback_limit h f).1

-- The requests come before the given time, and those of the key have the given limit.
abbrev pub all_within : ℕ → ℕ → ℕ → List Hit → Bool
all_within k limit end_at [] = true
all_within k limit end_at (h ∷ hs) =
    ltb h.now end_at
    && (if h.key == k then h.limit == limit else true)
    && all_within k limit end_at hs

find_record-filter :
    (k now : ℕ) (r : FallbackRecord) (rs : List FallbackRecord)
    → find_record k rs ≡ some r
    → now < r.reset_at
    → find_record k (filter (λ x. not (leb x.reset_at now)) rs) ≡ some r
unfolding find_record filter
find_record-filter k now r [] h l = cc
find_record-filter k now r (x ∷ rs) h l = ground (arith, h, find_record-filter k now r rs)

find_record-set_record :
    (k : ℕ) (new : FallbackRecord) (rs : List FallbackRecord)
    → find_record k (set_record new rs) ≡ (if new.key == k then some new else find_record k rs)
unfolding find_record set_record
find_record-set_record k new [] = ground arith
find_record-set_record k new (x ∷ rs) = ground (arith, find_record-set_record k new rs)

sweep-keeps :
    (k now : ℕ) (r : FallbackRecord) (f : Fallback)
    → find_record k f.records ≡ some r
    → now < r.reset_at
    → find_record k (sweep_fallback_records_if_due now f).records ≡ some r
unfolding sweep_fallback_records_if_due
sweep-keeps k now r f h l = ground (arith, h, find_record-filter k now r f.records h l)

-- A record of the key that counts what was let through.
abbrev pub Counts : ℕ → ℕ → ℕ → Fallback → Type 0
Counts k n end_at f =
    (r : FallbackRecord) × (find_record k f.records ≡ some r)
    × (r.count ≡ n)
    × (r.reset_at ≡ end_at)

abbrev passed : ℕ → Hit → Result (Unit {0}) × Fallback → ℕ
passed k h m = if h.key == k && is_ok m.0 then 1 else 0

own_hit :
    (k n limit end_at : ℕ) (h : Hit) (r : FallbackRecord) (f : Fallback)
    → find_record h.key f.records ≡ some r
    → h.key ≡ k
    → r.key ≡ k
    → r.count ≡ n
    → r.reset_at ≡ end_at
    → h.now < end_at
    → h.limit ≡ limit
    → n ≤ limit
    → Counts k (n + passed k h (check_found h f (some r))) end_at (check_found h f (some r)).1
      × ((n + passed k h (check_found h f (some r))) ≤ limit)
unfolding count_hit
own_hit k n limit end_at h r f found own key count reset before l le =
    go (Bool-cases (leb h.limit r.count))
  where
    go :
        (leb h.limit r.count ≡ true) ⊎ (leb h.limit r.count ≡ false)
        → Counts k (n + passed k h (check_found h f (some r))) end_at (check_found h f (some r)).1
          × ((n + passed k h (check_found h f (some r))) ≤ limit)
    go (inl e) = (
      (
        r,
        ground (arith, e, found, own, before, reset),
        ground (arith, e, count, before, reset),
        reset,
      ),
      ground (arith, e, before, reset, le),
    )
    go (inr e) = (
      (
        record r { count = r.count + 1 },
        ground (
          arith,
          e,
          own,
          key,
          before,
          reset,
          find_record-set_record k (record r { count = r.count + 1 }) f.records,
        ),
        ground (arith, e, count, own, before, reset),
        reset,
      ),
      ground (arith, e, before, reset, le, count, l),
    )

other_hit :
    (k : ℕ) (h : Hit) (r : FallbackRecord) (f : Fallback) (o : Option FallbackRecord)
    → find_record h.key f.records ≡ o
    → (h.key == k) ≡ false
    → find_record k f.records ≡ some r
    → find_record k (check_found h f o).1.records ≡ some r
unfolding open_window count_hit
other_hit k h r f none e d found = ground (
  arith,
  d,
  found,
  find_record-set_record k (record { key = h.key; count = 1; reset_at = h.now + h.ttl }) f.records,
)
other_hit k h r f (some x) e d found = ground (
  arith,
  d,
  found,
  find_record-key h.key x f.records e,
  find_record-set_record k (record { key = h.key; count = 1; reset_at = h.now + h.ttl }) f.records,
  find_record-set_record k (record x { count = x.count + 1 }) f.records,
)

-- What one request does to the count of a key whose window is open.
one_hit :
    (k n limit end_at : ℕ) (h : Hit) (f : Fallback)
    → Counts k n end_at f
    → h.now < end_at
    → ((h.key == k) ≡ true → h.limit ≡ limit)
    → n ≤ limit
    → Counts k (n + passed k h (check_fallback_limit h f)) end_at (check_fallback_limit h f).1
      × ((n + passed k h (check_fallback_limit h f)) ≤ limit)
unfolding check_fallback_limit
one_hit k n limit end_at h f (r, found, count, reset) before own le = go (Bool-cases (h.key == k))
  where
    swept : Fallback
    swept = sweep_fallback_records_if_due h.now f

    kept : find_record k swept.records ≡ some r
    kept = sweep-keeps k h.now r f found (omega (arith, before, reset))

    go :
        ((h.key == k) ≡ true) ⊎ ((h.key == k) ≡ false)
        → Counts k
            (n + passed k h (check_found h swept (find_record h.key swept.records)))
            end_at
            (check_found h swept (find_record h.key swept.records)).1
          × ((n + passed k h (check_found h swept (find_record h.key swept.records))) ≤ limit)
    go (inl e) =
        let same : h.key ≡ k = ground (arith, e) in
        let mine = subst (λ j. find_record j swept.records ≡ some r) (sym same) kept in
        subst
          (λ o.
            Counts k (n + passed k h (check_found h swept o)) end_at (check_found h swept o).1
            × ((n + passed k h (check_found h swept o)) ≤ limit))
          (sym mine)
          (own_hit k n limit end_at h r swept mine same (find_record-key k r swept.records kept)
            count reset before (own e) le)
    go (inr d) = (
      (
        r,
        other_hit k h r swept (find_record h.key swept.records) refl d kept,
        ground (arith, d, count),
        reset,
      ),
      ground (arith, d, le),
    )

-- Within a window a key gets no more requests through than its limit, counting those that its
-- record already holds; requests of other keys may come in between.
pub passes-limit :
    (k n limit end_at : ℕ) (hs : List Hit) (f : Fallback)
    → Counts k n end_at f
    → n ≤ limit
    → all_within k limit end_at hs ≡ true
    → n + passes k hs f ≤ limit
passes-limit k n limit end_at [] f c le w = omega (arith, le)
passes-limit k n limit end_at (h ∷ hs) f c le w =
    let one = one_hit k n limit end_at h f c (ground (arith, w)) (λ e. ground (arith, w, e)) le in
    let rest =
      passes-limit k (n + passed k h (check_fallback_limit h f)) limit end_at hs
        (check_fallback_limit h f).1 one.0 one.1 (ground (arith, w)) in
    omega (arith, rest)
