-- ===== src/Dispatch/Choice.antt =====
-- The rider that `pickEligibleRider` chooses.
use wer_te_backend.Prelude.{
  ℕ, Bool, true, false, ◌&&◌, Option, none, some, List, [], ◌∷◌, ◌≡◌, ◌⊎◌, inl, inr, arith, filter,
  includes, count_by, option_is,
}
use wer_te_backend.Domain.Entities.{Rider}
use wer_te_backend.Domain.Store.{Db}
use wer_te_backend.Dispatch.Eligibility.{
  is_dispatch_eligible_rider, is_candidate, busy_for_query, or_any, find_eligible_riders,
  first_untried, pick_eligible_rider,
}

first_untried-filter :
    (p : Rider → Bool) (excluded : List ℕ) (rs : List Rider) (r : Rider)
    → first_untried excluded (filter p rs) ≡ some r
    → (p r ≡ true) × (includes excluded r.id ≡ false)
unfolding first_untried filter
first_untried-filter p excluded [] r h = absurd cc
first_untried-filter p excluded (x ∷ xs) r h = ground (arith, first_untried-filter p excluded xs r)

-- What is promised of a rider who is offered an order.
abbrev pub IsOffered : List ℕ → Db → Rider → Type 0
IsOffered excluded db r =
    (is_dispatch_eligible_rider r ≡ true)
    × (count_by (λ d. option_is d.rider_id r.id && busy_for_query d.status) db.deliveries ≡ 0)
    × (includes excluded r.id ≡ false)

candidate-IsOffered :
    (t : Option ℕ) (excluded : List ℕ) (db : Db) (r : Rider)
    → is_candidate t db r ≡ true
    → includes excluded r.id ≡ false
    → IsOffered excluded db r
unfolding is_candidate
candidate-IsOffered t excluded db r h i = ground arith

eligible_untried :
    (t : Option ℕ) (excluded : List ℕ) (db : Db) (r : Rider)
    → first_untried excluded (find_eligible_riders t db) ≡ some r
    → IsOffered excluded db r
unfolding find_eligible_riders
eligible_untried t excluded db r h =
    let (p, i) = first_untried-filter (is_candidate t db) excluded db.riders r h in
    candidate-IsOffered t excluded db r p i

or_any_cases : (a b : Option Rider) (r : Rider) → or_any a b ≡ some r → (a ≡ some r) ⊎ (b ≡ some r)
or_any_cases none b r h = inr h
or_any_cases (some a) b r h = inl h

-- The rider that is chosen passes the tests of the query and is not among the excluded.
pub pick_eligible_rider-IsOffered :
    (t : Option ℕ) (excluded : List ℕ) (db : Db) (r : Rider)
    → pick_eligible_rider t excluded db ≡ some r
    → IsOffered excluded db r
unfolding pick_eligible_rider
pick_eligible_rider-IsOffered none excluded db r h = eligible_untried none excluded db r h
pick_eligible_rider-IsOffered (some t) excluded db r h =
    elim (or_any_cases (first_untried excluded (find_eligible_riders (some t) db))
      (first_untried excluded (find_eligible_riders none db)) r h) [
        | inl e ↦ eligible_untried (some t) excluded db r e
        | inr e ↦ eligible_untried none excluded db r e
      ]
