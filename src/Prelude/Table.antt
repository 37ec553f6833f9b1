-- ===== src/Prelude/Table.antt =====
-- A database table as a list of rows, and the queries that the repositories make of it.
use Prim.Native.Nat.{ℕ, ◌+◌}
use mathlib.Core.Path.{◌≡◌, refl}
use mathlib.Core.List.{List, [], ◌∷◌}
use mathlib.Core.Option.{Option, none, some}
use mathlib.Core.Bool.{Bool, true, ◌&&◌, ◌||◌}
use native.Mathlib.Omega.{arith}
use wer_te_backend.Prelude.Tests.{◌==◌, ltb, if◌then◌else◌}

module _ {ℓ} {A : Type ℓ} where
  -- `findFirst` and `findUnique`: the first row that the test accepts.
  abbrev pub find_by : (A → Bool) → List A → Option A
  find_by p [] = none
  find_by p (x ∷ xs) = if p x then some x else find_by p xs

  -- `update` and `updateMany`: every row that the test accepts is rewritten.
  abbrev pub update_by : (A → Bool) → (A → A) → List A → List A
  update_by p f [] = []
  update_by p f (x ∷ xs) = (if p x then f x else x) ∷ update_by p f xs

  -- `update` and `delete` by the primary key: one row at most is meant.
  abbrev pub update_first : (A → Bool) → (A → A) → List A → List A
  update_first p f [] = []
  update_first p f (x ∷ xs) = if p x then f x ∷ xs else x ∷ update_first p f xs

  abbrev pub delete_first : (A → Bool) → List A → List A
  delete_first p [] = []
  delete_first p (x ∷ xs) = if p x then xs else x ∷ delete_first p xs

  -- `orderBy: [{ updatedAt: 'desc' }, { createdAt: 'desc' }]` and the first row.
  unfoldable pub newest : (A → ℕ) → (A → ℕ) → List A → Option A
  newest updated created [] = none
  newest updated created (x ∷ xs) = elim (newest updated created xs) [
    | none ↦ some x
    | some y ↦
        if ltb (updated x) (updated y) || (updated x == updated y && ltb (created x) (created y))
        then some y
        else some x
  ]

  -- `count`
  abbrev pub count_by : (A → Bool) → List A → ℕ
  count_by p [] = 0
  count_by p (x ∷ xs) = (if p x then 1 else 0) + count_by p xs

  -- What an update makes of the row that a query returns.
  abbrev pub rewritten : (A → Bool) → (A → A) → Option A → Option A
  rewritten q f none = none
  rewritten q f (some a) = some (if q a then f a else a)

  -- A query whose test the update leaves alone finds the same row, rewritten if it was meant.
  pub find_by-update_by :
      (p q : A → Bool) (f : A → A) (xs : List A)
      → ((a : A) → p (f a) ≡ p a)
      → find_by p (update_by q f xs) ≡ rewritten q f (find_by p xs)
  find_by-update_by p q f [] h = refl
  find_by-update_by p q f (x ∷ xs) h = ground (arith, h x, find_by-update_by p q f xs h)

  pub count_by-update_by :
      (p q : A → Bool) (f : A → A) (xs : List A)
      → ((a : A) → p (f a) ≡ p a)
      → count_by p (update_by q f xs) ≡ count_by p xs
  count_by-update_by p q f [] h = refl
  count_by-update_by p q f (x ∷ xs) h = ground (arith, h x, count_by-update_by p q f xs h)

  -- What a query returns passes its test.
  pub find_by_sound : (p : A → Bool) (xs : List A) {a : A} → find_by p xs ≡ some a → p a ≡ true
  find_by_sound p [] h = cc
  find_by_sound p (x ∷ xs) {a} h = ground (arith, find_by_sound p xs {a = a})

  -- An update of the row that the query returns is seen by the same query.
  pub find_by-update_by_self :
      (p : A → Bool) (f : A → A) (xs : List A) {a : A}
      → ((b : A) → p (f b) ≡ p b)
      → find_by p xs ≡ some a
      → find_by p (update_by p f xs) ≡ some (f a)
  find_by-update_by_self p f xs {a} h e =
      ground (arith, find_by-update_by p p f xs h, find_by_sound p xs e)
