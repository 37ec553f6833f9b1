-- ===== src/Domain/Ensures.antt =====
-- A postcondition of a service call: what holds of the result and of the tables if it returns.
use wer_te_backend.Prelude.{Bool, true, false, ◌≡◌, refl, if◌then◌else◌}
use wer_te_backend.Domain.Store.{Db, Action, Result, ◌>>=◌}

abbrev pub Ensures : {A : Type 0} → (A → Db → Type 0) → Result A × Db → Type 0
Ensures P (Result.ok a, db) = P a db
Ensures P (Result.err e, db) = Unit

-- The rule of sequencing.
pub Ensures-bind :
    {A B : Type 0} (P : A → Db → Type 0) (Q : B → Db → Type 0) (m : Action A) (f : A → Action B)
    (db : Db)
    → Ensures P (m db)
    → ((a : A) (db' : Db) → P a db' → Ensures Q (f a db'))
    → Ensures Q ((m >>= f) db)
Ensures-bind {A} P Q m f db p k = go (m db) p
  where
    go :
        (x : Result A × Db)
        → Ensures P x
        → Ensures Q (elim x.0 [ Result.ok a ↦ f a x.1 | Result.err e ↦ (Result.err e, x.1) ])
    go (Result.ok a, db') p = k a db' p
    go (Result.err e, db') p = tt

-- The rule of a test.
pub Ensures-if :
    {A : Type 0} (P : A → Db → Type 0) (b : Bool) (m n : Action A) (db : Db)
    → (b ≡ true → Ensures P (m db))
    → (b ≡ false → Ensures P (n db))
    → Ensures P ((if b then m else n) db)
Ensures-if P true m n db h k = h refl
Ensures-if P false m n db h k = k refl
