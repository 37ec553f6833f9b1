-- ===== src/Domain/Reads.antt =====
-- Calls that only read the tables, and the service calls that read, check and then commit.
use wer_te_backend.Prelude.{Bool, Option, none, some, if◌then◌else◌, ◌≡◌, refl, ◌⊎◌, inl, inr}
use wer_te_backend.Domain.Store.{Db, Action, Error, Result}

abbrev pub Read : Type 0 → Type 0
Read A = Db → Result A

abbrev pub bind_result : {A B : Type 0} → Result A → (A → Result B) → Result B
bind_result (Result.ok a) f = f a
bind_result (Result.err e) f = Result.err e

infixl 5 ◌>>=◌ ◌>>◌
abbrev pub ◌>>=◌ : {A B : Type 0} → Read A → (A → Read B) → Read B
◌>>=◌ m f db = bind_result (m db) (λ a. f a db)

abbrev pub ◌>>◌ : {A B : Type 0} → Read A → Read B → Read B
m >> k = m >>= λ _. k

abbrev pub pure : {A : Type 0} → A → Read A
pure a db = Result.ok a

-- A query that must find something.
abbrev pub require : {A : Type 0} → (Db → Option A) → Error → Read A
require q e db = elim (q db) [ none ↦ Result.err e | some a ↦ Result.ok a ]

abbrev pub throw_unless : (Db → Bool) → Error → Read (Unit {0})
throw_unless q e db = if q db then Result.ok tt else Result.err e

-- What a call does with what it read.
abbrev pub commit_found :
    {A B : Type 0} → (A → Db → Db) → (A → Read B) → Result A → Db → Result B × Db
commit_found commit answer (Result.err e) db = (Result.err e, db)
commit_found commit answer (Result.ok a) db = (answer a (commit a db), commit a db)

-- A call that reads and checks, commits what it found in one transaction, and reads its answer.
abbrev pub commit_after : {A B : Type 0} → Read A → (A → Db → Db) → (A → Read B) → Action B
commit_after prepare commit answer db = commit_found commit answer (prepare db) db

-- The tables after such a call are those before it or those of the commit.
pub commit_after-keeps :
    {A B : Type 0} (P : Db → Type 0) (prepare : Read A) (commit : A → Db → Db) (answer : A → Read B)
    (db : Db)
    → ((a : A) → prepare db ≡ Result.ok a → P (commit a db))
    → P db
    → P (commit_after prepare commit answer db).1
commit_after-keeps {A} P prepare commit answer db k p = go (prepare db) refl
  where
    go : (r : Result A) → prepare db ≡ r → P (commit_found commit answer r db).1
    go (Result.ok a) e = k a e
    go (Result.err x) e = p

pub Result-cases :
    {A : Type 0} (r : Result A) → ((e : Error) × (r ≡ Result.err e)) ⊎ ((a : A) × (r ≡ Result.ok a))
Result-cases (Result.ok a) = inr (a, refl)
Result-cases (Result.err e) = inl (e, refl)
