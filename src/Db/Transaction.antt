-- ===== src/Db/Transaction.antt =====
-- `db.transaction(async (tx) => ...)`: the body reads and writes the tables, or throws.
use orgistry.Prelude.{◌≡◌, refl, ◌⊎◌, inl, inr, Bool, true, false, Option, none, some}
use orgistry.Errors.{AppError}
use orgistry.Db.Rows.{Database}

pub data Result {ℓ} (A : Type ℓ) : Type ℓ where
  ok : A → Result A
  throw : AppError → Result A

-- The body of a transaction: the tables that it was given are left as they were when it throws.
abbrev pub Tx {ℓ} : Type ℓ → Type ℓ
Tx A = Database → Result (A × Database)

infixl 5 ◌>>=◌ ◌>>◌
abbrev pub ◌>>=◌ : {A B : Type 0} → Tx A → (A → Tx B) → Tx B
◌>>=◌ m f db = elim (m db) [ ok (a, db') ↦ f a db' | throw e ↦ throw e ]

abbrev pub ◌>>◌ : {B : Type 0} → Tx (Unit {0}) → Tx B → Tx B
m >> k = m >>= λ _. k

abbrev pub return : {A : Type 0} → A → Tx A
return a db = ok (a, db)

abbrev pub fail : {A : Type 0} → AppError → Tx A
fail e db = throw e

abbrev pub read : {A : Type 0} → (Database → A) → Tx A
read f db = ok (f db, db)

abbrev pub write : (Database → Database) → Tx (Unit {0})
write f db = ok (tt, f db)

-- `if (condition) { throw error; }`
abbrev pub reject_if : Bool → AppError → Tx (Unit {0})
reject_if true e db = throw e
reject_if false e db = ok (tt, db)

-- `if (!row) { throw error; }`
abbrev pub require_row : {A : Type 0} → Option A → AppError → Tx A
require_row (some a) e db = ok (a, db)
require_row none e db = throw e

-- What a committed or rolled back transaction leaves.
abbrev pub run : {A : Type 0} → Tx A → Database → Result A × Database
run m db = elim (m db) [ ok (a, db') ↦ (ok a, db') | throw e ↦ (throw e, db) ]

pub Result-cases :
    {A : Type 0} (r : Result (A × Database))
    → ((a : A) × (db' : Database) × (r ≡ ok (a, db'))) ⊎ ((e : AppError) × (r ≡ throw e))
Result-cases (ok (a, db')) = inl (a, db', refl)
Result-cases (throw e) = inr (e, refl)

pub Outcome-cases :
    {A : Type 0} (r : Result A) → ((a : A) × (r ≡ ok a)) ⊎ ((e : AppError) × (r ≡ throw e))
Outcome-cases (ok a) = inl (a, refl)
Outcome-cases (throw e) = inr (e, refl)
