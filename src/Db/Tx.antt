-- ===== src/Db/Tx.antt =====
-- Calls of the database, and `WithTx` of internal/repository/repository.go. Of an error the model
-- keeps what `errors.Is` finds in its chain; the texts that wrap it are left out.
pub mod Laws
use system_of_adownload.Prelude.{Bool, Text, codes, if◌then◌else◌, ℕ}
use system_of_adownload.Db.Models.{Store}

-- `pgx.ErrNoRows`, the errors of internal/app/service.go, and all others.
pub data Error : Type 0 where
  no_rows group_already_exists group_not_found artifact_already_exists artifact_not_found : Error
  version_not_found schema_not_found invalid_schema other : Error

pub data Result {ℓ} (A : Type ℓ) : Type ℓ where
  ok : A → Result A
  err : Error → Result A

abbrev pub Db {ℓ} : Type ℓ → Type ℓ
Db A = Store → Result A × Store

-- What follows a call: its value, in the store that it leaves, or its error.
abbrev pub after {ℓ κ} :
    {A : Type ℓ} {B : Type κ} → (A → Db B) → Result A × Store → Result B × Store
after f (ok a, s) = f a s
after f (err e, s) = (err e, s)

infixl 5 ◌>>=◌ ◌>>◌
abbrev pub ◌>>=◌ {ℓ κ} : {A : Type ℓ} {B : Type κ} → Db A → (A → Db B) → Db B
(m >>= f) s = after f (m s)

abbrev pub ◌>>◌ {ℓ κ} : {A : Type ℓ} {B : Type κ} → Db A → Db B → Db B
(m >> k) s = after (λ _. k) (m s)

abbrev pub pure {ℓ} : {A : Type ℓ} → A → Db A
pure a s = (ok a, s)

abbrev pub raise {ℓ} : {A : Type ℓ} → Error → Db A
raise e s = (err e, s)

-- `if err != nil`: the value or the error of a call, for a handler to look at.
abbrev caught {ℓ} : {A : Type ℓ} → Result A × Store → Result (Result A) × Store
caught (r, s) = (ok r, s)

abbrev pub attempt {ℓ} : {A : Type ℓ} → Db A → Db (Result A)
attempt m s = caught (m s)

-- `fails name i`: whether the connection breaks at call `i` of the query with this name.
abbrev pub Faults : Type 0
Faults = Text → ℕ → Bool

abbrev pub ask {ℓ} : {A : Type ℓ} → Faults → Text → ℕ → Db A → Db A
ask fails name i m s = if fails name i then (err other, s) else m s

-- The end of `WithTx`: an error rolls the transaction back, and so does a commit that fails.
abbrev finish {ℓ} : {A : Type ℓ} → Faults → Store → Result A × Store → Result A × Store
finish fails s (ok a, s') = if fails (codes "Commit") 0 then (err other, s) else (ok a, s')
finish fails s (err e, s') = (err e, s)

unfoldable pub with_tx {ℓ} : {A : Type ℓ} → Faults → Db A → Db A
with_tx fails fn s = if fails (codes "Begin") 0 then (err other, s) else finish fails s (fn s)
