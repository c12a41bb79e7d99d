-- ===== src/Db/Tx.antt =====
-- A session: code that reads and writes the database and may raise, and `session.begin()`, which
-- commits what such code has done, or rolls it back when it raises.
use canals_assessment.Prelude.{
  ℕ, suc, ◌≡◌, Bool, true, false, Option, none, some, String, if◌then◌else◌,
}
use canals_assessment.Domain.Values.{Point}
use canals_assessment.Domain.Errors.{Exception}
use canals_assessment.Db.Rows.{Db}

pub data Result {ℓ} (A : Type ℓ) : Type ℓ where
  ok : A → Result A
  err : Exception → Result A

-- What was written before a raise is still in the session, until a rollback.
abbrev pub Tx : Type 0 → Type 0
Tx A = Db → Result A × Db

module _ {A : Type 0} where
  abbrev pub pure : A → Tx A
  pure a db = (ok a, db)

  abbrev pub raise : Exception → Tx A
  raise e db = (err e, db)

  abbrev pub gets : (Db → A) → Tx A
  gets f db = (ok (f db), db)

  abbrev pub or_raise : Option A → Exception → Tx A
  or_raise none e = raise e
  or_raise (some a) e = pure a

  abbrev pub lift : Result A → Tx A
  lift r db = (r, db)

abbrev pub resume : {A B : Type 0} → Result A → (A → Tx B) → Tx B
resume (ok a) f db = f a db
resume (err e) f db = (err e, db)

infixl 5 ◌>>=◌ ◌>>◌
abbrev pub ◌>>=◌ : {A B : Type 0} → Tx A → (A → Tx B) → Tx B
◌>>=◌ m f db = let (r, db') = m db in resume r f db'

abbrev pub ◌>>◌ : {A B : Type 0} → Tx A → Tx B → Tx B
m >> k = m >>= λ _. k

abbrev pub modify : (Db → Db) → Tx (Unit {0})
modify f db = (ok tt, f db)

abbrev pub raise_if : Bool → Exception → Tx (Unit {0})
raise_if c e db = (if c then err e else ok tt, db)

-- `async with session.begin():`
abbrev pub commit_or_rollback : {A : Type 0} → Db → Result A × Db → Result A × Db
commit_or_rollback old (ok a, new) = (ok a, new)
commit_or_rollback old (err e, new) = (err e, old)

unfoldable pub begin : {A : Type 0} → Tx A → Tx A
begin m db = commit_or_rollback db (m db)

-- What PostgreSQL, PostGIS and Python's `str` compute for the program: the ids that
-- `gen_random_uuid()` draws, ST_Distance and the order of its results by `<->`, the order of two
-- texts under the database's collation, the text of a UUID,
-- and the setting RESERVATION_TTL_SECONDS of app/config.py.
pub record Env : Type 0 where
  pub gen_random_uuid : ℕ → ℕ
  pub st_distance : Point → Point → ℕ
  pub collates : String → String → Bool
  pub str_uuid : ℕ → String
  pub reservation_ttl_seconds : ℕ

-- The id of the next inserted row.
abbrev pub draw : Env → Tx ℕ
draw env db = (ok (env.gen_random_uuid db.drawn), record db { drawn = suc db.drawn })

-- What holds of a run's end: of its value and database, or of the exception.
abbrev pub Ends : {A : Type 0} → (A → Db → Type 0) → (Exception → Type 0) → Result A × Db → Type 0
Ends P E (ok a, db) = P a db
Ends P E (err e, db) = E e

Ends-resume :
    {A B : Type 0} (P : A → Db → Type 0) (Q : B → Db → Type 0) (E : Exception → Type 0)
    → (f : A → Tx B) (r : Result A × Db) → Ends P E r
    → ((a : A) (db' : Db) → P a db' → Ends Q E (f a db'))
    → Ends Q E (resume r.0 f r.1)
Ends-resume P Q E f (ok a, db') h k = k a db' h
Ends-resume P Q E f (err e, db') h k = h

-- The rule for a sequence of two steps.
pub Ends-bind :
    {A B : Type 0} (P : A → Db → Type 0) (Q : B → Db → Type 0) (E : Exception → Type 0)
    → (m : Tx A) (f : A → Tx B) (db : Db) → Ends P E (m db)
    → ((a : A) (db' : Db) → P a db' → Ends Q E (f a db'))
    → Ends Q E ((m >>= f) db)
Ends-bind P Q E m f db h k = Ends-resume P Q E f (m db) h k

-- Whether a run returned.
abbrev pub is_ok : {A : Type 0} → Result A → Bool
is_ok (ok a) = true
is_ok (err e) = false

-- What holds of a run that returned.
pub Ends-is_ok :
    {A : Type 0} (P : A → Db → Type 0) (E : Exception → Type 0) (r : Result A × Db)
    → Ends P E r
    → is_ok r.0 ≡ true
    → (a : A) × P a r.1
Ends-is_ok P E (ok a, db) h k = (a, h)
Ends-is_ok P E (err e, db) h k = cc

-- What holds of a run's end may be weakened, and what holds of the database it leaves holds of it.
pub Ends-weaken :
    {A : Type 0} (P Q : A → Db → Type 0) (E : Exception → Type 0) (r : Result A × Db)
    → ((a : A) (new : Db) → P a new → Q a new)
    → Ends P E r
    → Ends Q E r
Ends-weaken P Q E (ok a, db) k h = k a db h
Ends-weaken P Q E (err e, db) k h = h

pub Ends-left :
    {A : Type 0} (P : Db → Type 0) (r : Result A × Db)
    → P r.1
    → Ends (λ a new. P new) (λ e. Unit {0}) r
Ends-left P (ok a, db) h = h
Ends-left P (err e, db) h = tt
