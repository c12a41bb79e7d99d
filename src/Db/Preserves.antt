-- ===== src/Db/Preserves.antt =====
-- A property of the database that code keeps whenever it returns: one rule for each way to build
-- session code. A transaction keeps it however it ends.
use canals_assessment.Prelude.{if◌then◌else◌, Bool, true, false, Option, none, some}
use canals_assessment.Domain.Errors.{Exception}
use canals_assessment.Db.Rows.{Db}
use canals_assessment.Db.Tx.{
  Result, ok, err, Tx, pure, raise, gets, or_raise, lift, raise_if, modify, ◌>>=◌, Ends, Ends-bind,
  begin, commit_or_rollback,
}

pub record Preserves {A : Type 0} (P : Db → Type 0) (m : Tx A) : Type 0 where
  pub at : (db : Db) → P db → Ends (λ a new. P new) (λ e. Unit {0}) (m db)

module _ {A : Type 0} (P : Db → Type 0) where
  pub Preserves-pure : (a : A) → Preserves P (pure a)
  Preserves-pure a = record { at = λ db h. h }

  pub Preserves-raise : (e : Exception) → Preserves P (raise {A = A} e)
  Preserves-raise e = record { at = λ db h. tt }

  pub Preserves-gets : (f : Db → A) → Preserves P (gets f)
  Preserves-gets f = record { at = λ db h. h }

  pub Preserves-lift : (r : Result A) → Preserves P (lift r)
  Preserves-lift (ok a) = record { at = λ db h. h }
  Preserves-lift (err e) = record { at = λ db h. tt }

  pub Preserves-or_raise : (o : Option A) (e : Exception) → Preserves P (or_raise o e)
  Preserves-or_raise none e = record { at = λ db h. tt }
  Preserves-or_raise (some a) e = record { at = λ db h. h }

  pub Preserves-if :
      (b : Bool) (m n : Tx A) → Preserves P m → Preserves P n → Preserves P (if b then m else n)
  Preserves-if true m n h k = h
  Preserves-if false m n h k = k

  pub begin-Preserves : (m : Tx A) → Preserves P m → (db : Db) → P db → P (begin m db).1
  unfolding begin
  begin-Preserves m k db h = go (m db) (k.at db h)
    where
      go :
          (r : Result A × Db)
          → Ends (λ a new. P new) (λ e. Unit {0}) r
          → P (commit_or_rollback db r).1
      go (ok a, new) q = q
      go (err e, new) q = h

module _ {A B : Type 0} (P : Db → Type 0) where
  pub Preserves-bind :
      (m : Tx A) (f : A → Tx B)
      → Preserves P m
      → ((a : A) → Preserves P (f a))
      → Preserves P (m >>= f)
  Preserves-bind m f h k = record {
    at = λ db p.
        Ends-bind (λ a new. P new) (λ b new. P new) (λ e. Unit) m f db (h.at db p)
          (λ a mid q. (k a).at mid q);
  }

module _ (P : Db → Type 0) where
  pub Preserves-raise_if : (b : Bool) (e : Exception) → Preserves P (raise_if b e)
  Preserves-raise_if true e = record { at = λ db h. tt }
  Preserves-raise_if false e = record { at = λ db h. h }

  pub Preserves-modify : (f : Db → Db) → ((db : Db) → P db → P (f db)) → Preserves P (modify f)
  Preserves-modify f h = record { at = h }

pub ruleset preserve_rules = (
  Preserves-pure, Preserves-raise, Preserves-gets, Preserves-lift, Preserves-or_raise,
  Preserves-bind, Preserves-raise_if,
)
