-- ===== src/Db/Frame.antt =====
-- What a run leaves alone: one rule for each way to build session code.
use canals_assessment.Prelude.{◌≡◌, refl, ◌∙◌, Bool, Option, none, some}
use canals_assessment.Domain.Errors.{Exception}
use canals_assessment.Db.Rows.{Db}
use canals_assessment.Db.Tx.{
  Result, ok, err, Tx, pure, raise, gets, or_raise, lift, raise_if, modify, resume, ◌>>=◌,
}

-- `m` leaves `view` as it was, whether it returns or raises.
pub record Frames {A B : Type 0} (view : Db → B) (m : Tx A) : Type 0 where
  pub at : (db : Db) → view (m db).1 ≡ view db

module _ {A B : Type 0} (view : Db → B) where
  pub Frames-pure : (a : A) → Frames view (pure a)
  Frames-pure a = record { at = λ db. refl }

  pub Frames-raise : (e : Exception) → Frames view (raise {A = A} e)
  Frames-raise e = record { at = λ db. refl }

  pub Frames-gets : (f : Db → A) → Frames view (gets f)
  Frames-gets f = record { at = λ db. refl }

  pub Frames-lift : (r : Result A) → Frames view (lift r)
  Frames-lift r = record { at = λ db. refl }

  pub Frames-or_raise : (o : Option A) (e : Exception) → Frames view (or_raise o e)
  Frames-or_raise none e = record { at = λ db. refl }
  Frames-or_raise (some a) e = record { at = λ db. refl }

module _ {A B C : Type 0} (view : Db → C) where
  Frames-resume :
      (f : A → Tx B) (r : Result A) (db : Db)
      → ((a : A) → Frames view (f a))
      → view (resume r f db).1 ≡ view db
  Frames-resume f (ok a) db k = (k a).at db
  Frames-resume f (err e) db k = refl

  pub Frames-bind :
      (m : Tx A) (f : A → Tx B)
      → Frames view m
      → ((a : A) → Frames view (f a))
      → Frames view (m >>= f)
  Frames-bind m f h k = record { at = λ db. Frames-resume f (m db).0 (m db).1 k ∙ h.at db }

module _ {B : Type 0} (view : Db → B) where
  pub Frames-raise_if : (b : Bool) (e : Exception) → Frames view (raise_if b e)
  Frames-raise_if b e = record { at = λ db. refl }

  pub Frames-modify : (f : Db → Db) → ((db : Db) → view (f db) ≡ view db) → Frames view (modify f)
  Frames-modify f h = record { at = h }

pub ruleset frame_rules = (
  Frames-pure, Frames-raise, Frames-gets, Frames-lift, Frames-or_raise, Frames-bind,
  Frames-raise_if,
)
