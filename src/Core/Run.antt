-- ===== src/Core/Run.antt =====
-- Calls that change a state and may fail: a failure keeps what was changed before it.
pub mod Post
use package.primus_project.Base.{Option, none, some, ◌≡◌, refl}
use package.primus_project.Base.Outcome.{Result, ok, err}

abbrev pub Run : Type 0 → Type 0 → Type 0 → Type 0
Run E S A = S → Result E A × S

module _ {E S A B : Type 0} where
  abbrev pub then_run : Result E A × S → (A → Run E S B) → Result E B × S
  then_run (err e, s) next = (err e, s)
  then_run (ok a, s) next = next a s

  infixl 5 ◌>>=◌ ◌>>◌
  abbrev pub ◌>>=◌ : Run E S A → (A → Run E S B) → Run E S B
  ◌>>=◌ first next s = then_run (first s) next

  abbrev pub ◌>>◌ : Run E S A → Run E S B → Run E S B
  ◌>>◌ first second s = then_run (first s) (λ _. second)

module _ {E S : Type 0} where
  abbrev pub return : {A : Type 0} → A → Run E S A
  return a s = (ok a, s)

  abbrev pub throw : {A : Type 0} → E → Run E S A
  throw e s = (err e, s)

  -- The current state.
  abbrev pub current : Run E S S
  current s = (ok s, s)

  abbrev pub put : S → Run E S (Unit {0})
  put s' s = (ok tt, s')

  abbrev pub modify : (S → S) → Run E S (Unit {0})
  modify f s = (ok tt, f s)

  abbrev pub of_result : {A : Type 0} → Result E A → Run E S A
  of_result r s = (r, s)

  abbrev pub of_option : {A : Type 0} → E → Option A → Run E S A
  of_option e none s = (err e, s)
  of_option e (some a) s = (ok a, s)

-- `map_err` on the outcome of a call.
abbrev pub map_err : {E F S A : Type 0} → (E → F) → Result E A × S → Result F A × S
map_err f (err e, s) = (err (f e), s)
map_err f (ok a, s) = (ok a, s)
