-- ===== src/Errors/Action.antt =====
-- Calls on a shared state: the state comes back beside the value, the error or the panic.
pub mod Inversion
use overload_party_scenario.Common.{Bool, true, false, Option, none, some}
use overload_party_scenario.Errors.{Error, Result, ok, err, panic, rewrite_error}

abbrev pub Action : Type 0 → Type 0 → Type 0
Action S A = S → Result A × S

module _ {S A : Type 0} where
  abbrev pub pure : A → Action S A
  pure a s = (ok a, s)

  abbrev pub raise : Error → Action S A
  raise e s = (err e, s)

  abbrev pub lift : Result A → Action S A
  lift r s = (r, s)

  abbrev pub on_error : (Error → Error) → Action S A → Action S A
  on_error f m s = let (r, s') = m s in (rewrite_error f r, s')

-- `if !ok { return err }`
abbrev pub require : {S : Type 0} → Bool → Error → Action S (Unit {0})
require true e s = (ok tt, s)
require false e s = (err e, s)

abbrev pub noticed : {A : Type 0} → Result A → Result (Option Error)
noticed (ok a) = ok none
noticed (err e) = ok (some e)
noticed (panic p) = panic p

module _ {S A B : Type 0} where
  -- Runs the rest of a call on the value, or hands the error or the panic up.
  abbrev pub continue : Result A → (A → Action S B) → Action S B
  continue (ok a) f s = f a s
  continue (err e) f s = (err e, s)
  continue (panic p) f s = (panic p, s)

  infixl 5 ◌>>=◌ ◌>>◌
  abbrev pub ◌>>=◌ : Action S A → (A → Action S B) → Action S B
  ◌>>=◌ m f s = let (r, s') = m s in continue r f s'

  abbrev pub ◌>>◌ : Action S A → Action S B → Action S B
  m >> k = m >>= λ _. k

-- `if err := m(); err != nil` where the caller goes on: the error is a value.
abbrev pub attempt : {S A : Type 0} → Action S A → Action S (Option Error)
attempt m s = let (r, s') = m s in (noticed r, s')
