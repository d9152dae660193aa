-- ===== src/Errors/Action/Inversion.antt =====
-- What a successful call says of its steps.
use overload_party_scenario.Common.{◌≡◌, refl, Bool, true, false}
use overload_party_scenario.Errors.{Error, Result, ok, err, panic, rewrite_error}
use overload_party_scenario.Errors.Action.{Action, continue, require, ◌>>=◌}

module _ {A : Type 0} where
  pub rewrite_error-eq-ok :
      (f : Error → Error) (r : Result A) {a : A} → rewrite_error f r ≡ ok a → r ≡ ok a
  rewrite_error-eq-ok f (ok x) h = h
  rewrite_error-eq-ok f (err e) h = cc
  rewrite_error-eq-ok f (panic p) h = cc

-- `continue` on a result, with its case known.
module _ {S A B : Type 0} where
  continue-eq-ok :
      (r : Result A) (f : A → Action S B) (s : S) {b : B}
      → (continue r f s).0 ≡ ok b
      → (a : A) × (r ≡ ok a) × ((f a s).0 ≡ ok b) × ((continue r f s).1 ≡ (f a s).1)
  continue-eq-ok (ok a) f s h = (a, refl, h, refl)
  continue-eq-ok (err e) f s h = cc
  continue-eq-ok (panic p) f s h = cc

  -- A block that returns a value has run its first step and the rest after it.
  pub >>=-eq-ok :
      (m : Action S A) (f : A → Action S B) (s : S) {b : B}
      → ((m >>= f) s).0 ≡ ok b
      → (a : A) × ((m s).0 ≡ ok a) × ((f a (m s).1).0 ≡ ok b) × (((m >>= f) s).1 ≡ (f a (m s).1).1)
  >>=-eq-ok m f s h = continue-eq-ok (m s).0 f (m s).1 h

  -- A first step that only reads hands its value to the rest, in the same state.
  pub >>=-read :
      (m : Action S A) (f : A → Action S B) (s : S) {a : A}
      → (m s).1 ≡ s
      → (m s).0 ≡ ok a
      → (m >>= f) s ≡ f a s
  >>=-read m f s same e = rw (e, same)

  pub >>=-read-eq-ok :
      (m : Action S A) (f : A → Action S B) (s : S) {b : B}
      → (m s).1 ≡ s
      → ((m >>= f) s).0 ≡ ok b
      → (a : A) × ((m s).0 ≡ ok a) × ((f a s).0 ≡ ok b)
  >>=-read-eq-ok m f s same h = let (a, e, rest, _) = >>=-eq-ok m f s h in (a, e, rw same at rest)

  -- A property of states that the first step and every rest keep is kept by the block.
  continue-keeps {κ} :
      (P : S → Type κ) (r : Result A) (f : A → Action S B) (s : S)
      → P s
      → ((a : A) → r ≡ ok a → P (f a s).1)
      → P (continue r f s).1
  continue-keeps P (ok a) f s h k = k a refl
  continue-keeps P (err e) f s h k = h
  continue-keeps P (panic p) f s h k = h

  pub >>=-keeps {κ} :
      (P : S → Type κ) (m : Action S A) (f : A → Action S B) (s : S)
      → P (m s).1
      → ((a : A) → (m s).0 ≡ ok a → P (f a (m s).1).1)
      → P ((m >>= f) s).1
  >>=-keeps P m f s h k = continue-keeps P (m s).0 f (m s).1 h k

pub require-eq-ok :
    {S : Type 0} (b : Bool) (e : Error) (s : S) → (require b e s).0 ≡ ok tt → b ≡ true
require-eq-ok true e s h = refl
require-eq-ok false e s h = cc

pub require-state : {S : Type 0} (b : Bool) (e : Error) (s : S) → (require b e s).1 ≡ s
require-state true e s = refl
require-state false e s = refl
