-- ===== src/Wiring/Resources.antt =====
-- The resources that are open after each event, and what the parts of `run` leave open.
use overload_party_scenario.Common.{
  ℕ, ◌≡◌, refl, true, Option, none, some, List, [], ◌∷◌, eqb, if◌then◌else◌,
}
use overload_party_scenario.Errors.{Result, ok, err, panic}
use overload_party_scenario.Errors.Action.{Action, lift, ◌>>=◌, continue}
use overload_party_scenario.Wiring.{
  Resource, signals, dialer, pool, firestore, pubsub, storage, Event, opened, closed, Trace,
  open_resource, deferred, with_deferred, close_resource,
}

abbrev pub number : Resource → ℕ
number signals = 0
number dialer = 1
number pool = 2
number firestore = 3
number pubsub = 4
number storage = 5

-- A close is of the resource opened last.
abbrev pub after_event : Event → Option (List Resource) → Option (List Resource)
after_event e none = none
after_event (opened r) (some held) = some (r ∷ held)
after_event (closed r) (some []) = none
after_event (closed r) (some (last ∷ held)) =
    if eqb (number r) (number last) then some held else none

-- The open resources, the latest first: none where a close is not of the resource opened last.
abbrev pub still_open : Trace → Option (List Resource)
still_open [] = some []
still_open (e ∷ earlier) = after_event e (still_open earlier)

eqb_refl : (r : Resource) → eqb (number r) (number r) ≡ true
eqb_refl signals = refl
eqb_refl dialer = refl
eqb_refl pool = refl
eqb_refl firestore = refl
eqb_refl pubsub = refl
eqb_refl storage = refl

-- What is open after a call: on a value, what it has opened, and otherwise what was open before.
abbrev pub Left : {A : Type 0} → (A → List Resource) → List Resource → Result A × Trace → Type 0
Left opens before (ok a, trace) = still_open trace ≡ some (opens a)
Left opens before (err e, trace) = still_open trace ≡ some before
Left opens before (panic p, trace) = still_open trace ≡ some before

abbrev pub Acquires : {A : Type 0} → (A → List Resource → List Resource) → Action Trace A → Type 0
Acquires opens m =
    (trace : Trace) (held : List Resource)
    → still_open trace ≡ some held
    → Left (λ a. opens a held) held (m trace)

abbrev pub Keeps : {A : Type 0} → Action Trace A → Type 0
Keeps m =
    (trace : Trace) (held : List Resource)
    → still_open trace ≡ some held
    → still_open (m trace).1 ≡ some held

-- A close releases what a value has opened.
abbrev pub Releases :
    {A : Type 0} → (A → List Resource → List Resource) → (A → Action Trace (Unit {0})) → Type 0
Releases opens close =
    (a : _) (trace : Trace) (held : List Resource)
    → still_open trace ≡ some (opens a held)
    → still_open (close a trace).1 ≡ some held

module _ {A B : Type 0} (opens : A → List Resource → List Resource)
    (close : A → Action Trace (Unit {0})) (body : A → Action Trace B)
    (releases : Releases opens close) (keeps : (a : A) → Keeps (body a)) where
  with_outcome :
      (outcome : Result A × Trace) (held : List Resource)
      → Left (λ a. opens a held) held outcome
      → still_open (continue outcome.0 (λ a. deferred (close a) (body a)) outcome.1).1 ≡ some held
  with_outcome (ok a, trace) held left =
      releases a (body a trace).1 held (keeps a trace (opens a held) left)
  with_outcome (err e, trace) held left = left
  with_outcome (panic p, trace) held left = left

  -- A resource that is acquired, used and released leaves what was open before.
  pub with_deferred-Keeps :
      (acquire : Action Trace A) → Acquires opens acquire → Keeps (with_deferred acquire close body)
  unfolding with_deferred
  with_deferred-Keeps acquire acquires trace held h =
      with_outcome (acquire trace) held (acquires trace held h)

pub open_resource-Acquires :
    {A : Type 0} (r : Resource) (result : Result A)
    → Acquires (λ a held. r ∷ held) (open_resource r result)
open_resource-Acquires r (ok a) trace held h = rw h refl
open_resource-Acquires r (err e) trace held h = h
open_resource-Acquires r (panic p) trace held h = h

pub close_resource-Releases :
    {A : Type 0} (r : Resource) → Releases {A = A} (λ a held. r ∷ held) (λ a. close_resource r)
close_resource-Releases r a trace held h = rw (h, eqb_refl r) refl

pub lift-Keeps : {A : Type 0} (result : Result A) → Keeps (lift {S = Trace} result)
lift-Keeps result trace held h = h

-- A call that opens nothing, and a rest.
pub lift-then-Keeps :
    {A B : Type 0} (result : Result A) (k : A → Action Trace B)
    → ((a : A) → Keeps (k a))
    → Keeps (lift result >>= k)
lift-then-Keeps (ok a) k keeps = keeps a
lift-then-Keeps (err e) k keeps = λ trace held h. h
lift-then-Keeps (panic p) k keeps = λ trace held h. h
