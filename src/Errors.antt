-- ===== src/Errors.antt =====
-- Go's error values, `errors.Is` and `errors.As`, and the results of fallible calls.
-- The sentinels are those of internal/port (errors.go, account.go, onboarding_repo.go),
-- internal/usecase/story/errors.go, internal/usecase/onboarding/errors.go and
-- packages/api-scenario/apiscenarioclient/client.go, and the library sentinels that the code tests
-- for.
pub mod Action
pub mod Messages
use Prim.Native.String
use overload_party_scenario.Common.{ℕ, String, ◌≡◌, refl, Bool, false, Option, none, some, eqb}

-- The sentinels of internal/port.
pub data PortError : Type 0 where
  not_found script_not_found script_infra : PortError
  invalid_name player_not_found faction_not_selected : PortError
  already_onboarded : PortError

-- internal/usecase/story/errors.go
pub data StoryError : Type 0 where
  episode_not_found episode_locked : StoryError

-- internal/usecase/onboarding/errors.go
pub data OnboardingError : Type 0 where
  already_onboarded script_not_found invalid_faction invalid_name : OnboardingError
  player_not_found faction_not_selected : OnboardingError

-- packages/api-scenario/apiscenarioclient/client.go
pub data ClientError : Type 0 where
  not_found unauthorized forbidden bad_request conflict internal_server : ClientError

-- Sentinels of packages outside the repository that it recognises.
pub data LibraryError : Type 0 where
  no_rows account_bad_request account_not_found server_closed : LibraryError

pub data Sentinel : Type 0 where
  port : PortError → Sentinel
  story : StoryError → Sentinel
  onboarding : OnboardingError → Sentinel
  library : LibraryError → Sentinel
  client : ClientError → Sentinel

-- The address of each sentinel: `errors.New` makes every one of them distinct.
abbrev pub port_address : PortError → ℕ
port_address PortError.not_found = 0
port_address PortError.script_not_found = 1
port_address PortError.script_infra = 2
port_address PortError.invalid_name = 3
port_address PortError.player_not_found = 4
port_address PortError.faction_not_selected = 5
port_address PortError.already_onboarded = 6

abbrev pub story_address : StoryError → ℕ
story_address StoryError.episode_not_found = 10
story_address StoryError.episode_locked = 11

abbrev pub onboarding_address : OnboardingError → ℕ
onboarding_address OnboardingError.already_onboarded = 20
onboarding_address OnboardingError.script_not_found = 21
onboarding_address OnboardingError.invalid_faction = 22
onboarding_address OnboardingError.invalid_name = 23
onboarding_address OnboardingError.player_not_found = 24
onboarding_address OnboardingError.faction_not_selected = 25

abbrev pub library_address : LibraryError → ℕ
library_address no_rows = 30
library_address account_bad_request = 31
library_address account_not_found = 32
library_address server_closed = 33

abbrev pub client_address : ClientError → ℕ
client_address ClientError.not_found = 40
client_address unauthorized = 41
client_address forbidden = 42
client_address bad_request = 43
client_address conflict = 44
client_address internal_server = 45

abbrev pub address : Sentinel → ℕ
address (port e) = port_address e
address (story e) = story_address e
address (onboarding e) = onboarding_address e
address (library e) = library_address e
address (client e) = client_address e

-- `wrapf before e after` is `fmt.Errorf` with one `%w`: the text before and after the wrapped
-- error. `pg_error` is a `*pgconn.PgError` with its SQLSTATE. `opaque` is any other error, also one
-- whose cause is formatted by `%v`.
pub data Error : Type 0 where
  sentinel : Sentinel → Error
  wrapf : String → Error → String → Error
  pg_error : String → String → Error
  opaque : String → Error

-- errors.Is(err, target) for a sentinel target.
abbrev pub is : Error → Sentinel → Bool
is (sentinel s) t = eqb (address s) (address t)
is (wrapf _ e _) t = is e t
is (pg_error _ _) t = false
is (opaque _) t = false

-- errors.As(err, &pgErr), and then pgErr.Code.
abbrev pub as_pg_code : Error → Option String
as_pg_code (sentinel _) = none
as_pg_code (wrapf _ e _) = as_pg_code e
as_pg_code (pg_error code _) = some code
as_pg_code (opaque _) = none

-- fmt.Errorf(text + ": %w", err)
abbrev pub wrap : String → Error → Error
wrap text e = wrapf (String.◌++◌ text ": ") e ""

-- What a call returns: its value, its error, or a panic with its message.
pub data Result {ℓ} (A : Type ℓ) : Type ℓ where
  ok : A → Result A
  err : Error → Result A
  panic : String → Result A

module _ {ℓ} {A : Type ℓ} where
  -- `if err != nil { return f(err) }`
  abbrev pub rewrite_error : (Error → Error) → Result A → Result A
  rewrite_error f (ok a) = ok a
  rewrite_error f (err e) = err (f e)
  rewrite_error f (panic p) = panic p

  pub ok-injective : {a b : A} → ok a ≡ ok b → a ≡ b
  ok-injective h = cc

module _ {ℓ κ} {A : Type ℓ} {B : Type κ} where
  infixl 5 ◌>>=◌
  -- The next call of a chain, unless this one has failed or panicked.
  abbrev pub ◌>>=◌ : Result A → (A → Result B) → Result B
  panic p >>= next = panic p
  err e >>= next = err e
  ok value >>= next = next value

  pub >>=-eq-ok :
      (call : Result A) (next : A → Result B) {result : B}
      → (call >>= next) ≡ ok result
      → (value : A) × (call ≡ ok value) × (next value ≡ ok result)
  >>=-eq-ok (panic p) next h = cc
  >>=-eq-ok (err e) next h = cc
  >>=-eq-ok (ok value) next h = (value, refl, h)

module _ {ℓ} {B : Type ℓ} where
  infixl 5 ◌>>◌
  abbrev pub ◌>>◌ : Result (Unit {0}) → Result B → Result B
  check >> next = check >>= λ _. next
