-- ===== src/Adapter/AccountClient.antt =====
-- adapter/http/accountclient.go. The generated client of the account service is another
-- repository's: its answers to one request are a parameter.
use Prim.Native.String
use overload_party_scenario.Common.{String, Option, List, if◌then◌else◌}
use overload_party_scenario.Common.Int.{ℤ}
use overload_party_scenario.Errors.{
  Error, Result, ok, wrapf, sentinel, port, library, PortError, account_bad_request,
  account_not_found, is, rewrite_error, ◌>>=◌,
}
use overload_party_scenario.Port.{
  AccountPlayer, PlayerProgress, OnboardingNameValidator, OnboardingPlayerReader,
  PlayerProgressReader,
}

-- The fields of apiaccount's player that the adapter reads.
pub record ApiPlayer : Type 0 where
  pub player_id : String
  pub level : ℤ
  pub initial_faction : Option String

pub record AccountApi : Type 0 where
  pub validate_name_for_onboarding : String → Result (Unit {0})
  pub get_player : Result ApiPlayer
  pub list_factions : Result (List String)

-- `fmt.Errorf("%w: %v", port.ErrInvalidName, err)` keeps only the text of `err`.
abbrev validation_error : (Error → String) → Error → Error
validation_error render e =
    if is e (library account_bad_request)
    then wrapf "" (sentinel (port PortError.invalid_name)) (String.◌++◌ ": " (render e))
    else if is e (library account_not_found)
    then sentinel (port PortError.player_not_found)
    else e

abbrev missing_player : Error → Error
missing_player e =
    if is e (library account_not_found) then sentinel (port PortError.player_not_found) else e

module _ (render : Error → String) (api : AccountApi) where
  unfoldable pub validate_onboarding_name : String → Result (Unit {0})
  validate_onboarding_name name =
      rewrite_error (validation_error render) (api.validate_name_for_onboarding name)

  pub get_onboarding_player : Result AccountPlayer
  get_onboarding_player = do
    resp ← rewrite_error missing_player api.get_player
    ok (record { player_id = resp.player_id; initial_faction = resp.initial_faction })

  pub get_player_progress : Result PlayerProgress
  get_player_progress = do
    player ← rewrite_error missing_player api.get_player
    factions ← rewrite_error missing_player api.list_factions
    ok (record { level = player.level; owned_factions = factions })

  abbrev pub name_validator : OnboardingNameValidator
  name_validator = record { validate_onboarding_name = validate_onboarding_name }

  abbrev pub player_reader : OnboardingPlayerReader
  player_reader = record { get_onboarding_player = get_onboarding_player }

  abbrev pub progress_reader : PlayerProgressReader
  progress_reader = record { get_player_progress = get_player_progress }
