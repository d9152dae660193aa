-- ===== src/Rest/AccountErrors.antt =====
-- What a player is answered when the account service refuses a name.
use overload_party_scenario.Common.{ℕ, String, ◌≡◌, refl, true, false, List}
use overload_party_scenario.Errors.{
  Error, err, ok, sentinel, library, account_bad_request, account_not_found, onboarding,
  OnboardingError, is,
}
use overload_party_scenario.Port.{OnboardingRepo, ScriptStore, OnboardingPlayerReader}
use overload_party_scenario.Onboarding
use overload_party_scenario.Onboarding.Events.{Fresh}
use overload_party_scenario.Adapter.AccountClient.{
  AccountApi, name_validator, validate_onboarding_name,
}
use overload_party_scenario.Rest.{error_message, info, log, status_bad_request, status_not_found}
use overload_party_scenario.Rest.OnboardingHandler.{
  update_name, resolve_onboarding_error_status, is_onboarding_rejected,
}

-- How the account service refuses a name, with the status and the reason that answer it.
pub data Refusal (e : Error) : ℕ → OnboardingError → Type 0 where
  bad_name :
      is e (library account_bad_request) ≡ true
      → Refusal e status_bad_request OnboardingError.invalid_name
  no_player :
      is e (library account_bad_request) ≡ false
      → is e (library account_not_found) ≡ true
      → Refusal e status_not_found OnboardingError.player_not_found

module _ (render : Error → String) {S : Type 0} (repo : OnboardingRepo S)
    (script_store : ScriptStore) (api : AccountApi) (player_reader : OnboardingPlayerReader)
    (selectable_factions : List String) (fresh : Fresh) (player name : String) (s : S) where
  -- A name that the account service refuses as a bad request is answered 400, one for a player that it
  -- does not find 404, with the texts of the use case's sentinels, and nothing changes.
  pub update_name_refused :
      {e : Error} {status : ℕ} {why : OnboardingError}
      → api.validate_name_for_onboarding name ≡ err e
      → Refusal e status why
      → update_name render repo script_store
          (name_validator render api)
          player_reader
          selectable_factions
          fresh
          player
          (ok name)
          s
        ≡ (
          ok (record {
            status = status;
            body = error_message (render (sentinel (onboarding why)));
            log = log info "update onboarding name rejected";
          }),
          s,
        )
  unfolding update_name Onboarding.update_name validate_onboarding_name
      resolve_onboarding_error_status is_onboarding_rejected
  update_name_refused refused (bad_name bad) =
      rw (update_name, Onboarding.update_name, validate_onboarding_name, refused, bad) refl
  update_name_refused refused (no_player fine missing) =
      rw (update_name, Onboarding.update_name, validate_onboarding_name, refused, fine, missing)
        refl
