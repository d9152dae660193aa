-- ===== src/Rest/OnboardingHandler.antt =====
-- onboarding_handler.go
use overload_party_scenario.Common.{ℕ, String, Bool, Option, none, List, ◌||◌, if◌then◌else◌}
use overload_party_scenario.Errors.{Error, Result, ok, err, panic, onboarding, OnboardingError, is}
use overload_party_scenario.Errors.Action.{Action}
use overload_party_scenario.Port.{
  OnboardingRepo, ScriptStore, OnboardingNameValidator, OnboardingPlayerReader,
}
use overload_party_scenario.Onboarding
use overload_party_scenario.Onboarding.Events.{Fresh}
use overload_party_scenario.Rest.{
  Reply, empty, onboarding_script, onboarding_complete, error_message, LogLine, info, error, log,
  status_ok, status_no_content, status_bad_request, status_not_found, status_conflict,
  status_internal_server_error, default_lang, answer, reply_to,
}

abbrev is_sentinel : Error → OnboardingError → Bool
is_sentinel e s = is e (onboarding s)

unfoldable pub resolve_onboarding_error_status : Error → ℕ
resolve_onboarding_error_status e =
    if is_sentinel e OnboardingError.script_not_found
      || is_sentinel e OnboardingError.player_not_found
    then status_not_found
    else if is_sentinel e OnboardingError.already_onboarded
        || is_sentinel e OnboardingError.faction_not_selected
    then status_conflict
    else if is_sentinel e OnboardingError.invalid_faction
        || is_sentinel e OnboardingError.invalid_name
    then status_bad_request
    else status_internal_server_error

unfoldable pub is_onboarding_rejected : Error → Bool
is_onboarding_rejected e =
    is_sentinel e OnboardingError.already_onboarded
    || (is_sentinel e OnboardingError.script_not_found
        || (is_sentinel e OnboardingError.invalid_faction
            || (is_sentinel e OnboardingError.invalid_name
                || (is_sentinel e OnboardingError.player_not_found
                    || is_sentinel e OnboardingError.faction_not_selected))))

abbrev pub script_reply : String → Reply
script_reply script = record { status = status_ok; body = onboarding_script script; log = none }

abbrev pub completion_reply : String → Unit {0} → Reply
completion_reply player_id done = record {
  status = status_ok;
  body = onboarding_complete "onboarding completed" player_id;
  log = none;
}

abbrev pub no_content : Unit {0} → Reply
no_content _ = record { status = status_no_content; body = empty; log = none }

-- The level is info for a rejection that the specification foresees.
abbrev pub log_rejection : String → String → Error → Option LogLine
log_rejection rejected failed e =
    if is_onboarding_rejected e then log info rejected else log error failed

module _ (render : Error → String) where
  -- respondOnboardingError, with the log line that precedes it.
  abbrev pub respond_onboarding_error : (Error → Option LogLine) → Error → Reply
  respond_onboarding_error line e = record {
    status = resolve_onboarding_error_status e;
    body = error_message (render e);
    log = line e;
  }

  -- A body that ShouldBindJSON refuses.
  abbrev pub bind_failed : String → Error → Reply
  bind_failed message e = record {
    status = status_bad_request;
    body = error_message (render e);
    log = log info message;
  }

  -- What ShouldBindJSON makes of the request's body comes as `bound`.
  abbrev pub with_body :
      {S : Type 0} → String → (String → Action S Reply) → Result String → Action S Reply
  with_body message k (ok text) s = k text s
  with_body message k (err e) s = (ok (bind_failed message e), s)
  with_body message k (panic p) s = (panic p, s)

  module _ {S : Type 0} (repo : OnboardingRepo S) (script_store : ScriptStore)
      (name_validator : OnboardingNameValidator) (player_reader : OnboardingPlayerReader)
      (selectable_factions : List String) (fresh : Fresh) where
    unfoldable pub get_script : String → Option String → Action S Reply
    get_script player_id lang s = (
      answer script_reply
          (respond_onboarding_error
            (log_rejection "get onboarding script rejected" "get onboarding script failed"))
          (Onboarding.get_script repo script_store name_validator player_reader selectable_factions
            fresh player_id (default_lang lang)),
      s,
    )

    unfoldable pub update_name : String → Result String → Action S Reply
    update_name player_id = with_body "update onboarding name bind failed" λ name.
        reply_to no_content
          (respond_onboarding_error
            (log_rejection "update onboarding name rejected" "update onboarding name failed"))
          (Onboarding.update_name repo script_store name_validator player_reader selectable_factions
            fresh player_id name)

    unfoldable pub select_faction : String → Result String → Action S Reply
    select_faction player_id =
        with_body "select onboarding faction bind failed" λ initial_faction_id.
          reply_to no_content
            (respond_onboarding_error (
              log_rejection "select onboarding faction rejected"
                "select onboarding faction failed"))
            (Onboarding.select_faction repo script_store name_validator player_reader
              selectable_factions fresh player_id initial_faction_id)

    unfoldable pub complete : String → Action S Reply
    complete player_id =
        reply_to (completion_reply player_id)
          (respond_onboarding_error
            (log_rejection "complete onboarding rejected" "complete onboarding failed"))
          (Onboarding.complete repo script_store name_validator player_reader selectable_factions
            fresh player_id)
