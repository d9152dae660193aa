-- ===== src/Rest/Statuses.antt =====
-- How the handlers' statuses and log levels follow from what the use cases decide.
use overload_party_scenario.Common.{
  String, ◌≡◌, refl, true, Option, none, List, arith, eqb, false, ltb, if◌then◌else◌,
}
use overload_party_scenario.Errors.{Error, ok}
use overload_party_scenario.Domain.{Episode}
use overload_party_scenario.Domain.Unlock.{IsMet}
use overload_party_scenario.Port.{StoryRepo, ScriptStore, PlayerProgressReader, PlayerProgress}
use overload_party_scenario.Port.Laws.{StoryRepoLaws}
use overload_party_scenario.Story.{unlock_context, read_script}
use overload_party_scenario.Story.Decision.{Reads, locked, get_script_decides}
use overload_party_scenario.Rest.{
  scenario_script, error_message, info, log, status_ok, status_forbidden, status_no_content,
  resolve_error_status, is_not_found, is_locked, default_lang,
}
use overload_party_scenario.Rest.StoryHandler.{get_script}
use overload_party_scenario.Rest.OnboardingHandler.{
  resolve_onboarding_error_status, is_onboarding_rejected,
}

-- An onboarding error counts as a foreseen rejection, logged at the level info, exactly when its
-- status is below 500.
pub is_onboarding_rejected_iff :
    (e : Error) → is_onboarding_rejected e ≡ ltb (resolve_onboarding_error_status e) 500
unfolding is_onboarding_rejected resolve_onboarding_error_status
is_onboarding_rejected_iff e = ground arith

-- A story error is answered 404, 403 or 500: below 500 exactly when it is a missing episode, a
-- missing script or a locked episode.
pub resolve_error_status-below_500 :
    (e : Error) → ltb (resolve_error_status e) 500 ≡ (if is_not_found e then true else is_locked e)
unfolding resolve_error_status
resolve_error_status-below_500 e = ground arith

-- No error has the status of a value.
pub resolve_error_status-refused : (e : Error) → eqb (resolve_error_status e) status_ok ≡ false
unfolding resolve_error_status
resolve_error_status-refused e = ground arith

pub resolve_onboarding_error_status-refused :
    (e : Error)
    → (eqb (resolve_onboarding_error_status e) status_ok ≡ false)
      × (eqb (resolve_onboarding_error_status e) status_no_content ≡ false)
unfolding resolve_onboarding_error_status
resolve_onboarding_error_status-refused e = (ground arith, ground arith)

module _ (render : Error → String) {S : Type 0} (R : StoryRepo S) (laws : StoryRepoLaws R)
    (store : ScriptStore) (account : PlayerProgressReader) (p id : String) (s : S) {ep : Episode}
    {progress : PlayerProgress} {ids : List String}
    (r : Reads R laws store account p id s ep progress ids) where
  -- Where an active episode, the account's answer and the completions are read, a script request of a
  -- player who meets the conditions is answered 200 with the text, if the store has it, and any
  -- other player's is answered 403.
  pub get_script_status :
      (lang : Option String) {text : String}
      → (IsMet ep (unlock_context progress ids)
          → read_script R store account ep.script_path (default_lang lang) ≡ ok text
          → get_script render R store account p id lang s
            ≡ (ok (record { status = status_ok; body = scenario_script id text; log = none }), s))
        × (¬ IsMet ep (unlock_context progress ids)
            → get_script render R store account p id lang s ≡ (
              ok (record {
                status = status_forbidden;
                body = error_message (render locked);
                log = log info "get script rejected";
              }),
              s,
            ))
  unfolding get_script
  get_script_status lang {text} =
      let (met, unmet) = get_script_decides R laws store account p id s r (default_lang lang) in
      (
        λ m e. rw (get_script, met m, e) refl,
        λ n. rw (get_script, unmet n) (unfold resolve_error_status in refl),
      )
