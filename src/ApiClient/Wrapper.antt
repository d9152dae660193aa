-- ===== src/ApiClient/Wrapper.antt =====
-- packages/api-scenario/apiscenarioclient/client.go: the client whose errors are sentinels.
use Prim.Native.String
use overload_party_scenario.Common.{
  ℕ, String, Option, none, some, List, [], ◌∷◌, ◌++◌, map, eqb, leb, if◌then◌else◌,
}
use overload_party_scenario.Errors.{
  Error, Result, ok, err, wrap, sentinel, opaque, client, ClientError, rewrite_error,
}
use overload_party_scenario.Errors.Action.{Action, lift, on_error, ◌>>=◌}
use overload_party_scenario.Rest.{
  status_no_content, status_bad_request, status_unauthorized, status_forbidden, status_not_found,
  status_conflict, status_internal_server_error,
}
use overload_party_scenario.ApiClient.{
  Libraries, Unmarshal, RequestEditor, Doer, EpisodesListResponse, HealthResponse,
  OnboardingCompleteResponse, OnboardingFactionRequest, OnboardingNameRequest,
  OnboardingScriptResponse, ScenarioCompleteResponse, ScenarioScriptResponse,
}
use overload_party_scenario.ApiClient.Generated.{
  ClientOption, with_http_client, with_request_editor_fn,
}
use overload_party_scenario.ApiClient.Responses.{Parsed, Plain, status_code}
use overload_party_scenario.ApiClient.WithResponses.{
  ClientWithResponses, new_client_with_responses, list_episodes_with_response,
  complete_episode_with_response, get_episode_script_with_response,
  complete_onboarding_with_response, get_onboarding_script_with_response, get_health_with_response,
  select_onboarding_faction_with_response, update_onboarding_name_with_response,
}

pub record Client (S D : Type 0) : Type 0 where
  pub api : ClientWithResponses S D

-- `config`; a nil doer is `none`.
pub record Config (S D : Type 0) : Type 0 where
  pub http_client : Option (Doer S D)
  pub editors : List (RequestEditor S)

-- An Option changes the configuration.
abbrev pub Setting : Type 0 → Type 0 → Type 0
Setting S D = Config S D → Config S D

abbrev pub text_of : String → String
text_of op = String.◌++◌ "apiscenarioclient: " op

-- `decimal` is the verb %d.
abbrev unexpected : (ℕ → String) → String → ℕ → Error
unexpected decimal op code =
    opaque (String.◌++◌ (text_of op) (String.◌++◌ ": unexpected status " (decimal code)))

abbrev pub refused : String → ClientError → Error
refused op e = wrap (text_of op) (sentinel (client e))

unfoldable pub resolve_status_error : (ℕ → String) → String → ℕ → Error
resolve_status_error decimal op code =
    if eqb code status_unauthorized
    then refused op ClientError.unauthorized
    else if eqb code status_forbidden
    then refused op ClientError.forbidden
    else if eqb code status_not_found
    then refused op ClientError.not_found
    else if eqb code status_bad_request
    then refused op ClientError.bad_request
    else if eqb code status_conflict
    then refused op ClientError.conflict
    else if leb status_internal_server_error code
    then refused op ClientError.internal_server
    else unexpected decimal op code

module _ {U : Type 0} (lib : Libraries U) where
  -- `if resp.JSON200 != nil`, and what follows it.
  unfoldable pub document : {A D : Type 0} → String → Parsed D A → Result A
  document op resp = elim resp.json200 [
    | none ↦ err (resolve_status_error lib.decimal op (status_code resp.http_response))
    | some value ↦ ok value
  ]

  -- `if resp.StatusCode() == http.StatusNoContent`, and what follows it.
  unfoldable pub no_content : {D : Type 0} → String → Plain D → Result (Unit {0})
  no_content op resp =
      let code = status_code resp.http_response in
      if eqb code status_no_content then ok tt else err (resolve_status_error lib.decimal op code)

module _ {S D : Type 0} where
  abbrev pub with_http_client_setting : Doer S D → Setting S D
  with_http_client_setting doer c = record c { http_client = some doer }

  abbrev pub with_request_editor_setting : RequestEditor S → Setting S D
  with_request_editor_setting fn c = record c { editors = c.editors ++ (fn ∷ []) }

  abbrev pub apply_settings : List (Setting S D) → Setting S D
  apply_settings [] c = c
  apply_settings (opt ∷ opts) c = apply_settings opts (opt c)

  -- The options that New hands to NewClientWithResponses.
  abbrev pub api_options : Config S D → List (ClientOption S D)
  api_options cfg =
      elim cfg.http_client [ none ↦ [] | some doer ↦ with_http_client doer ∷ [] ]
      ++ map with_request_editor_fn cfg.editors

  unfoldable pub new : Doer S D → String → List (Setting S D) → Result (Client S D)
  new http_client base_url opts =
      let cfg = apply_settings opts (record { http_client = none; editors = [] }) in
      elim (rewrite_error (wrap "apiscenarioclient: new")
        (new_client_with_responses http_client base_url (api_options cfg))) [
          | Result.ok api ↦ ok (record { api = api })
          | Result.err e ↦ err e
          | Result.panic p ↦ Result.panic p
        ]

  module _ {U : Type 0} (lib : Libraries U) where
    module _ (c : Client S D) where
      module _ (unmarshal : Unmarshal D) where
        unfoldable pub get_health : Action S HealthResponse
        get_health = do
          resp ←
              on_error (wrap "apiscenarioclient: GetHealth")
                (get_health_with_response lib c.api [] unmarshal)
          lift (document lib "GetHealth" resp)

        unfoldable pub list_episodes : String → Action S EpisodesListResponse
        list_episodes lang = do
          resp ← on_error (wrap "apiscenarioclient: ListEpisodes") (
              list_episodes_with_response lib c.api [] unmarshal
                (some (record { lang = some lang })))
          lift (document lib "ListEpisodes" resp)

        unfoldable pub get_episode_script : String → String → Action S ScenarioScriptResponse
        get_episode_script episode_id lang = do
          resp ← on_error (wrap "apiscenarioclient: GetEpisodeScript") (
              get_episode_script_with_response lib c.api [] unmarshal episode_id
                (some (record { lang = some lang })))
          lift (document lib "GetEpisodeScript" resp)

        unfoldable pub complete_episode : String → Action S ScenarioCompleteResponse
        complete_episode episode_id = do
          resp ←
              on_error (wrap "apiscenarioclient: CompleteEpisode")
                (complete_episode_with_response lib c.api [] unmarshal episode_id)
          lift (document lib "CompleteEpisode" resp)

        unfoldable pub get_onboarding_script : String → Action S OnboardingScriptResponse
        get_onboarding_script lang = do
          resp ← on_error (wrap "apiscenarioclient: GetOnboardingScript") (
              get_onboarding_script_with_response lib c.api [] unmarshal
                (some (record { lang = some lang })))
          lift (document lib "GetOnboardingScript" resp)

        unfoldable pub complete_onboarding : Action S OnboardingCompleteResponse
        complete_onboarding = do
          resp ←
              on_error (wrap "apiscenarioclient: CompleteOnboarding")
                (complete_onboarding_with_response lib c.api [] unmarshal)
          lift (document lib "CompleteOnboarding" resp)

      unfoldable pub update_onboarding_name : OnboardingNameRequest → Action S (Unit {0})
      update_onboarding_name req = do
        resp ←
            on_error (wrap "apiscenarioclient: UpdateOnboardingName")
              (update_onboarding_name_with_response lib c.api [] req)
        lift (no_content lib "UpdateOnboardingName" resp)

      unfoldable pub select_onboarding_faction : OnboardingFactionRequest → Action S (Unit {0})
      select_onboarding_faction req = do
        resp ←
            on_error (wrap "apiscenarioclient: SelectOnboardingFaction")
              (select_onboarding_faction_with_response lib c.api [] req)
        lift (no_content lib "SelectOnboardingFaction" resp)
