-- ===== src/ApiClient/WithResponses.antt =====
-- packages/api-scenario/openapi_gen.go: the operations that return parsed responses.
use overload_party_scenario.Common.{String, Option, List}
use overload_party_scenario.Errors.{Result}
use overload_party_scenario.Errors.Action.{Action, lift, ◌>>=◌}
use overload_party_scenario.ApiScenario.{Payload}
use overload_party_scenario.ApiClient.{
  Libraries, Unmarshal, RequestEditor, Doer, EpisodesListResponse, HealthResponse,
  OnboardingCompleteResponse, OnboardingFactionRequest, OnboardingNameRequest,
  OnboardingScriptResponse, ScenarioCompleteResponse, ScenarioScriptResponse, ListEpisodesParams,
  GetEpisodeScriptParams, GetOnboardingScriptParams,
}
use overload_party_scenario.ApiClient.Generated
use overload_party_scenario.ApiClient.Generated.{Client, ClientOption, new_client}
use overload_party_scenario.ApiClient.Responses.{
  Parsed, Plain, parse_list_episodes_response, parse_complete_episode_response,
  parse_get_episode_script_response, parse_complete_onboarding_response,
  parse_get_onboarding_script_response, parse_get_health_response,
  parse_select_onboarding_faction_response, parse_update_onboarding_name_response,
}

-- ClientWithResponses embeds the client.
pub record ClientWithResponses (S D : Type 0) : Type 0 where
  pub client : Client S D

module _ {S D : Type 0} where
  abbrev pub new_client_with_responses :
      Doer S D → String → List (ClientOption S D) → Result (ClientWithResponses S D)
  new_client_with_responses http_client server opts = elim (new_client http_client server opts) [
    | Result.ok c ↦ Result.ok (record { client = c })
    | Result.err e ↦ Result.err e
    | Result.panic p ↦ Result.panic p
  ]

  module _ {U : Type 0} (lib : Libraries U) (c : ClientWithResponses S D)
      (editors : List (RequestEditor S)) where
    module _ (unmarshal : Unmarshal D) where
      abbrev pub list_episodes_with_response :
          Option ListEpisodesParams → Action S (Parsed D EpisodesListResponse)
      list_episodes_with_response params = do
        rsp ← Generated.list_episodes c.client lib editors params
        lift (parse_list_episodes_response unmarshal rsp)

      abbrev pub complete_episode_with_response :
          String → Action S (Parsed D ScenarioCompleteResponse)
      complete_episode_with_response id = do
        rsp ← Generated.complete_episode c.client lib editors id
        lift (parse_complete_episode_response unmarshal rsp)

      abbrev pub get_episode_script_with_response :
          String → Option GetEpisodeScriptParams → Action S (Parsed D ScenarioScriptResponse)
      get_episode_script_with_response id params = do
        rsp ← Generated.get_episode_script c.client lib editors id params
        lift (parse_get_episode_script_response unmarshal rsp)

      abbrev pub complete_onboarding_with_response : Action S (Parsed D OnboardingCompleteResponse)
      complete_onboarding_with_response = do
        rsp ← Generated.complete_onboarding c.client lib editors
        lift (parse_complete_onboarding_response unmarshal rsp)

      abbrev pub get_onboarding_script_with_response :
          Option GetOnboardingScriptParams → Action S (Parsed D OnboardingScriptResponse)
      get_onboarding_script_with_response params = do
        rsp ← Generated.get_onboarding_script c.client lib editors params
        lift (parse_get_onboarding_script_response unmarshal rsp)

      abbrev pub get_health_with_response : Action S (Parsed D HealthResponse)
      get_health_with_response = do
        rsp ← Generated.get_health c.client lib editors
        lift (parse_get_health_response unmarshal rsp)

    abbrev pub select_onboarding_faction_with_body_with_response :
        String → Payload → Action S (Plain D)
    select_onboarding_faction_with_body_with_response content_type body = do
      rsp ← Generated.select_onboarding_faction_with_body c.client lib editors content_type body
      lift (parse_select_onboarding_faction_response rsp)

    abbrev pub select_onboarding_faction_with_response :
        OnboardingFactionRequest → Action S (Plain D)
    select_onboarding_faction_with_response body = do
      rsp ← Generated.select_onboarding_faction c.client lib editors body
      lift (parse_select_onboarding_faction_response rsp)

    abbrev pub update_onboarding_name_with_body_with_response :
        String → Payload → Action S (Plain D)
    update_onboarding_name_with_body_with_response content_type body = do
      rsp ← Generated.update_onboarding_name_with_body c.client lib editors content_type body
      lift (parse_update_onboarding_name_response rsp)

    abbrev pub update_onboarding_name_with_response : OnboardingNameRequest → Action S (Plain D)
    update_onboarding_name_with_response body = do
      rsp ← Generated.update_onboarding_name c.client lib editors body
      lift (parse_update_onboarding_name_response rsp)
