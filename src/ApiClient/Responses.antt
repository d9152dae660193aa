-- ===== src/ApiClient/Responses.antt =====
-- packages/api-scenario/openapi_gen.go: the parsed responses.
use text.Mathlib.Text.{find?}
use overload_party_scenario.Common.{ℕ, String, Bool, true, false, Option, none, some, ◌&&◌, eqb}
use overload_party_scenario.Errors.{Result, ok, ◌>>=◌}
use overload_party_scenario.ApiClient.{
  Response, Unmarshal, EpisodesListResponse, HealthResponse, OnboardingCompleteResponse,
  OnboardingScriptResponse, ScenarioCompleteResponse, ScenarioScriptResponse,
}

-- The response types with a document for the status 200: of type `A`, over bodies `D`.
pub record Parsed (D A : Type 0) : Type 0 where
  pub body : D
  pub http_response : Option (Response D)
  pub json200 : Option A

-- The response types without one: SelectOnboardingFactionResponse and UpdateOnboardingNameResponse.
pub record Plain (D : Type 0) : Type 0 where
  pub body : D
  pub http_response : Option (Response D)

-- StatusCode
abbrev pub status_code : {D : Type 0} → Option (Response D) → ℕ
status_code none = 0
status_code (some rsp) = rsp.status_code

-- strings.Contains(rsp.Header.Get("Content-Type"), "json")
abbrev pub mentions_json : String → Bool
mentions_json content_type = elim (find? content_type "json") [ none ↦ false | some _ ↦ true ]

-- The case of the switch with a document.
abbrev pub has_document : {D : Type 0} → Response D → Bool
has_document rsp = mentions_json rsp.content_type && eqb rsp.status_code 200

module _ {D : Type 0} where
  abbrev parse_document : {A : Type 0} → Bool → (D → Result A) → D → Result (Option A)
  parse_document false decode bytes = ok none
  parse_document true decode bytes = do dest ← decode bytes; ok (some dest)

  unfoldable pub parse : {A : Type 0} → (D → Result A) → Response D → Result (Parsed D A)
  parse decode rsp = do
    body_bytes ← rsp.body
    json200 ← parse_document (has_document rsp) decode body_bytes
    ok (record { body = body_bytes; http_response = some rsp; json200 = json200 })

  unfoldable pub parse_plain : Response D → Result (Plain D)
  parse_plain rsp = do
    body_bytes ← rsp.body
    ok (record { body = body_bytes; http_response = some rsp })

  module _ (unmarshal : Unmarshal D) where
    abbrev pub parse_list_episodes_response : Response D → Result (Parsed D EpisodesListResponse)
    parse_list_episodes_response = parse unmarshal.episodes_list

    abbrev pub parse_complete_episode_response :
        Response D → Result (Parsed D ScenarioCompleteResponse)
    parse_complete_episode_response = parse unmarshal.scenario_complete

    abbrev pub parse_get_episode_script_response :
        Response D → Result (Parsed D ScenarioScriptResponse)
    parse_get_episode_script_response = parse unmarshal.scenario_script

    abbrev pub parse_complete_onboarding_response :
        Response D → Result (Parsed D OnboardingCompleteResponse)
    parse_complete_onboarding_response = parse unmarshal.onboarding_complete

    abbrev pub parse_get_onboarding_script_response :
        Response D → Result (Parsed D OnboardingScriptResponse)
    parse_get_onboarding_script_response = parse unmarshal.onboarding_script

    abbrev pub parse_get_health_response : Response D → Result (Parsed D HealthResponse)
    parse_get_health_response = parse unmarshal.health

  abbrev pub parse_select_onboarding_faction_response : Response D → Result (Plain D)
  parse_select_onboarding_faction_response = parse_plain

  abbrev pub parse_update_onboarding_name_response : Response D → Result (Plain D)
  parse_update_onboarding_name_response = parse_plain
