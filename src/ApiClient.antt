-- ===== src/ApiClient.antt =====
-- packages/api-scenario/openapi_gen.go: the generated client of the API. What package net/url, package
-- net/http, package encoding/json and the runtime of oapi-codegen do is a parameter.
pub mod Requests
pub mod Responses
pub mod Generated
pub mod WithResponses
pub mod Wrapper
use overload_party_scenario.Common.{ℕ, String, Option, List}
use overload_party_scenario.Errors.{Result}
use overload_party_scenario.Errors.Action.{Action}
use overload_party_scenario.ApiScenario.{EpisodeWithStatus, Payload}

pub record EpisodesListResponse : Type 0 where
  pub episodes : List EpisodeWithStatus

pub record HealthResponse : Type 0 where
  pub status : String

pub record OnboardingCompleteResponse : Type 0 where
  pub message : String
  pub player_id : String

pub record OnboardingFactionRequest : Type 0 where
  pub initial_faction_id : String

pub record OnboardingNameRequest : Type 0 where
  pub name : String

pub record OnboardingScriptResponse : Type 0 where
  pub script : String

pub record ScenarioCompleteResponse : Type 0 where
  pub episode_id : String
  pub message : String

pub record ScenarioScriptResponse : Type 0 where
  pub episode_id : String
  pub script : String

pub record ListEpisodesParams : Type 0 where
  pub lang : Option String

pub record GetEpisodeScriptParams : Type 0 where
  pub lang : Option String

pub record GetOnboardingScriptParams : Type 0 where
  pub lang : Option String

-- What the code sets and reads of an *http.Request. The body is what its reader holds.
pub record Request : Type 0 where
  pub method : String
  pub url : String
  pub header : List (String × String)
  pub body : Option Payload

-- What the code reads of an *http.Response, over the documents `D` that a body can be: its status code,
-- its header Content-Type, and what io.ReadAll makes of its body.
pub record Response (D : Type 0) : Type 0 where
  pub status_code : ℕ
  pub content_type : String
  pub body : Result D

-- Calls of other packages, over the parsed URLs `U`. `resolve` is URL.Parse, `encoded_query` is
-- `Query().Encode()`, `url_text` is URL.String, `style_path_param` and `style_query_param` are
-- StyleParamWithOptions at the two locations, given the parameter's name and value, `new_request` is
-- the error of http.NewRequest for a method and a URL, `decimal` is the verb %d.
pub record Libraries (U : Type 0) : Type 0 where
  pub parse_url : String → Result U
  pub resolve : U → String → Result U
  pub encoded_query : U → String
  pub with_raw_query : U → String → U
  pub url_text : U → String
  pub style_path_param : String → String → Result String
  pub style_query_param : String → String → Result String
  pub new_request : String → String → Result (Unit {0})
  pub decimal : ℕ → String

-- json.Unmarshal into each response type.
pub record Unmarshal (D : Type 0) : Type 0 where
  pub episodes_list : D → Result EpisodesListResponse
  pub scenario_script : D → Result ScenarioScriptResponse
  pub scenario_complete : D → Result ScenarioCompleteResponse
  pub onboarding_script : D → Result OnboardingScriptResponse
  pub onboarding_complete : D → Result OnboardingCompleteResponse
  pub health : D → Result HealthResponse

-- An HttpRequestDoer and a RequestEditorFn. An editor hands on the request as it leaves it.
abbrev pub Doer : Type 0 → Type 0 → Type 0
Doer S D = Request → Action S (Response D)

abbrev pub RequestEditor : Type 0 → Type 0
RequestEditor S = Request → Action S Request
