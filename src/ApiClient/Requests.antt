-- ===== src/ApiClient/Requests.antt =====
-- packages/api-scenario/openapi_gen.go: the requests of the operations.
use Prim.Native.Char.{Char, code}
use Prim.Native.String
use package.text.Mathlib.Text.{starts_with}
use overload_party_scenario.Common.{
  ℕ, String, ◌==◌, ◌≡◌, refl, Option, none, some, List, [], ◌∷◌, ◌++◌, eqb, if◌then◌else◌,
}
use overload_party_scenario.Errors.{Result, ok, err, panic, ◌>>=◌, ◌>>◌}
use overload_party_scenario.ApiScenario.{Payload, text, json_marshal}
use overload_party_scenario.ApiClient.{
  Libraries, Request, ListEpisodesParams, GetEpisodeScriptParams, GetOnboardingScriptParams,
  OnboardingNameRequest, OnboardingFactionRequest,
}
pub mod Query
pub mod Paths

-- `if operationPath[0] == '/' { operationPath = "." + operationPath }`
abbrev pub relative : String → String
relative path = if starts_with path "/" then String.◌++◌ "." path else path

-- strings.Split at a separator of one character.
abbrev prepend : Char → List String → List String
prepend c [] = String.◌∷◌ c "" ∷ []
prepend c (part ∷ parts) = String.◌∷◌ c part ∷ parts

abbrev pub split_at : ℕ → String → List String
split_at separator String.[] = "" ∷ []
split_at separator (String.◌∷◌ c s) =
    let rest = split_at separator s in if eqb (code c) separator then "" ∷ rest else prepend c rest

-- strings.Join
abbrev pub join : String → List String → String
join separator [] = ""
join separator (part ∷ []) = part
join separator (part ∷ (next ∷ parts)) =
    String.◌++◌ part (String.◌++◌ separator (join separator (next ∷ parts)))

-- The code of the character '&'.
abbrev pub ampersand : ℕ
ampersand = 38

module _ {U : Type 0} (lib : Libraries U) where
  -- The server's URL, resolved against the operation's path.
  unfoldable pub operation_url : String → String → Result U
  operation_url server path = do
    server_url ← lib.parse_url server
    lib.resolve server_url (relative path)

  unfoldable pub query_fragments : Option String → Result (List String)
  query_fragments none = ok []
  query_fragments (some lang) = do
    query_frag ← lib.style_query_param "lang" lang
    ok (split_at ampersand query_frag)

  -- The block under `if params != nil`, for the three operations that have a language.
  unfoldable pub with_lang : Option (Option String) → U → Result U
  unfolding query_fragments
  with_lang none query_url = ok query_url
  with_lang (some lang) query_url = do
    fragments ← query_fragments lang
    let encoded = lib.encoded_query query_url
    ok (
        lib.with_raw_query query_url
          (join "&" (if encoded == "" then fragments else fragments ++ (encoded ∷ []))))

  -- http.NewRequest
  abbrev pub new_request : String → U → Option Payload → Result Request
  new_request method url body = do
    lib.new_request method (lib.url_text url)
    ok (record { method = method; url = lib.url_text url; header = []; body = body })

  -- req.Header.Add("Content-Type", contentType)
  abbrev pub add_content_type : String → Request → Request
  add_content_type content_type req = record req {
    header = req.header ++ (("Content-Type", content_type) ∷ []);
  }

  unfoldable pub new_list_episodes_request : String → Option ListEpisodesParams → Result Request
  new_list_episodes_request server params = do
    query_url ← operation_url server "/api/v1/scenarios/episodes"
    url ← with_lang (elim params [ none ↦ none | some p ↦ some p.lang ]) query_url
    new_request "GET" url none

  unfoldable pub new_complete_episode_request : String → String → Result Request
  new_complete_episode_request server episode_id = do
    path_param ← lib.style_path_param "episodeId" episode_id
    url ←
        operation_url server
          (String.◌++◌ "/api/v1/scenarios/episodes/" (String.◌++◌ path_param "/complete"))
    new_request "POST" url none

  unfoldable pub new_get_episode_script_request :
      String → String → Option GetEpisodeScriptParams → Result Request
  new_get_episode_script_request server episode_id params = do
    path_param ← lib.style_path_param "episodeId" episode_id
    query_url ←
        operation_url server
          (String.◌++◌ "/api/v1/scenarios/episodes/" (String.◌++◌ path_param "/script"))
    url ← with_lang (elim params [ none ↦ none | some p ↦ some p.lang ]) query_url
    new_request "GET" url none

  unfoldable pub new_complete_onboarding_request : String → Result Request
  new_complete_onboarding_request server = do
    url ← operation_url server "/api/v1/scenarios/onboarding/complete"
    new_request "POST" url none

  unfoldable pub new_select_onboarding_faction_request_with_body :
      String → String → Payload → Result Request
  new_select_onboarding_faction_request_with_body server content_type body = do
    url ← operation_url server "/api/v1/scenarios/onboarding/faction"
    req ← new_request "POST" url (some body)
    ok (add_content_type content_type req)

  unfoldable pub new_select_onboarding_faction_request :
      String → OnboardingFactionRequest → Result Request
  new_select_onboarding_faction_request server body = do
    buf ← json_marshal (("initial_faction_id", text body.initial_faction_id) ∷ [])
    new_select_onboarding_faction_request_with_body server "application/json" buf

  unfoldable pub new_update_onboarding_name_request_with_body :
      String → String → Payload → Result Request
  new_update_onboarding_name_request_with_body server content_type body = do
    url ← operation_url server "/api/v1/scenarios/onboarding/name"
    req ← new_request "PUT" url (some body)
    ok (add_content_type content_type req)

  unfoldable pub new_update_onboarding_name_request :
      String → OnboardingNameRequest → Result Request
  new_update_onboarding_name_request server body = do
    buf ← json_marshal (("name", text body.name) ∷ [])
    new_update_onboarding_name_request_with_body server "application/json" buf

  unfoldable pub new_get_onboarding_script_request :
      String → Option GetOnboardingScriptParams → Result Request
  new_get_onboarding_script_request server params = do
    query_url ← operation_url server "/api/v1/scenarios/onboarding/script"
    url ← with_lang (elim params [ none ↦ none | some p ↦ some p.lang ]) query_url
    new_request "GET" url none

  unfoldable pub new_get_health_request : String → Result Request
  new_get_health_request server = do
    url ← operation_url server "/health"
    new_request "GET" url none
