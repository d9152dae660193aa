-- ===== src/ApiClient/Generated.antt =====
-- packages/api-scenario/openapi_gen.go: the client, its options and its operations.
use package.text.Mathlib.Text.{is_eq}
use Prim.Native.String.{len, slice, compare}
use Prim.Native.String
use overload_party_scenario.Common.{
  ◌-◌, String, Bool, Option, none, some, List, [], ◌∷◌, ◌++◌, if◌then◌else◌,
}
use overload_party_scenario.Errors.{Result, ok, err, panic, opaque}
use overload_party_scenario.Errors.Action.{Action, pure, lift, ◌>>=◌, ◌>>◌}
use overload_party_scenario.ApiScenario.{Payload}
use overload_party_scenario.ApiClient.{
  Request, Response, Libraries, Unmarshal, Doer, RequestEditor, EpisodesListResponse,
  HealthResponse, OnboardingCompleteResponse, OnboardingFactionRequest, OnboardingNameRequest,
  OnboardingScriptResponse, ScenarioCompleteResponse, ScenarioScriptResponse, ListEpisodesParams,
  GetEpisodeScriptParams, GetOnboardingScriptParams,
}
use overload_party_scenario.ApiClient.Requests
use overload_party_scenario.ApiClient.Responses
use overload_party_scenario.ApiClient.Responses.{Parsed, Plain}
pub mod Construction

-- A nil HttpRequestDoer is `none`.
pub record Client (S D : Type 0) : Type 0 where
  pub server : String
  pub client : Option (Doer S D)
  pub request_editors : List (RequestEditor S)

-- A ClientOption.
abbrev pub ClientOption : Type 0 → Type 0 → Type 0
ClientOption S D = Client S D → Result (Client S D)

-- strings.HasSuffix
abbrev pub has_suffix : String → String → Bool
has_suffix s suffix = is_eq (compare (slice s (len s - len suffix) (len s)) suffix)

module _ {S : Type 0} where
  -- The loops of applyEditors.
  abbrev pub run_editors : List (RequestEditor S) → Request → Action S Request
  run_editors [] req = pure req
  run_editors (r ∷ editors) req = do req' ← r req; run_editors editors req'

module _ {S D : Type 0} where
  abbrev pub with_http_client : Doer S D → ClientOption S D
  with_http_client doer c = ok (record c { client = some doer })

  abbrev pub with_request_editor_fn : RequestEditor S → ClientOption S D
  with_request_editor_fn fn c = ok (record c { request_editors = c.request_editors ++ (fn ∷ []) })

  -- WithBaseURL
  abbrev pub with_base_url : {U : Type 0} → Libraries U → String → ClientOption S D
  with_base_url lib base_url c = elim (lib.parse_url base_url) [
    | ok new_base_url ↦ ok (record c { server = lib.url_text new_base_url })
    | err e ↦ err e
    | panic p ↦ panic p
  ]

  abbrev pub apply_options : List (ClientOption S D) → ClientOption S D
  apply_options [] c = ok c
  apply_options (o ∷ opts) c = elim (o c) [
    | ok c' ↦ apply_options opts c'
    | err e ↦ err e
    | panic p ↦ panic p
  ]

  -- The steps of NewClient behind its loop. `http_client` is `&http.Client{}`.
  abbrev pub with_trailing_slash : Client S D → Client S D
  with_trailing_slash c = record c {
    server = if has_suffix c.server "/" then c.server else String.◌++◌ c.server "/";
  }

  abbrev pub with_default_doer : Doer S D → Client S D → Client S D
  with_default_doer http_client c = record c {
    client = elim c.client [ none ↦ some http_client | some doer ↦ some doer ];
  }

  unfoldable pub new_client : Doer S D → String → List (ClientOption S D) → Result (Client S D)
  new_client http_client server opts =
      elim (apply_options opts (record { server = server; client = none; request_editors = [] })) [
        | ok c ↦ ok (with_default_doer http_client (with_trailing_slash c))
        | err e ↦ err e
        | panic p ↦ panic p
      ]

  -- c.Client.Do(req)
  abbrev pub do_request : Option (Doer S D) → Request → Action S (Response D)
  do_request none req =
      lift (panic "runtime error: invalid memory address or nil pointer dereference")
  do_request (some doer) req = doer req

  module _ (c : Client S D) where
    unfoldable pub apply_editors : Request → List (RequestEditor S) → Action S Request
    apply_editors req additional_editors = do
      req' ← run_editors c.request_editors req
      run_editors additional_editors req'

    -- What every operation does with its request.
    unfoldable pub send : Result Request → List (RequestEditor S) → Action S (Response D)
    send request editors = do
      req ← lift request
      edited ← apply_editors req editors
      do_request c.client edited

    module _ {U : Type 0} (lib : Libraries U) (editors : List (RequestEditor S)) where
      abbrev pub list_episodes : Option ListEpisodesParams → Action S (Response D)
      list_episodes params = send (Requests.new_list_episodes_request lib c.server params) editors

      abbrev pub complete_episode : String → Action S (Response D)
      complete_episode id = send (Requests.new_complete_episode_request lib c.server id) editors

      abbrev pub get_episode_script : String → Option GetEpisodeScriptParams → Action S (Response D)
      get_episode_script id params =
          send (Requests.new_get_episode_script_request lib c.server id params) editors

      abbrev pub complete_onboarding : Action S (Response D)
      complete_onboarding = send (Requests.new_complete_onboarding_request lib c.server) editors

      abbrev pub select_onboarding_faction_with_body : String → Payload → Action S (Response D)
      select_onboarding_faction_with_body content_type body =
          send
            (Requests.new_select_onboarding_faction_request_with_body lib c.server content_type
              body)
            editors

      abbrev pub select_onboarding_faction : OnboardingFactionRequest → Action S (Response D)
      select_onboarding_faction body =
          send (Requests.new_select_onboarding_faction_request lib c.server body) editors

      abbrev pub update_onboarding_name_with_body : String → Payload → Action S (Response D)
      update_onboarding_name_with_body content_type body =
          send
            (Requests.new_update_onboarding_name_request_with_body lib c.server content_type body)
            editors

      abbrev pub update_onboarding_name : OnboardingNameRequest → Action S (Response D)
      update_onboarding_name body =
          send (Requests.new_update_onboarding_name_request lib c.server body) editors

      abbrev pub get_onboarding_script : Option GetOnboardingScriptParams → Action S (Response D)
      get_onboarding_script params =
          send (Requests.new_get_onboarding_script_request lib c.server params) editors

      abbrev pub get_health : Action S (Response D)
      get_health = send (Requests.new_get_health_request lib c.server) editors
