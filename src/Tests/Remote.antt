-- ===== src/Tests/Remote.antt =====
-- The client, the router and the fake server at concrete inputs.
use overload_party_scenario.Common.{
  ◌==◌, ◌≡◌, refl, true, false, Option, none, some, [], ◌∷◌, Memᴰ, inl, if◌then◌else◌,
}
use overload_party_scenario.Errors.{
  Error, ok, err, is, client, ClientError, sentinel, story, StoryError, wrap,
}
use overload_party_scenario.Onboarding
use overload_party_scenario.Story
use overload_party_scenario.Postgres.Tables.{Db}
use overload_party_scenario.Postgres.StoryRepository.{story_repository}
use overload_party_scenario.Postgres.OnboardingRepository.{onboarding_repository}
use overload_party_scenario.Rest.{Reply, Body, resolve_error_status, status_no_content}
use overload_party_scenario.Rest.OnboardingHandler.{resolve_onboarding_error_status}
use overload_party_scenario.Router.{Gin, Route, Params, routes, serve}
use overload_party_scenario.Router.Authentication.{UnauthenticatedReply, serve_unauthenticated}
use overload_party_scenario.Router.Serving.{serve_answers}
use overload_party_scenario.ApiClient.{Request}
use overload_party_scenario.ApiClient.Generated.{apply_editors}
use overload_party_scenario.ApiClient.Requests.{
  operation_url, with_lang, new_get_episode_script_request, new_complete_onboarding_request,
  new_complete_episode_request,
}
use overload_party_scenario.ApiClient.Wrapper.{
  Client, get_episode_script, complete_onboarding as client_complete_onboarding, complete_episode,
  resolve_status_error,
}
use overload_party_scenario.Remote.{remote}
use overload_party_scenario.Remote.Answers.{
  get_episode_script_answered, complete_onboarding_answered,
}
use overload_party_scenario.Remote.Sentinels.{resolve_status_error-story}
use overload_party_scenario.ServerFake as Fake
use overload_party_scenario.ServerFake.Defaults.{default_completion_unexpected}
use overload_party_scenario.World.{on_db}
use overload_party_scenario.System.Invariant.{IsSound}
use overload_party_scenario.System.Requests.{postgres_handlers, serve-IsSound}
use overload_party_scenario.Tests.System.{surroundings, start, start-IsSound}
use overload_party_scenario.Tests.{
  publisher, healthy, sample_db, script_store, account, name_validator, player_reader, fresh,
}
use overload_party_scenario.Tests.Network.{
  api_client, gin, handlers, lib, network_laws, path_of, routing_laws, reply_of, respond, unmarshal,
}

abbrev script_request : Request
script_request = record {
  method = "GET";
  url = "http://scenario/api/v1/scenarios/episodes/ep1/script?lang=en";
  header = [];
  body = none;
}

get_episode_script_answered_example :
    get_episode_script lib api_client unmarshal "ep1" "en" sample_db
    ≡ remote
        (resolve_status_error lib.decimal "GetEpisodeScript")
        resolve_error_status
        (λ text. record { episode_id = "ep1"; script = text })
        (Story.get_script (story_repository healthy) script_store account "p1" "ep1" "en" sample_db)
unfolding new_get_episode_script_request operation_url with_lang apply_editors
get_episode_script_answered_example =
    get_episode_script_answered lib respond network_laws gin refl handlers api_client refl path_of
      routing_laws "p1" sample_db "ep1" "en" refl refl
      (record {
        request = script_request;
        is_made = refl;
        is_edited = refl;
        keeps_method = refl;
        keeps_url = refl;
        is_player = refl;
      })

abbrev completion_request : Request
completion_request = record {
  method = "POST";
  url = "http://scenario/api/v1/scenarios/onboarding/complete";
  header = [];
  body = none;
}

complete_onboarding_answered_example :
    client_complete_onboarding lib api_client unmarshal sample_db
    ≡ remote
        (resolve_status_error lib.decimal "CompleteOnboarding")
        resolve_onboarding_error_status
        (λ _. record { message = "onboarding completed"; player_id = "p1" })
        (Onboarding.complete
          (onboarding_repository healthy)
          script_store
          name_validator
          player_reader
          ("red" ∷ [])
          fresh
          "p1"
          sample_db)
unfolding new_complete_onboarding_request operation_url apply_editors
complete_onboarding_answered_example =
    complete_onboarding_answered lib respond network_laws gin refl handlers api_client refl path_of
      routing_laws "p1" sample_db
      (record {
        request = completion_request;
        is_made = refl;
        is_edited = refl;
        keeps_method = refl;
        keeps_url = refl;
        is_player = refl;
      })

abbrev locked_error : Error
locked_error = wrap "validate" (sentinel (story StoryError.episode_locked))

resolve_status_error-story_example :
    (is
        (resolve_status_error lib.decimal "GetEpisodeScript" (resolve_error_status locked_error))
        (client ClientError.not_found)
      ≡ false)
    × (is
          (resolve_status_error lib.decimal "GetEpisodeScript" (resolve_error_status locked_error))
          (client ClientError.forbidden)
        ≡ true)
    × (is
          (resolve_status_error lib.decimal "GetEpisodeScript" (resolve_error_status locked_error))
          (client ClientError.internal_server)
        ≡ false)
resolve_status_error-story_example =
    resolve_status_error-story lib.decimal "GetEpisodeScript" locked_error

-- The same routes, where every request is refused.
abbrev refusing_gin : Gin Request
refusing_gin = record gin { verify_internal_auth = λ req. inl (reply_of 401) }

-- The route that it finds is the third.
script_route_registered :
    (route : Route) (params : Params)
    → gin.find_route routes script_request ≡ some (route, params)
    → Memᴰ route routes
script_route_registered route params e = Memᴰ.tail (Memᴰ.tail (Memᴰ.head cc))

serve_unauthenticated_example :
    (reply : Reply) × (serve refusing_gin handlers script_request sample_db ≡ (ok reply, sample_db))
    × UnauthenticatedReply refusing_gin script_request (reply_of 401) reply
serve_unauthenticated_example =
    serve_unauthenticated refusing_gin handlers script_request sample_db script_route_registered
      refl

serve_answers_example :
    (reply : Reply) × ((serve gin handlers script_request sample_db).0 ≡ ok reply)
serve_answers_example = serve_answers gin handlers script_request sample_db

abbrev mux : Request → Option Fake.Handled
mux req =
    if req.url == "http://scenario/api/v1/scenarios/episodes/ep1/complete"
    then some (Fake.complete_episode "ep1")
    else none

abbrev fake_client : Client Db Body
fake_client = record {
  api = record {
    client = record {
      server = "http://scenario/";
      client = some (Fake.faked respond Fake.new_server mux (reply_of 404));
      request_editors = [];
    };
  };
}

default_completion_unexpected_example :
    (complete_episode lib fake_client unmarshal "ep1" sample_db
      ≡ (err (resolve_status_error lib.decimal "CompleteEpisode" status_no_content), sample_db))
    × ((e : ClientError)
        → is (resolve_status_error lib.decimal "CompleteEpisode" status_no_content) (client e)
          ≡ false)
unfolding new_complete_episode_request operation_url apply_editors
default_completion_unexpected_example =
    default_completion_unexpected lib respond network_laws mux (reply_of 404) fake_client refl
      sample_db "ep1"
      (record {
        request = record {
          method = "POST";
          url = "http://scenario/api/v1/scenarios/episodes/ep1/complete";
          header = [];
          body = none;
        };
        sent = record {
          method = "POST";
          url = "http://scenario/api/v1/scenarios/episodes/ep1/complete";
          header = [];
          body = none;
        };
        is_made = refl;
        is_edited = refl;
        is_routed = refl;
      })

serve-IsSound_example :
    IsSound publisher
      (on_db
        (serve gin
          (postgres_handlers (λ e. "error") healthy surroundings account)
          completion_request)
        start).1
serve-IsSound_example =
    serve-IsSound publisher (λ e. "error") healthy surroundings account gin start completion_request
      start-IsSound
