-- ===== src/Remote.antt =====
-- A client of the API (packages/api-scenario/apiscenarioclient) whose requests are served by the
-- router: what the network and the encoding of the documents must do, and what a call returns then.
use overload_party_scenario.Common.{
  ℕ, String, ◌≡◌, Bool, true, false, Option, none, some, List, [], inr,
}
use overload_party_scenario.Errors.{Error, Result, ok, err, panic}
use overload_party_scenario.Errors.Action.{Action}
use overload_party_scenario.ApiScenario.{EpisodeWithStatus}
use overload_party_scenario.Rest.{
  Reply, Body, empty, error_message, episodes_list, scenario_script, scenario_complete,
  onboarding_script, onboarding_complete, status_internal_server_error,
}
use overload_party_scenario.Router.{Gin, Handlers, Route, Params, routes, serve}
use overload_party_scenario.ApiClient.{Request, Response, Unmarshal, Doer}
use overload_party_scenario.ApiClient.Responses.{mentions_json}
use overload_party_scenario.ApiClient.Generated.{Client, apply_editors}
use overload_party_scenario.ApiClient.Wrapper.{resolve_status_error}
pub mod Routing
pub mod Making
pub mod Exchange
pub mod Sentinels
pub mod Story
pub mod Onboarding
pub mod Answers

abbrev pub deliver :
    {S D : Type 0} → (Reply → Response D) → Result Reply × S → Result (Response D) × S
deliver respond (ok reply, s) = (ok (respond reply), s)
deliver respond (err e, s) = (err e, s)
deliver respond (panic p, s) = (panic p, s)

-- A doer that has every request served. `respond` is the response in which a reply arrives.
unfoldable pub served : {S D : Type 0} → (Reply → Response D) → Gin Request → Handlers S → Doer S D
served respond gin h req s = deliver respond (serve gin h req s)

module _ {D : Type 0} (respond : Reply → Response D) where
  -- A reply arrives as a JSON document that `decode` makes `value` of.
  abbrev pub Carries : {A : Type 0} → (D → Result A) → Reply → A → Type 0
  Carries decode reply value =
      (bytes : D) × ((respond reply).body ≡ ok bytes)
      × (mentions_json (respond reply).content_type ≡ true)
      × (decode bytes ≡ ok value)

  -- The status and a body arrive, and each document is decoded to what was encoded.
  pub record NetworkLaws (unmarshal : Unmarshal D) : Type 0 where
    pub status_arrives : (reply : Reply) → (respond reply).status_code ≡ reply.status
    pub body_arrives : (reply : Reply) → (bytes : D) × ((respond reply).body ≡ ok bytes)
    pub carries_episodes :
        (reply : Reply) {episodes : List EpisodeWithStatus}
        → reply.body ≡ episodes_list episodes
        → Carries unmarshal.episodes_list reply (record { episodes = episodes })
    pub carries_script :
        (reply : Reply) {id text : String}
        → reply.body ≡ scenario_script id text
        → Carries unmarshal.scenario_script reply (record { episode_id = id; script = text })
    pub carries_completion :
        (reply : Reply) {message id : String}
        → reply.body ≡ scenario_complete message id
        → Carries unmarshal.scenario_complete reply (record { episode_id = id; message = message })
    pub carries_onboarding_script :
        (reply : Reply) {text : String}
        → reply.body ≡ onboarding_script text
        → Carries unmarshal.onboarding_script reply (record { script = text })
    pub carries_onboarding_completion :
        (reply : Reply) {message player : String}
        → reply.body ≡ onboarding_complete message player
        → Carries unmarshal.onboarding_complete reply
            (record { message = message; player_id = player })

-- A request that the client makes leaves its editors as `sent`, which gin takes to a guarded route with
-- these path parameters, and which is authenticated as `player`.
pub record Arrives {S D : Type 0} (c : Client S D) (gin : Gin Request) (made : Result Request)
    (route : Route) (params : Params) (player : String) (s : S) (sent : Request) : Type 0 where
  pub request : Request
  pub is_made : made ≡ ok request
  pub is_edited : apply_editors c request [] s ≡ (ok sent, s)
  pub is_routed : gin.find_route routes sent ≡ some (route, params)
  pub is_internal : route.is_internal ≡ true
  pub is_player : gin.verify_internal_auth sent ≡ inr player

-- The result of a call on the service, as the client's caller has it: the value's document, or the
-- sentinel of the status. A panic is answered 500.
abbrev pub remote :
    {S A B : Type 0} → (ℕ → Error) → (Error → ℕ) → (A → B) → Result A × S → Result B × S
remote error_of status_of f (ok a, s) = (ok (f a), s)
remote error_of status_of f (err e, s) = (err (error_of (status_of e)), s)
remote error_of status_of f (panic p, s) = (err (error_of status_internal_server_error), s)
