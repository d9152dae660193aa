-- ===== src/Router.antt =====
-- internal/router/router.go. What gin does with a request, and the middleware of the gateway's
-- package, are parameters.
use overload_party_scenario.Common.{
  ℕ, String, ◌==◌, Bool, true, false, Option, none, some, List, [], ◌∷◌, ◌⊎◌, inl, inr,
}
use overload_party_scenario.Errors.{Error, Result, ok, err, panic}
use overload_party_scenario.Errors.Action.{Action, pure}
use overload_party_scenario.Port.{
  StoryRepo, OnboardingRepo, ScriptStore, PlayerProgressReader, OnboardingNameValidator,
  OnboardingPlayerReader,
}
use overload_party_scenario.Onboarding.Events.{Fresh}
use overload_party_scenario.Rest.{Reply, health, status_ok}
use overload_party_scenario.Rest.StoryHandler
use overload_party_scenario.Rest.OnboardingHandler
pub mod Serving
pub mod Authentication

-- The functions that the routes are registered with.
pub data Endpoint : Type 0 where
  get_health list_episodes get_script complete_episode : Endpoint
  onboarding_script update_name select_faction complete_onboarding : Endpoint

-- `is_internal` says that the route is of the group that `VerifyInternalAuth` guards.
pub record Route : Type 0 where
  pub method : String
  pub pattern : String
  pub is_internal : Bool
  pub endpoint : Endpoint

abbrev pub api_route : String → String → Endpoint → Route
api_route method pattern endpoint = record {
  method = method;
  pattern = pattern;
  is_internal = true;
  endpoint = endpoint;
}

abbrev pub health_route : Route
health_route = record {
  method = "GET";
  pattern = "/health";
  is_internal = false;
  endpoint = get_health;
}

-- The registrations of New, with the group's path written out.
abbrev pub routes : List Route
routes =
    health_route
    ∷ api_route "GET" "/api/v1/scenarios/episodes" list_episodes
    ∷ api_route "GET" "/api/v1/scenarios/episodes/:episodeId/script" get_script
    ∷ api_route "POST" "/api/v1/scenarios/episodes/:episodeId/complete" complete_episode
    ∷ api_route "GET" "/api/v1/scenarios/onboarding/script" onboarding_script
    ∷ api_route "PUT" "/api/v1/scenarios/onboarding/name" update_name
    ∷ api_route "POST" "/api/v1/scenarios/onboarding/faction" select_faction
    ∷ api_route "POST" "/api/v1/scenarios/onboarding/complete" complete_onboarding
    ∷ []

-- The path parameters of a request.
abbrev pub Params : Type 0
Params = List (String × String)

-- c.Param(name)
abbrev pub param : String → Params → String
param name [] = ""
param name ((key, value) ∷ rest) =
    let later = param name rest in elim (key == name) [ true ↦ value | false ↦ later ]

-- What gin and the middleware make of a request of type `Q`: the registered route that it goes to,
-- with the path's parameters; a parameter of the query; the body, bound to each request type;
-- the reply with which VerifyInternalAuth aborts, or the sub claim; the replies to a request without a
-- route, and after a panic.
pub record Gin (Q : Type 0) : Type 0 where
  pub find_route : List Route → Q → Option (Route × Params)
  pub query : Q → String → Option String
  pub bind_name : Q → Result String
  pub bind_faction : Q → Result String
  pub verify_internal_auth : Q → Reply ⊎ String
  pub no_route : Reply
  pub recovered : Reply

-- What the handlers are built with. The service of the onboarding is built with the list of
-- selectable factions and with the time and the identifier that the request meets.
pub record Handlers (S : Type 0) : Type 0 where
  pub render : Error → String
  pub story_repo : StoryRepo S
  pub script_store : ScriptStore
  pub account : PlayerProgressReader
  pub onboarding_repo : OnboardingRepo S
  pub name_validator : OnboardingNameValidator
  pub player_reader : OnboardingPlayerReader
  pub selectable_factions : List String
  pub fresh : Fresh

-- gin.Recovery
abbrev pub recover : {S : Type 0} → Reply → Result Reply × S → Result Reply × S
recover recovered (ok reply, s) = (ok reply, s)
recover recovered (err e, s) = (err e, s)
recover recovered (panic p, s) = (ok recovered, s)

-- A handler of the group runs behind VerifyInternalAuth; `GET /health` has no player.
abbrev pub behind_auth :
    {S : Type 0} → Bool → Reply ⊎ String → (String → Action S Reply) → Action S Reply
behind_auth false verdict k = k ""
behind_auth true (inl reply) k = pure reply
behind_auth true (inr player) k = k player

module _ {S Q : Type 0} (gin : Gin Q) (h : Handlers S) where
  -- The handler of a route, for the player of the sub claim.
  unfoldable pub handler : Endpoint → Q → Params → String → Action S Reply
  handler get_health req params player =
      pure (record { status = status_ok; body = health "ok"; log = none })
  handler list_episodes req params player =
      StoryHandler.list_episodes h.render h.story_repo h.script_store h.account player
        (gin.query req "lang")
  handler get_script req params player =
      StoryHandler.get_script h.render h.story_repo h.script_store h.account player
        (param "episodeId" params) (gin.query req "lang")
  handler complete_episode req params player =
      StoryHandler.complete_episode h.render h.story_repo h.script_store h.account player
        (param "episodeId" params)
  handler onboarding_script req params player =
      OnboardingHandler.get_script h.render h.onboarding_repo h.script_store h.name_validator
        h.player_reader h.selectable_factions h.fresh player (gin.query req "lang")
  handler update_name req params player =
      OnboardingHandler.update_name h.render h.onboarding_repo h.script_store h.name_validator
        h.player_reader h.selectable_factions h.fresh player (gin.bind_name req)
  handler select_faction req params player =
      OnboardingHandler.select_faction h.render h.onboarding_repo h.script_store h.name_validator
        h.player_reader h.selectable_factions h.fresh player (gin.bind_faction req)
  handler complete_onboarding req params player =
      OnboardingHandler.complete h.render h.onboarding_repo h.script_store h.name_validator
        h.player_reader h.selectable_factions h.fresh player

  unfoldable pub guarded : Route → Q → Params → Action S Reply
  guarded route req params =
      behind_auth route.is_internal (gin.verify_internal_auth req)
        (handler route.endpoint req params)

  -- The engine that New returns.
  unfoldable pub serve : Q → Action S Reply
  serve req s = elim (gin.find_route routes req) [
    | none ↦ (ok gin.no_route, s)
    | some (route, params) ↦ recover gin.recovered (guarded route req params s)
  ]
