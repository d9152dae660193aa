-- ===== src/System/Requests.antt =====
-- The requests that the router serves, as steps of the service.
use overload_party_scenario.Common.{
  String, ◌≡◌, refl, sym, subst, ◌⊎◌, inl, inr, Bool, true, false, Option-cases,
}
use overload_party_scenario.Errors.{Error, Result, ok, err, panic}
use overload_party_scenario.Errors.Action.{Action}
use overload_party_scenario.Port.{PlayerProgressReader}
use overload_party_scenario.Postgres.{Conn}
use overload_party_scenario.Postgres.Tables.{Db}
use overload_party_scenario.Postgres.StoryRepository.{story_repository}
use overload_party_scenario.Postgres.StoryRepository.Laws.{repository_laws}
use overload_party_scenario.Postgres.OnboardingRepository.{onboarding_repository}
use overload_party_scenario.Story.Reading.{list_episodes-state, get_script-state}
use overload_party_scenario.Rest.{Reply}
use overload_party_scenario.Rest.StoryHandler
use overload_party_scenario.Rest.OnboardingHandler
use overload_party_scenario.Router.{
  Gin, Handlers, Endpoint, get_health, list_episodes, get_script, complete_episode,
  onboarding_script, update_name, select_faction, complete_onboarding, Route, Params, routes,
  recover, behind_auth, handler, guarded, serve,
}
use overload_party_scenario.World.{World, on_db}
use overload_party_scenario.Adapter.Publisher.{Publisher}
use overload_party_scenario.System.{
  Surroundings, Step, episode_completion, name_step, faction_step, onboarding_completion,
}
use overload_party_scenario.System.Invariant.{IsSound, Step-IsSound}

-- The handlers as cmd/server builds them, over the Postgres repositories.
abbrev pub postgres_handlers :
    (Error → String) → Conn → Surroundings → PlayerProgressReader → Handlers Db
postgres_handlers render c e account = record {
  render = render;
  story_repo = story_repository c;
  script_store = e.script_store;
  account = account;
  onboarding_repo = onboarding_repository c;
  name_validator = e.name_validator;
  player_reader = e.player_reader;
  selectable_factions = e.selectable_factions;
  fresh = e.fresh;
}

recover-state :
    (recovered : Reply) (outcome : Result Reply × Db) → (recover recovered outcome).1 ≡ outcome.1
recover-state recovered (ok reply, db) = refl
recover-state recovered (err e, db) = refl
recover-state recovered (panic p, db) = refl

module _ (p : Publisher) (render : Error → String) (c : Conn) (e : Surroundings)
    (account : PlayerProgressReader) where
  -- The tables after a request are those before it, or those after a step of the service.
  abbrev IsStep : World → Db → Type 0
  IsStep w db = (db ≡ w.db) ⊎ Step p w (record w { db = db })

  module _ {Q : Type 0} (gin : Gin Q) (w : World) where
    bound-IsStep :
        (bound : Result String) (message : String) (k : String → Action Db Reply)
        → ((text : String) → IsStep w (k text w.db).1)
        → IsStep w (OnboardingHandler.with_body render message k bound w.db).1
    bound-IsStep (ok text) message k h = h text
    bound-IsStep (err x) message k h = inl refl
    bound-IsStep (panic x) message k h = inl refl

    handler-IsStep :
        (endpoint : Endpoint) (req : Q) (params : Params) (player : String)
        → IsStep w
            (handler gin (postgres_handlers render c e account) endpoint req params player w.db).1
    unfolding handler StoryHandler.list_episodes StoryHandler.get_script
        StoryHandler.complete_episode OnboardingHandler.get_script OnboardingHandler.update_name
        OnboardingHandler.select_faction OnboardingHandler.complete
    handler-IsStep get_health req params player = inl refl
    handler-IsStep list_episodes req params player = inl (
        list_episodes-state (story_repository c) (repository_laws c) e.script_store account player _
          w.db)
    handler-IsStep get_script req params player = inl (
        get_script-state (story_repository c) (repository_laws c) e.script_store account player _ _
          w.db)
    handler-IsStep complete_episode req params player =
        inr (episode_completion c e.script_store account player _ w)
    handler-IsStep onboarding_script req params player = inl refl
    handler-IsStep update_name req params player =
        bound-IsStep (gin.bind_name req) _ _ (λ name. inr (name_step c e player name w))
    handler-IsStep select_faction req params player =
        bound-IsStep (gin.bind_faction req) _ _ (λ faction. inr (faction_step c e player faction w))
    handler-IsStep complete_onboarding req params player = inr (onboarding_completion c e player w)

    guarded-IsStep :
        (route : Route) (req : Q) (params : Params)
        → IsStep w (guarded gin (postgres_handlers render c e account) route req params w.db).1
    unfolding guarded
    guarded-IsStep route req params =
        behind_auth-IsStep route.is_internal (gin.verify_internal_auth req) _
          (handler-IsStep route.endpoint req params)
      where
        behind_auth-IsStep :
            (internal : Bool) (verdict : Reply ⊎ String) (k : String → Action Db Reply)
            → ((player : String) → IsStep w (k player w.db).1)
            → IsStep w (behind_auth internal verdict k w.db).1
        behind_auth-IsStep false verdict k h = h ""
        behind_auth-IsStep true (inl reply) k h = inl refl
        behind_auth-IsStep true (inr player) k h = h player

    serve-IsStep :
        (req : Q) → IsStep w (serve gin (postgres_handlers render c e account) req w.db).1
    unfolding serve
    serve-IsStep req = elim (Option-cases (gin.find_route routes req)) [
      | inl unrouted ↦ rw (serve, unrouted) (inl refl)
      | inr ((route, params), found) ↦
          rw (serve, found, recover-state gin.recovered _) (guarded-IsStep route req params)
    ]

    -- Whatever request arrives, and however it is routed, refused, answered or recovered from a panic,
    -- the service over the Postgres repositories keeps a world where each completed episode has its
    -- required episodes completed, each player has as many onboarding rows as announcing events and at
    -- most one, no two events share an id, and each event marked as published has its payload on the
    -- topic of its type.
    pub serve-IsSound :
        (req : Q)
        → IsSound p w
        → IsSound p (on_db (serve gin (postgres_handlers render c e account) req) w).1
    serve-IsSound req sound = elim (serve-IsStep req) [
      | inl same ↦ subst (λ db. IsSound p (record w { db = db })) (sym same) sound
      | inr step ↦ Step-IsSound p step sound
    ]
