-- ===== src/Tests/Edges.antt =====
-- The handlers, the worker and the publisher at concrete inputs.
use overload_party_scenario.Common.{String, ◌==◌, ◌≡◌, refl, false, none, some, List, [], ◌∷◌}
use overload_party_scenario.Errors.{
  library, account_not_found, Error, Result, ok, err, panic, opaque, sentinel,
}
use overload_party_scenario.Errors.Action.{Action}
use overload_party_scenario.ApiScenario.{
  event_type_onboarding_name_set, event_type_onboarding_faction_set, event_type_player_onboarded,
}
use overload_party_scenario.Domain.Unlock.{IsMet}
use overload_party_scenario.Postgres.StoryRepository.{story_repository}
use overload_party_scenario.Postgres.StoryRepository.Laws.{repository_laws}
use overload_party_scenario.Story.{unlock_context, read_script}
use overload_party_scenario.Rest.AccountErrors.{no_player, update_name_refused}
use overload_party_scenario.Adapter.AccountClient
use overload_party_scenario.Adapter.AccountClient.{AccountApi}
use overload_party_scenario.Postgres.OnboardingRepository.{onboarding_repository}
use overload_party_scenario.Rest.{
  status_not_found, scenario_script, error_message, info, log, status_ok, status_forbidden,
}
use overload_party_scenario.Rest.StoryHandler.{get_script}
use overload_party_scenario.Rest.OnboardingHandler.{update_name}
use overload_party_scenario.Rest.Statuses.{get_script_status}
use overload_party_scenario.Worker.{tick, done, stopped, run}
use overload_party_scenario.Worker.Ticks.{after_runs, run-ticks}
use overload_party_scenario.Adapter.Publisher.{Publisher, topic_of, new, publish}
use overload_party_scenario.Adapter.Publisher.Delivery.{Delivered, publish_delivers}
use overload_party_scenario.Adapter.Publisher.Routes.{new_routes}
use overload_party_scenario.Tests.{
  player_reader, fresh, healthy, sample_db, script_store, account, publisher, all_delivered,
  sample_world,
}
use overload_party_scenario.Tests.Story.{second, progress, second-Reads}

abbrev render : Error → String
render e = "error"

get_script_status_example :
    (IsMet second (unlock_context progress [])
      → read_script (story_repository healthy) script_store account second.script_path "ja"
        ≡ ok "scripts/ja/prologue.ks"
      → get_script render (story_repository healthy) script_store account "p1" "ep2" none sample_db
        ≡ (
          ok (record {
            status = status_ok;
            body = scenario_script "ep2" "scripts/ja/prologue.ks";
            log = none;
          }),
          sample_db,
        ))
    × (¬ IsMet second (unlock_context progress [])
        → get_script render
            (story_repository healthy)
            script_store
            account
            "p1"
            "ep2"
            none
            sample_db
          ≡ (
            ok (record {
              status = status_forbidden;
              body = error_message "error";
              log = log info "get script rejected";
            }),
            sample_db,
          ))
get_script_status_example =
    get_script_status render (story_repository healthy) (repository_laws healthy) script_store
      account "p1" "ep2" sample_db second-Reads none

-- An account service that knows no player.
abbrev refusing_api : AccountApi
refusing_api = record {
  validate_name_for_onboarding = λ name. err (sentinel (library account_not_found));
  get_player = err (sentinel (library account_not_found));
  list_factions = ok [];
}

update_name_refused_example :
    update_name render
      (onboarding_repository healthy)
      script_store
      (AccountClient.name_validator render refusing_api)
      player_reader
      []
      fresh
      "p1"
      (ok "Aki")
      sample_db
    ≡ (
      ok (record {
        status = status_not_found;
        body = error_message "error";
        log = log info "update onboarding name rejected";
      }),
      sample_db,
    )
update_name_refused_example =
    update_name_refused render (onboarding_repository healthy) script_store refusing_api
      player_reader [] fresh "p1" "Aki" sample_db refl (no_player refl refl)

-- A run that fails, and one that does not.
abbrev failing : Action (List String) (Unit {0})
failing s = (err (opaque "claim unpublished"), s)

abbrev passing : Action (List String) (Unit {0})
passing s = (ok tt, "sent" ∷ s)

run-ticks_example :
    run (tick failing ∷ tick passing ∷ done ∷ tick passing ∷ []) []
    ≡ (stopped, after_runs (failing ∷ passing ∷ []) [])
run-ticks_example =
    run-ticks (failing ∷ passing ∷ []) (tick passing ∷ []) []
      ((λ s text. fails), ((λ s text. passes), tt))
  where
    fails : {e : Error} {text : String} → ◌≡◌ {A = Result (Unit {0})} (err e) (panic text) → ⊥
    fails h = cc

    passes : {text : String} → ◌≡◌ {A = Result (Unit {0})} (ok tt) (panic text) → ⊥
    passes h = cc

abbrev made : Publisher
made = record {
  by_event_type =
      (event_type_onboarding_name_set, "names")
      ∷ (event_type_onboarding_faction_set, "factions")
      ∷ (event_type_player_onboarded, "onboarded")
      ∷ [];
}

makes : new none "project" "names" "factions" "onboarded" ≡ ok made
unfolding new
makes = refl

new_routes_example :
    (topic_of made.by_event_type event_type_onboarding_name_set ≡ some "names")
    × (topic_of made.by_event_type event_type_onboarding_faction_set ≡ some "factions")
    × (topic_of made.by_event_type event_type_player_onboarded ≡ some "onboarded")
    × ((("names" == "") ≡ false) × (("factions" == "") ≡ false) × (("onboarded" == "") ≡ false))
new_routes_example = new_routes none "project" "names" "factions" "onboarded" makes

published : (publish all_delivered publisher "player_onboarded" [] sample_world).0 ≡ ok tt
unfolding publish
published = refl

publish_delivers_example :
    (t : String) × (topic_of publisher.by_event_type "player_onboarded" ≡ some t)
    × Delivered
        (record { topic = t; payload = [] })
        (publish all_delivered publisher "player_onboarded" [] sample_world).1.delivered
publish_delivers_example =
    publish_delivers all_delivered publisher "player_onboarded" [] sample_world published
