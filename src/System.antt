-- ===== src/System.antt =====
-- The service as cmd/server puts it together: the requests that change the tables, and the runs of
-- the relay, as steps on the tables and the messages.
pub mod Invariant
pub mod Requests
use overload_party_scenario.Common.{ℕ, String, List}
use overload_party_scenario.Errors.{Error}
use overload_party_scenario.Port.{
  ScriptStore, PlayerProgressReader, OnboardingNameValidator, OnboardingPlayerReader,
}
use overload_party_scenario.Postgres.{Conn}
use overload_party_scenario.Postgres.Tables.{Db}
use overload_party_scenario.Postgres.StoryRepository.{story_repository}
use overload_party_scenario.Postgres.OnboardingRepository.{onboarding_repository}
use overload_party_scenario.Story.{complete_episode}
use overload_party_scenario.Onboarding.{update_name, select_faction, complete}
use overload_party_scenario.Onboarding.Events.{Fresh}
use overload_party_scenario.World.{World, Message, on_db}
use overload_party_scenario.Adapter.Publisher.{Publisher, Fate}
use overload_party_scenario.Outbox.{run_once}
use overload_party_scenario.Outbox.Run.{relay}

-- What an onboarding request meets outside the program.
pub record Surroundings : Type 0 where
  pub script_store : ScriptStore
  pub name_validator : OnboardingNameValidator
  pub player_reader : OnboardingPlayerReader
  pub selectable_factions : List String
  pub fresh : Fresh

module _ (p : Publisher) where
  -- One call, with any outcome.
  pub data Step : World → World → Type 0 where
    episode_completion :
        (c : Conn) (store : ScriptStore) (account : PlayerProgressReader) (player id : String)
        (w : World)
        → Step w (on_db (complete_episode (story_repository c) store account player id) w).1
    name_step :
        (c : Conn) (e : Surroundings) (player name : String) (w : World)
        → Step w
            (on_db
              (update_name
                (onboarding_repository c)
                e.script_store
                e.name_validator
                e.player_reader
                e.selectable_factions
                e.fresh
                player
                name)
              w).1
    faction_step :
        (c : Conn) (e : Surroundings) (player faction : String) (w : World)
        → Step w
            (on_db
              (select_faction
                (onboarding_repository c)
                e.script_store
                e.name_validator
                e.player_reader
                e.selectable_factions
                e.fresh
                player
                faction)
              w).1
    onboarding_completion :
        (c : Conn) (e : Surroundings) (player : String) (w : World)
        → Step w
            (on_db
              (complete
                (onboarding_repository c)
                e.script_store
                e.name_validator
                e.player_reader
                e.selectable_factions
                e.fresh
                player)
              w).1
    relay_run :
        (render : Error → String) (c : Conn) (send : Message → Fate)
        (batch_size failure_threshold visibility_timeout : ℕ) (w : World)
        → Step w
            (run_once render (relay c send p batch_size failure_threshold visibility_timeout) w).1

  -- The worlds that steps lead to.
  pub data Reach (w : World) : World → Type 0 where
    here : Reach w w
    later : {v u : World} → Reach w v → Step v u → Reach w u
