-- ===== src/Tests/System.antt =====
-- A run of the service at concrete inputs.
use overload_party_scenario.Common.{String, ◌≡◌, refl, true, false, arith, [], ◌∷◌}
use overload_party_scenario.Errors.{Error}
use overload_party_scenario.Postgres.StoryRepository.{story_repository}
use overload_party_scenario.Postgres.OnboardingRepository.{onboarding_repository}
use overload_party_scenario.Story.{complete_episode}
use overload_party_scenario.Onboarding.{complete}
use overload_party_scenario.Outbox.{run_once}
use overload_party_scenario.Outbox.Run.{relay}
use overload_party_scenario.World.{World, on_db}
use overload_party_scenario.System.{
  Surroundings, Reach, episode_completion, onboarding_completion, relay_run, here, later,
}
use overload_party_scenario.System.Invariant.{IsSound, Reach-IsSound}
use overload_party_scenario.Tests.{
  healthy, sample_db, script_store, account, name_validator, player_reader, fresh, publisher,
  all_delivered,
}

abbrev pub surroundings : Surroundings
surroundings = record {
  script_store = script_store;
  name_validator = name_validator;
  player_reader = player_reader;
  selectable_factions = "red" ∷ [];
  fresh = fresh;
}

abbrev pub start : World
start = record { db = record sample_db { outbox_events = [] }; delivered = [] }

abbrev after_episode : World
after_episode =
    (on_db (complete_episode (story_repository healthy) script_store account "p1" "ep1") start).1

abbrev after_onboarding : World
after_onboarding =
    (on_db
      (complete (onboarding_repository healthy) script_store name_validator player_reader
        ("red" ∷ []) fresh "p1")
      after_episode).1

abbrev render : Error → String
render e = "error"

abbrev after_relay : World
after_relay =
    (run_once render (relay healthy all_delivered publisher 10 5 1000000000) after_onboarding).1

-- An episode, the onboarding, and a run of the relay.
three_steps : Reach publisher start after_relay
three_steps =
    later
      (later (later here (episode_completion healthy script_store account "p1" "ep1" start))
        (onboarding_completion healthy surroundings "p1" after_episode))
      (relay_run render healthy all_delivered 10 5 1000000000 after_onboarding)

pub start-IsSound : IsSound publisher start
start-IsSound = record {
  ordered = λ q k e h found. absurd (nothing_done h);
  paired = λ q. (refl, omega arith);
  keyed = tt;
  delivered = tt;
}
  where
    nothing_done : false ≡ true → ⊥
    nothing_done h = cc

Reach-IsSound_example : IsSound publisher after_relay
Reach-IsSound_example = Reach-IsSound publisher three_steps start-IsSound
