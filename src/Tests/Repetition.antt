-- ===== src/Tests/Repetition.antt =====
-- A second completion at a concrete input.
use overload_party_scenario.Common.{◌≡◌, refl, [], ◌∷◌}
use overload_party_scenario.Errors.{ok, err, OnboardingError}
use overload_party_scenario.ApiScenario.{
  json_marshal, player_onboarded_members, event_type_player_onboarded,
}
use overload_party_scenario.Presenter.{to_player_onboarded_wire}
use overload_party_scenario.Port.{OutboxEvent}
use overload_party_scenario.Postgres.Tables.{Db}
use overload_party_scenario.Postgres.OnboardingRepository.{onboarding_repository}
use overload_party_scenario.Onboarding.{onboarding_error, complete}
use overload_party_scenario.Onboarding.Events.{build_player_onboarded_event}
use overload_party_scenario.Onboarding.Repetition.{complete_again}
use overload_party_scenario.Tests.{
  healthy, sample_db, script_store, name_validator, player_reader, fresh,
}

abbrev onboarded_db : Db
onboarded_db = record sample_db {
  player_onboarding = record { player_id = "p1"; completed_at = 7 } ∷ [];
}

abbrev announcement : OutboxEvent
announcement = record {
  event_id = "e3";
  event_type = event_type_player_onboarded;
  payload = player_onboarded_members (record {
    event_type = event_type_player_onboarded;
    event_id = "e3";
    timestamp = 5;
    player_id = "p1";
    initial_faction_id = "red";
  });
}

builds : build_player_onboarded_event fresh "p1" "red" ≡ ok announcement
unfolding build_player_onboarded_event to_player_onboarded_wire json_marshal
builds = refl

complete_again_example :
    complete
      (onboarding_repository healthy)
      script_store
      name_validator
      player_reader
      ("red" ∷ [])
      fresh
      "p1"
      onboarded_db
    ≡ (err (onboarding_error OnboardingError.already_onboarded), onboarded_db)
complete_again_example =
    complete_again healthy script_store name_validator player_reader ("red" ∷ []) fresh "p1"
      onboarded_db refl refl builds refl refl refl
