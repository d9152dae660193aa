-- ===== src/Tests/Onboarding.antt =====
-- The onboarding at concrete inputs.
use overload_party_scenario.Common.{
  true, contains, ◌≢◌, ◌⊎◌, String, ◌==◌, ◌≡◌, refl, false, some, List, [], ◌∷◌, arith,
}
use overload_party_scenario.Errors.{Result, ok}
use overload_party_scenario.ApiScenario.{json_marshal}
use overload_party_scenario.Presenter.{
  to_player_onboarded_wire, to_onboarding_name_set_wire, to_onboarding_faction_set_wire,
}
use overload_party_scenario.Port.{OutboxEvent, AccountPlayer}
use overload_party_scenario.Postgres.Tables.{Db}
use overload_party_scenario.Postgres.OnboardingRepository.{
  onboarding_repository, mark_complete, mark_complete_body, insert_onboarding_row, write_events,
  write_outbox_event, insert_outbox_row, publish_events,
}
use overload_party_scenario.Postgres.OnboardingRepository.Atomic.{
  is_onboarded, with_onboarding, with_events, mark_complete_atomic, publish_events_atomic,
}
use overload_party_scenario.Onboarding.{complete, update_name, select_faction, validate_faction}
use overload_party_scenario.Onboarding.Events.{
  build_player_onboarded_event, build_onboarding_name_set_event, build_onboarding_faction_set_event,
}
use overload_party_scenario.Onboarding.Pairing.{IsPaired, complete-IsPaired}
use overload_party_scenario.Onboarding.Payloads.{announces}
use overload_party_scenario.Onboarding.Completion.{
  complete_sound, with_pending, update_name_sound, select_faction_sound,
}
use overload_party_scenario.Tests.{
  healthy, sample_db, script_store, name_validator, player_reader, fresh,
}

abbrev factions : List String
factions = "red" ∷ "blue" ∷ []

-- Before anyone is onboarded.
abbrev empty_db : Db
empty_db = record sample_db { outbox_events = [] }

abbrev completed : Result (Unit {0}) × Db
completed =
    complete (onboarding_repository healthy) script_store name_validator player_reader factions
      fresh "p1" empty_db

empty_db-IsPaired : IsPaired empty_db
empty_db-IsPaired q = (refl, omega arith)

completes : completed.0 ≡ ok tt
unfolding complete build_player_onboarded_event to_player_onboarded_wire json_marshal mark_complete
    mark_complete_body insert_onboarding_row write_events write_outbox_event insert_outbox_row
completes = refl

complete_sound_example :
    (player : AccountPlayer) × (faction : String) × (ev : OutboxEvent)
    × (player_reader.get_onboarding_player ≡ ok player)
    × (player.initial_faction ≡ some faction)
    × (build_player_onboarded_event fresh "p1" faction ≡ ok ev)
    × (is_onboarded "p1" empty_db ≡ false)
    × (completed.1 ≡ with_onboarding healthy "p1" ev empty_db)
complete_sound_example =
    complete_sound healthy script_store name_validator player_reader factions fresh "p1" empty_db
      completes

complete-IsPaired_example : IsPaired completed.1
complete-IsPaired_example =
    complete-IsPaired healthy script_store name_validator player_reader factions fresh "p1" empty_db
      empty_db-IsPaired

abbrev announcement : OutboxEvent
announcement = record { event_id = "e3"; event_type = "player_onboarded"; payload = [] }

mark_complete_atomic_example :
    ((mark_complete healthy "p1" (announcement ∷ []) sample_db).1 ≡ sample_db)
    ⊎ ((is_onboarded "p1" sample_db ≡ false)
        × ((mark_complete healthy "p1" (announcement ∷ []) sample_db).1
            ≡ with_onboarding healthy "p1" announcement sample_db))
mark_complete_atomic_example = mark_complete_atomic healthy "p1" announcement sample_db

-- The second of two events has the id of a row of the outbox.
abbrev clashing : List OutboxEvent
clashing = announcement ∷ record announcement { event_id = "e1" } ∷ []

publish_events_atomic_example :
    ((publish_events healthy clashing sample_db).1 ≡ with_events healthy clashing sample_db)
    ⊎ (((publish_events healthy clashing sample_db).1 ≡ sample_db)
        × ((publish_events healthy clashing sample_db).0 ≢ ok tt))
publish_events_atomic_example = publish_events_atomic healthy clashing sample_db

accepts_name :
    (update_name
      (onboarding_repository healthy)
      script_store
      name_validator
      player_reader
      factions
      fresh
      "p1"
      "Aki"
      empty_db).0
    ≡ ok tt
unfolding update_name build_onboarding_name_set_event to_onboarding_name_set_wire json_marshal
    publish_events write_events write_outbox_event insert_outbox_row
accepts_name = refl

update_name_sound_example :
    (name_validator.validate_onboarding_name "Aki" ≡ ok tt)
    × ((("p1" == "") ≡ false) × (("Aki" == "") ≡ false))
    × ((update_name
          (onboarding_repository healthy)
          script_store
          name_validator
          player_reader
          factions
          fresh
          "p1"
          "Aki"
          empty_db).1
        ≡ with_pending healthy empty_db (announces fresh "onboarding_name_set" "p1" "name" "Aki"))
update_name_sound_example =
    update_name_sound healthy script_store name_validator player_reader factions fresh "p1" "Aki"
      empty_db accepts_name

accepts_faction :
    (select_faction
      (onboarding_repository healthy)
      script_store
      name_validator
      player_reader
      factions
      fresh
      "p1"
      "red"
      empty_db).0
    ≡ ok tt
unfolding select_faction validate_faction build_onboarding_faction_set_event
    to_onboarding_faction_set_wire json_marshal publish_events write_events write_outbox_event
    insert_outbox_row
accepts_faction = refl

select_faction_sound_example :
    (contains factions "red" ≡ true)
    × ((("p1" == "") ≡ false) × (("red" == "") ≡ false))
    × ((select_faction
          (onboarding_repository healthy)
          script_store
          name_validator
          player_reader
          factions
          fresh
          "p1"
          "red"
          empty_db).1
        ≡ with_pending healthy empty_db
            (announces fresh "onboarding_faction_set" "p1" "initial_faction_id" "red"))
select_faction_sound_example =
    select_faction_sound healthy script_store name_validator player_reader factions fresh "p1" "red"
      empty_db accepts_faction
