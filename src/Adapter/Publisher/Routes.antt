-- ===== src/Adapter/Publisher/Routes.antt =====
-- The publisher that New makes has a topic for every event that the program writes.
use overload_party_scenario.Common.{String, ◌==◌, ◌≡◌, false, Option, some, arith}
use overload_party_scenario.Errors.{Error, ok}
use overload_party_scenario.ApiScenario.{
  event_type_onboarding_name_set, event_type_onboarding_faction_set, event_type_player_onboarded,
}
use overload_party_scenario.Adapter.Publisher.{Publisher, topic_of, new}

-- A publisher that New returns sends each of the three event types to its own topic, and no topic
-- is empty.
pub new_routes :
    (client_error : Option Error) (project_id name_set faction_set onboarded : String)
    {p : Publisher}
    → new client_error project_id name_set faction_set onboarded ≡ ok p
    → (topic_of p.by_event_type event_type_onboarding_name_set ≡ some name_set)
      × (topic_of p.by_event_type event_type_onboarding_faction_set ≡ some faction_set)
      × (topic_of p.by_event_type event_type_player_onboarded ≡ some onboarded)
      × (((name_set == "") ≡ false) × ((faction_set == "") ≡ false) × ((onboarded == "") ≡ false))
unfolding new
new_routes client_error project_id name_set faction_set onboarded h = ground arith
