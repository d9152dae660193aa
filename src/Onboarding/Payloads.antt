-- ===== src/Onboarding/Payloads.antt =====
-- The type and the player of the event that each onboarding step enqueues.
use overload_party_scenario.Common.{
  String, ◌==◌, ◌≡◌, Bool, false, Option, none, some, [], ◌∷◌, arith, if◌then◌else◌,
}
use overload_party_scenario.Errors.{ok}
use overload_party_scenario.ApiScenario.{
  Json, text, time, Payload, event_type_player_onboarded, event_type_onboarding_name_set,
  event_type_onboarding_faction_set, json_marshal,
}
use overload_party_scenario.Presenter.{
  to_onboarding_name_set_wire, to_onboarding_faction_set_wire, to_player_onboarded_wire,
}
use overload_party_scenario.Port.{OutboxEvent}
use overload_party_scenario.Onboarding.Events.{
  Fresh, build_onboarding_name_set_event, build_onboarding_faction_set_event,
  build_player_onboarded_event,
}

-- The member of a payload.
abbrev pub member : String → Payload → Option Json
member k [] = none
member k ((j, v) ∷ m) = let rest = member k m in if j == k then some v else rest

abbrev is_text : String → Option Json → Bool
is_text q none = false
is_text q (some (text t)) = t == q
is_text q (some (time t)) = false

-- The payload's `player_id` is the player.
abbrev pub names : String → Payload → Bool
names q payload = is_text q (member "player_id" payload)

-- What an onboarding step announces of the player: a member `key` with `value`.
abbrev pub announces : Fresh → String → String → String → String → OutboxEvent
announces fresh event_type p key value = record {
  event_id = fresh.uuid;
  event_type = event_type;
  payload =
      ("event_type", text event_type)
      ∷ ("event_id", text fresh.uuid)
      ∷ ("timestamp", time fresh.now)
      ∷ ("player_id", text p)
      ∷ (key, text value)
      ∷ [];
}

module _ (fresh : Fresh) (p : String) (ev : OutboxEvent) where
  pub player_onboarded_event :
      (f : String)
      → build_player_onboarded_event fresh p f ≡ ok ev
      → (ev.event_type ≡ event_type_player_onboarded)
        × ((q : String) → names q ev.payload ≡ (p == q))
  unfolding build_player_onboarded_event to_player_onboarded_wire json_marshal
  player_onboarded_event f h = (ground arith, λ q. ground arith)

  pub name_set_event :
      (name : String)
      → build_onboarding_name_set_event fresh p name ≡ ok ev
      → ev.event_type ≡ event_type_onboarding_name_set
  unfolding build_onboarding_name_set_event to_onboarding_name_set_wire json_marshal
  name_set_event name h = ground arith

  pub faction_set_event :
      (f : String)
      → build_onboarding_faction_set_event fresh p f ≡ ok ev
      → ev.event_type ≡ event_type_onboarding_faction_set
  unfolding build_onboarding_faction_set_event to_onboarding_faction_set_wire json_marshal
  faction_set_event f h = ground arith

  pub name_set_event-announces :
      (name : String)
      → build_onboarding_name_set_event fresh p name ≡ ok ev
      → ((p == "") ≡ false)
        × ((name == "") ≡ false)
        × (ev ≡ announces fresh "onboarding_name_set" p "name" name)
  unfolding build_onboarding_name_set_event to_onboarding_name_set_wire json_marshal
  name_set_event-announces name h = ground arith

  pub faction_set_event-announces :
      (f : String)
      → build_onboarding_faction_set_event fresh p f ≡ ok ev
      → ((p == "") ≡ false)
        × ((f == "") ≡ false)
        × (ev ≡ announces fresh "onboarding_faction_set" p "initial_faction_id" f)
  unfolding build_onboarding_faction_set_event to_onboarding_faction_set_wire json_marshal
  faction_set_event-announces f h = ground arith
