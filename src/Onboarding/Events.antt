-- ===== src/Onboarding/Events.antt =====
-- The outbox rows of the onboarding events, as service.go builds them.
use overload_party_scenario.Common.{String, ◌==◌, if◌then◌else◌}
use overload_party_scenario.Errors.{Result, ok, err, wrap, opaque, rewrite_error, ◌>>=◌, ◌>>◌}
use overload_party_scenario.Domain.{
  Time, OnboardingNameSetEvent, OnboardingFactionSetEvent, PlayerOnboardedEvent,
}
use overload_party_scenario.ApiScenario.{Payload}
use overload_party_scenario.Presenter.{
  to_onboarding_name_set_wire, to_onboarding_faction_set_wire, to_player_onboarded_wire,
}
use overload_party_scenario.Port.{Uuid, OutboxEvent}

-- What `uuid.New()` and `time.Now().UTC()` return in one request.
pub record Fresh : Type 0 where
  pub uuid : Uuid
  pub now : Time

-- `if s == "" { return errors.New(text) }`
abbrev pub require_text : String → String → Result (Unit {0})
require_text s text = if s == "" then err (opaque text) else ok tt

-- The outbox row of an event that has been presented.
abbrev pub outbox_event : Uuid → String × Payload → OutboxEvent
outbox_event id (event_type, payload) = record {
  event_id = id;
  event_type = event_type;
  payload = payload;
}

module _ (fresh : Fresh) where
  unfoldable pub build_onboarding_name_set_event : String → String → Result OutboxEvent
  build_onboarding_name_set_event player_id name = do
    require_text player_id "onboarding: playerID is empty"
    require_text name "onboarding: name is empty"
    let ev : OnboardingNameSetEvent = record {
      event_id = fresh.uuid;
      timestamp = fresh.now;
      player_id = player_id;
      name = name;
    }
    wire ← rewrite_error (wrap "present onboarding-name-set") (to_onboarding_name_set_wire ev)
    ok (outbox_event fresh.uuid wire)

  unfoldable pub build_onboarding_faction_set_event : String → String → Result OutboxEvent
  build_onboarding_faction_set_event player_id initial_faction_id = do
    require_text player_id "onboarding: playerID is empty"
    require_text initial_faction_id "onboarding: initialFactionID is empty"
    let ev : OnboardingFactionSetEvent = record {
      event_id = fresh.uuid;
      timestamp = fresh.now;
      player_id = player_id;
      initial_faction_id = initial_faction_id;
    }
    wire ← rewrite_error (wrap "present onboarding-faction-set") (to_onboarding_faction_set_wire ev)
    ok (outbox_event fresh.uuid wire)

  unfoldable pub build_player_onboarded_event : String → String → Result OutboxEvent
  build_player_onboarded_event player_id initial_faction_id = do
    require_text player_id "onboarding: playerID is empty"
    require_text initial_faction_id "onboarding: initialFactionID is empty"
    let ev : PlayerOnboardedEvent = record {
      event_id = fresh.uuid;
      timestamp = fresh.now;
      player_id = player_id;
      initial_faction_id = initial_faction_id;
    }
    wire ← rewrite_error (wrap "present player-onboarded") (to_player_onboarded_wire ev)
    ok (outbox_event fresh.uuid wire)
