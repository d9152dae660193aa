-- ===== src/Fakes/Typed.antt =====
-- packages/api-scenario/apiscenariofake/typed.go. The random bytes, the time and json.Unmarshal are
-- parameters.
use Prim.Native.String.{◌++◌}
use overload_party_scenario.Common.{ℕ, String, ◌==◌, Option, List, [], ◌∷◌, eqb, if◌then◌else◌}
use overload_party_scenario.Errors.{Error, Result, ok, err, opaque, wrap, rewrite_error, ◌>>=◌}
use overload_party_scenario.Domain.{Time}
use overload_party_scenario.ApiScenario.{
  OnboardingNameSetEvent, OnboardingFactionSetEvent, PlayerOnboardedEvent, Payload, json_marshal,
  event_type_onboarding_name_set, event_type_onboarding_faction_set, event_type_player_onboarded,
  name_set_members, faction_set_members, player_onboarded_members,
}
use overload_party_scenario.Fakes.{Broker, Publisher, publish, messages}
use overload_party_scenario.Fakes.Store.{get_queue, set_queue}
use overload_party_scenario.Fakes.Uuid.{new_event_id}

-- What newEventID and `time.Now().UTC()` meet: the random bytes, and the time; `render` is the verb %v.
pub record Moment : Type 0 where
  pub render : Error → String
  pub random : Result (List ℕ)
  pub now : Time

-- `if ev.EventID == "" { ev.EventID = newEventID() }`
abbrev pub id_or_new : Moment → String → Result String
id_or_new at id = if id == "" then new_event_id at.render at.random else ok id

-- `if ev.Timestamp.IsZero() { ev.Timestamp = time.Now().UTC() }`
abbrev pub time_or_now : Moment → Time → Time
time_or_now at t = if eqb t 0 then at.now else t

module _ (at : Moment) where
  unfoldable pub fill_onboarding_name_set_defaults :
      OnboardingNameSetEvent → Result OnboardingNameSetEvent
  fill_onboarding_name_set_defaults ev = do
    id ← id_or_new at ev.event_id
    ok (record ev {
      event_type = event_type_onboarding_name_set;
      event_id = id;
      timestamp = time_or_now at ev.timestamp;
    })

  unfoldable pub fill_onboarding_faction_set_defaults :
      OnboardingFactionSetEvent → Result OnboardingFactionSetEvent
  fill_onboarding_faction_set_defaults ev = do
    id ← id_or_new at ev.event_id
    ok (record ev {
      event_type = event_type_onboarding_faction_set;
      event_id = id;
      timestamp = time_or_now at ev.timestamp;
    })

  unfoldable pub fill_player_onboarded_defaults : PlayerOnboardedEvent → Result PlayerOnboardedEvent
  fill_player_onboarded_defaults ev = do
    id ← id_or_new at ev.event_id
    ok (record ev {
      event_type = event_type_player_onboarded;
      event_id = id;
      timestamp = time_or_now at ev.timestamp;
    })

  -- A value that is none blocks in the broker.
  unfoldable pub publish_onboarding_name_set :
      OnboardingNameSetEvent → Publisher → Result (Option Publisher)
  publish_onboarding_name_set ev p = do
    filled ← fill_onboarding_name_set_defaults ev
    payload ←
        rewrite_error (wrap "marshal OnboardingNameSetEvent")
          (json_marshal (name_set_members filled))
    ok (publish "onboarding-name-set" payload p)

  unfoldable pub publish_onboarding_faction_set :
      OnboardingFactionSetEvent → Publisher → Result (Option Publisher)
  publish_onboarding_faction_set ev p = do
    filled ← fill_onboarding_faction_set_defaults ev
    payload ←
        rewrite_error (wrap "marshal OnboardingFactionSetEvent")
          (json_marshal (faction_set_members filled))
    ok (publish "onboarding-faction-set" payload p)

  unfoldable pub publish_player_onboarded :
      PlayerOnboardedEvent → Publisher → Result (Option Publisher)
  publish_player_onboarded ev p = do
    filled ← fill_player_onboarded_defaults ev
    payload ←
        rewrite_error (wrap "marshal PlayerOnboardedEvent")
          (json_marshal (player_onboarded_members filled))
    ok (publish "player-onboarded" payload p)

-- The three expecters: each holds the channel of its topic.
abbrev pub expect_onboarding_name_set : Publisher → ℕ × Publisher
expect_onboarding_name_set = messages "onboarding-name-set"

abbrev pub expect_onboarding_faction_set : Publisher → ℕ × Publisher
expect_onboarding_faction_set = messages "onboarding-faction-set"

abbrev pub expect_player_onboarded : Publisher → ℕ × Publisher
expect_player_onboarded = messages "player-onboarded"

-- What the `select` of a wait meets: a message, a closed channel, or the end of the time.
pub data Received : Type 0 where
  message : Payload → Received
  closed : Received
  timed_out : Received

-- The `select` on a channel of the broker, which closes none: it times out where no message is there.
unfoldable pub receive : ℕ → Broker → Received × Broker
receive ch b = elim (get_queue ch b.queues) [
  | [] ↦ (timed_out, b)
  | payload ∷ rest ↦ (message payload, record b { queues = set_queue ch rest b.queues })
]

-- `quote` is the verb %q on the topic, `timeout` is the time as %s writes it.
unfoldable pub wait_typed_from_chan :
    {T : Type 0} → (Payload → Result T) → (String → String) → String → String → Received → Result T
wait_typed_from_chan unmarshal quote topic timeout (message payload) =
    rewrite_error (wrap ("unmarshal " ++ (quote topic ++ " payload"))) (unmarshal payload)
wait_typed_from_chan unmarshal quote topic timeout closed =
    err (opaque ("channel closed for topic " ++ (quote topic ++ " before receiving message")))
wait_typed_from_chan unmarshal quote topic timeout timed_out =
    err (opaque ("timeout waiting for " ++ (quote topic ++ (" after " ++ timeout))))

-- Wait of the three expecters, on what their channel gives.
module _ (quote : String → String) (timeout : String) where
  abbrev pub wait_onboarding_name_set :
      (Payload → Result OnboardingNameSetEvent) → Received → Result OnboardingNameSetEvent
  wait_onboarding_name_set unmarshal =
      wait_typed_from_chan unmarshal quote "onboarding-name-set" timeout

  abbrev pub wait_onboarding_faction_set :
      (Payload → Result OnboardingFactionSetEvent) → Received → Result OnboardingFactionSetEvent
  wait_onboarding_faction_set unmarshal =
      wait_typed_from_chan unmarshal quote "onboarding-faction-set" timeout

  abbrev pub wait_player_onboarded :
      (Payload → Result PlayerOnboardedEvent) → Received → Result PlayerOnboardedEvent
  wait_player_onboarded unmarshal = wait_typed_from_chan unmarshal quote "player-onboarded" timeout
