-- ===== src/Fakes/RoundTrip.antt =====
-- An event that is published after its expecter subscribes is what the expecter's wait returns.
use overload_party_scenario.Common.{ℕ, String, ◌≡◌, refl, ◌∙◌, true, some, [], ◌∷◌, ◌++◌, All, ltb}
use overload_party_scenario.Errors.{Result, ok}
use overload_party_scenario.ApiScenario.{
  Payload, OnboardingNameSetEvent, OnboardingFactionSetEvent, PlayerOnboardedEvent,
  name_set_members, faction_set_members, player_onboarded_members, json_marshal, year_10000,
}
use overload_party_scenario.Fakes.{Broker, Publisher, channels_of, subscribe, publish, messages}
use overload_party_scenario.Fakes.Store.{Queue, get_queue}
use overload_party_scenario.Fakes.FanOut.{
  IsWellFormed, HasRoom, publish_to_fans_out, publish_to_returns,
}
use overload_party_scenario.Fakes.FanOut.Subscribing.{subscribe_adds, subscribe-HasRoom}
use overload_party_scenario.Fakes.Typed.{
  Moment, message, receive, wait_typed_from_chan, fill_onboarding_name_set_defaults,
  fill_onboarding_faction_set_defaults, fill_player_onboarded_defaults, publish_onboarding_name_set,
  publish_onboarding_faction_set, publish_player_onboarded, expect_onboarding_name_set,
  expect_onboarding_faction_set, expect_player_onboarded, wait_onboarding_name_set,
  wait_onboarding_faction_set, wait_player_onboarded,
}

receive-message :
    (ch : ℕ) (b : Broker) {payload : Payload} {rest : Queue}
    → get_queue ch b.queues ≡ payload ∷ rest
    → (receive ch b).0 ≡ message payload
unfolding receive
receive-message ch b e = rw (receive, e) refl

module _ (topic : String) (payload : Payload) (p : Publisher) (formed : IsWellFormed p.broker)
    (rooms : All (HasRoom p.broker.queues) (channels_of p.broker.by_topic topic)) where
  pub publish_arrives :
      (p' : Publisher) × (publish topic payload (messages topic p).1 ≡ some p')
      × ((receive (messages topic p).0 p'.broker).0 ≡ message payload)
      × (p'.published ≡ p.published ++ (record { topic = topic; payload = payload } ∷ []))
  unfolding publish
  publish_arrives =
      let subscribed = (subscribe topic p.broker).1 in
      let (formed', empty, listed, kept) = subscribe_adds topic p.broker formed in
      let (b', e) =
        publish_to_returns topic payload subscribed formed'
          (subscribe-HasRoom topic p.broker rooms) in
      let (_, gets) = publish_to_fans_out topic payload subscribed formed' e in
      (
        record {
          broker = b';
          published = p.published ++ (record { topic = topic; payload = payload } ∷ []);
        },
        rw (publish, e) refl,
        receive-message (subscribe topic p.broker).0 b' {rest = []}
            (gets (subscribe topic p.broker).0 ∙ rw (listed, empty) refl),
        refl,
      )

module _ (at : Moment) (quote : String → String) (timeout : String) (p : Publisher)
    (formed : IsWellFormed p.broker) where
  -- Where the channels of the topic have room, the filled event has a year before 10000, and
  -- json.Unmarshal inverts json.Marshal on it, a name event that is published after the expecter
  -- subscribes is recorded, and the wait returns it, filled.
  pub publish_onboarding_name_set_received :
      (unmarshal : Payload → Result OnboardingNameSetEvent) (ev : OnboardingNameSetEvent)
      {filled : OnboardingNameSetEvent}
      → All (HasRoom p.broker.queues) (channels_of p.broker.by_topic "onboarding-name-set")
      → fill_onboarding_name_set_defaults at ev ≡ ok filled
      → ltb filled.timestamp year_10000 ≡ true
      → unmarshal (name_set_members filled) ≡ ok filled
      → (p' : Publisher) × (publish_onboarding_name_set at ev (expect_onboarding_name_set p).1
          ≡ ok (some p'))
        × (wait_onboarding_name_set quote timeout unmarshal
              (receive (expect_onboarding_name_set p).0 p'.broker).0
            ≡ ok filled)
        × (p'.published
            ≡ p.published
              ++ (record { topic = "onboarding-name-set"; payload = name_set_members filled } ∷ []))
  unfolding publish_onboarding_name_set json_marshal wait_typed_from_chan
  publish_onboarding_name_set_received unmarshal ev {filled} rooms fills fits inverse =
      let (p', sent, arrives, recorded) =
        publish_arrives "onboarding-name-set" (name_set_members filled) p formed rooms in
      (
        p',
        rw (publish_onboarding_name_set, fills, json_marshal, fits, sent) refl,
        rw (arrives, wait_typed_from_chan, inverse) refl,
        recorded,
      )

  -- Where the channels of the topic have room, the filled event has a year before 10000, and
  -- json.Unmarshal inverts json.Marshal on it, a faction event that is published after the expecter
  -- subscribes is recorded, and the wait returns it, filled.
  pub publish_onboarding_faction_set_received :
      (unmarshal : Payload → Result OnboardingFactionSetEvent) (ev : OnboardingFactionSetEvent)
      {filled : OnboardingFactionSetEvent}
      → All (HasRoom p.broker.queues) (channels_of p.broker.by_topic "onboarding-faction-set")
      → fill_onboarding_faction_set_defaults at ev ≡ ok filled
      → ltb filled.timestamp year_10000 ≡ true
      → unmarshal (faction_set_members filled) ≡ ok filled
      → (p' : Publisher) × (publish_onboarding_faction_set at ev (expect_onboarding_faction_set p).1
          ≡ ok (some p'))
        × (wait_onboarding_faction_set quote timeout unmarshal
              (receive (expect_onboarding_faction_set p).0 p'.broker).0
            ≡ ok filled)
        × (p'.published
            ≡ p.published
              ++ (record { topic = "onboarding-faction-set"; payload = faction_set_members filled }
                  ∷ []))
  unfolding publish_onboarding_faction_set json_marshal wait_typed_from_chan
  publish_onboarding_faction_set_received unmarshal ev {filled} rooms fills fits inverse =
      let (p', sent, arrives, recorded) =
        publish_arrives "onboarding-faction-set" (faction_set_members filled) p formed rooms in
      (
        p',
        rw (publish_onboarding_faction_set, fills, json_marshal, fits, sent) refl,
        rw (arrives, wait_typed_from_chan, inverse) refl,
        recorded,
      )

  -- Where the channels of the topic have room, the filled event has a year before 10000, and
  -- json.Unmarshal inverts json.Marshal on it, an event of a player onboarded that is published after the expecter
  -- subscribes is recorded, and the wait returns it, filled.
  pub publish_player_onboarded_received :
      (unmarshal : Payload → Result PlayerOnboardedEvent) (ev : PlayerOnboardedEvent)
      {filled : PlayerOnboardedEvent}
      → All (HasRoom p.broker.queues) (channels_of p.broker.by_topic "player-onboarded")
      → fill_player_onboarded_defaults at ev ≡ ok filled
      → ltb filled.timestamp year_10000 ≡ true
      → unmarshal (player_onboarded_members filled) ≡ ok filled
      → (p' : Publisher) × (publish_player_onboarded at ev (expect_player_onboarded p).1
          ≡ ok (some p'))
        × (wait_player_onboarded quote timeout unmarshal
              (receive (expect_player_onboarded p).0 p'.broker).0
            ≡ ok filled)
        × (p'.published
            ≡ p.published
              ++ (record { topic = "player-onboarded"; payload = player_onboarded_members filled }
                  ∷ []))
  unfolding publish_player_onboarded json_marshal wait_typed_from_chan
  publish_player_onboarded_received unmarshal ev {filled} rooms fills fits inverse =
      let (p', sent, arrives, recorded) =
        publish_arrives "player-onboarded" (player_onboarded_members filled) p formed rooms in
      (
        p',
        rw (publish_player_onboarded, fills, json_marshal, fits, sent) refl,
        rw (arrives, wait_typed_from_chan, inverse) refl,
        recorded,
      )
