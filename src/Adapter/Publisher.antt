-- ===== src/Adapter/Publisher.antt =====
-- adapter/pubsub/publisher.go. The fate of a message at Pub/Sub is a parameter.
pub mod Delivery
pub mod Routes
use Prim.Native.String
use overload_party_scenario.Common.{
  String, ◌==◌, Bool, Option, none, some, List, [], ◌∷◌, ◌++◌, map, ◌||◌, if◌then◌else◌,
}
use overload_party_scenario.Errors.{Error, Result, ok, err, wrap, opaque}
use overload_party_scenario.Errors.Action.{Action}
use overload_party_scenario.ApiScenario.{
  Payload, event_type_onboarding_name_set, event_type_onboarding_faction_set,
  event_type_player_onboarded,
}
use overload_party_scenario.Port.{RawEventPublisher}
use overload_party_scenario.World.{World, Message}

-- What result.Get reports, and whether the message reached its topic: an error may hide a delivery.
pub data Fate : Type 0 where
  acknowledged : Fate
  lost unconfirmed : Error → Fate

-- The topic of each event type.
pub record Publisher : Type 0 where
  pub by_event_type : List (String × String)

abbrev pub topic_of : List (String × String) → String → Option String
topic_of [] event_type = none
topic_of ((e, topic) ∷ m) event_type =
    let rest = topic_of m event_type in if e == event_type then some topic else rest

-- New; `client_error` is what gpubsub.NewClient reports.
unfoldable pub new : Option Error → String → String → String → String → Result Publisher
new client_error project_id name_set_topic faction_set_topic onboarded_topic =
    if project_id == ""
    then err (opaque "pubsub: projectID is empty")
    else if name_set_topic == "" || (faction_set_topic == "" || onboarded_topic == "")
    then err (opaque "pubsub: all topic names are required")
    else elim client_error [
      | some e ↦ err (wrap "pubsub: new pubsub client" e)
      | none ↦ ok (record {
        by_event_type =
            (event_type_onboarding_name_set, name_set_topic)
            ∷ (event_type_onboarding_faction_set, faction_set_topic)
            ∷ (event_type_player_onboarded, onboarded_topic)
            ∷ [];
      })
    ]

-- Close: the topics whose publishers are stopped, in whatever order the map is walked, and what the
-- client's Close reports.
abbrev pub close : Option Error → Publisher → List String × Option Error
close client_close p = (map (λ entry. entry.1) p.by_event_type, client_close)

abbrev pub deliver : Message → World → World
deliver m w = record w { delivered = w.delivered ++ m ∷ [] }

module _ (send : Message → Fate) (p : Publisher) where
  -- pub.Publish and result.Get
  abbrev pub send_to : String → Message → Action World (Unit {0})
  send_to event_type m w = elim (send m) [
    | acknowledged ↦ (ok tt, deliver m w)
    | lost e ↦ (err (wrap (String.◌++◌ "pubsub: publish event_type=" event_type) e), w)
    | unconfirmed e ↦
        (err (wrap (String.◌++◌ "pubsub: publish event_type=" event_type) e), deliver m w)
  ]

  -- The text of the first error has the event type without the quotes of the verb %q.
  unfoldable pub publish : String → Payload → Action World (Unit {0})
  publish event_type payload w = elim (topic_of p.by_event_type event_type) [
    | none ↦ (err (opaque (String.◌++◌ "pubsub: unknown event type " event_type)), w)
    | some topic ↦ send_to event_type (record { topic = topic; payload = payload }) w
  ]

  -- `var _ port.RawEventPublisher = (*Publisher)(nil)`
  abbrev pub raw_event_publisher : RawEventPublisher World
  raw_event_publisher = record { publish = publish }
