-- ===== src/Fakes.antt =====
-- packages/api-scenario/apiscenariofake: the in-memory broker (broker.go), its publisher (publisher.go) and
-- its subscriber (subscriber.go). Channels live in a store; one is known by its place there. A message is
-- the document that it holds.
pub mod Store
pub mod FanOut
pub mod Typed
pub mod RoundTrip
pub mod Stream
pub mod Uuid
use overload_party_scenario.Common.{
  ℕ, String, ◌==◌, Bool, Option, none, some, List, [], ◌∷◌, ◌++◌, length, ltb, if◌then◌else◌,
}
use overload_party_scenario.ApiScenario.{Payload}
use overload_party_scenario.Fakes.Store.{Queue, get_queue, set_queue}

abbrev pub default_subscribe_buffer : ℕ
default_subscribe_buffer = 100

-- The map from topics to channels, the latest assignment first.
abbrev pub TopicMap : Type 0
TopicMap = List (String × List ℕ)

abbrev pub channels_of : TopicMap → String → List ℕ
channels_of [] topic = []
channels_of ((key, ids) ∷ rest) topic =
    let later = channels_of rest topic in if key == topic then ids else later

-- The broker and the channels that it has made.
pub record Broker : Type 0 where
  pub queues : List Queue
  pub by_topic : TopicMap

abbrev pub new_broker : Broker
new_broker = record { queues = []; by_topic = [] }

-- Subscribe: the new channel, and the broker after it.
unfoldable pub subscribe : String → Broker → ℕ × Broker
subscribe topic b =
    let ch = length b.queues in
    (
      ch,
      record {
        queues = b.queues ++ ([] ∷ []);
        by_topic = (topic, channels_of b.by_topic topic ++ (ch ∷ [])) ∷ b.by_topic;
      },
    )

-- `ch <- payload`: none where the channel is full and nothing is received from it.
unfoldable pub send : ℕ → Payload → List Queue → Option (List Queue)
send ch payload queues =
    let queue = get_queue ch queues in
    if ltb (length queue) default_subscribe_buffer
    then some (set_queue ch (queue ++ (payload ∷ [])) queues)
    else none

-- `for _, ch := range subs { ch <- payload }`
abbrev pub send_all : List ℕ → Payload → List Queue → Option (List Queue)
send_all [] payload queues = some queues
send_all (ch ∷ subs) payload queues = elim (send ch payload queues) [
  | none ↦ none
  | some queues' ↦ send_all subs payload queues'
]

-- Publish of the broker: none where it blocks.
unfoldable pub publish_to : String → Payload → Broker → Option Broker
publish_to topic payload b = elim (send_all (channels_of b.by_topic topic) payload b.queues) [
  | none ↦ none
  | some queues ↦ some (record b { queues = queues })
]

-- publisher.go
pub record PublishedMessage : Type 0 where
  pub topic : String
  pub payload : Payload

-- A Publisher with the broker behind its pointer.
pub record Publisher : Type 0 where
  pub broker : Broker
  pub published : List PublishedMessage

abbrev pub new_publisher : Broker → Publisher
new_publisher broker = record { broker = broker; published = [] }

unfoldable pub publish : String → Payload → Publisher → Option Publisher
publish topic payload p =
    let recorded = p.published ++ (record { topic = topic; payload = payload } ∷ []) in
    elim (publish_to topic payload p.broker) [
      | none ↦ none
      | some broker ↦ some (record { broker = broker; published = recorded })
    ]

-- Published: a copy, which no later change reaches.
abbrev pub snapshot : Publisher → List PublishedMessage
snapshot p = p.published

-- Messages of a Subscriber of the publisher's broker.
abbrev pub messages : String → Publisher → ℕ × Publisher
messages topic p = let (ch, b) = subscribe topic p.broker in (ch, record p { broker = b })
