-- ===== src/ApiScenario.antt =====
-- packages/api-scenario: the wire types of the REST API (openapi_gen.go) and of the events
-- (asyncapi_gen.go), and the JSON documents that `json.Marshal` makes of the events.
use overload_party_scenario.Common.{
  ◌*◌, String, ◌==◌, ◌||◌, Bool, Option, List, [], ◌∷◌, ltb, all, if◌then◌else◌,
}
use overload_party_scenario.Common.Int.{ℤ}
use overload_party_scenario.Errors.{opaque, Result, ok, err}
use overload_party_scenario.Domain.{Time}

-- The type's constants are these texts: "level", "faction", "episode".
pub data LockReasonType : Type 0 where
  level faction episode : LockReasonType

-- Valid, on the text of a LockReasonType.
abbrev pub valid : String → Bool
valid e = e == "episode" || (e == "faction" || e == "level")

pub record LockReason : Type 0 where
  pub current_level : Option ℤ
  pub required_episode : Option String
  pub required_faction : Option String
  pub required_level : Option ℤ
  pub type : LockReasonType

pub record EpisodeWithStatus : Type 0 where
  pub episode_id : String
  pub episode_number : ℤ
  pub faction : Option String
  pub is_completed : Bool
  pub is_unlocked : Bool
  pub lock_reasons : List LockReason
  pub thumbnail_url : Option String
  pub title : String

abbrev pub event_type_onboarding_name_set : String
event_type_onboarding_name_set = "onboarding_name_set"

abbrev pub event_type_onboarding_faction_set : String
event_type_onboarding_faction_set = "onboarding_faction_set"

abbrev pub event_type_player_onboarded : String
event_type_player_onboarded = "player_onboarded"

pub record OnboardingNameSetEvent : Type 0 where
  pub event_type : String
  pub event_id : String
  pub timestamp : Time
  pub player_id : String
  pub name : String

pub record OnboardingFactionSetEvent : Type 0 where
  pub event_type : String
  pub event_id : String
  pub timestamp : Time
  pub player_id : String
  pub initial_faction_id : String

pub record PlayerOnboardedEvent : Type 0 where
  pub event_type : String
  pub event_id : String
  pub timestamp : Time
  pub player_id : String
  pub initial_faction_id : String

-- A member's value: a string, or a time, which is written by RFC 3339.
pub data Json : Type 0 where
  text : String → Json
  time : Time → Json

-- A marshalled event: the members of its JSON object, in their order. The bytes that spell the
-- document are not modelled.
abbrev pub Payload : Type 0
Payload = List (String × Json)

-- The start of year 10000, 3652059 days after that of year 1.
abbrev pub year_10000 : Time
year_10000 = 3652059 * 86400 * 1000000000

-- `Time.MarshalJSON` refuses a year outside [0, 9999].
abbrev pub fits : String × Json → Bool
fits (_, text _) = Bool.true
fits (_, time t) = ltb t year_10000

-- json.Marshal of a struct of strings and times, given as its members by their tags.
unfoldable pub json_marshal : Payload → Result Payload
json_marshal members =
    if all fits members
    then ok members
    else err (opaque "json: error calling MarshalJSON for type time.Time")

abbrev pub name_set_members : OnboardingNameSetEvent → Payload
name_set_members ev =
    ("event_type", text ev.event_type)
    ∷ ("event_id", text ev.event_id)
    ∷ ("timestamp", time ev.timestamp)
    ∷ ("player_id", text ev.player_id)
    ∷ ("name", text ev.name)
    ∷ []

abbrev pub faction_set_members : OnboardingFactionSetEvent → Payload
faction_set_members ev =
    ("event_type", text ev.event_type)
    ∷ ("event_id", text ev.event_id)
    ∷ ("timestamp", time ev.timestamp)
    ∷ ("player_id", text ev.player_id)
    ∷ ("initial_faction_id", text ev.initial_faction_id)
    ∷ []

abbrev pub player_onboarded_members : PlayerOnboardedEvent → Payload
player_onboarded_members ev =
    ("event_type", text ev.event_type)
    ∷ ("event_id", text ev.event_id)
    ∷ ("timestamp", time ev.timestamp)
    ∷ ("player_id", text ev.player_id)
    ∷ ("initial_faction_id", text ev.initial_faction_id)
    ∷ []
