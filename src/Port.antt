-- ===== src/Port.antt =====
-- internal/port: the interfaces between the use cases and the adapters, as records of calls on a
-- shared state `S`. What a call finds outside the process belongs to the record's value: one value
-- stands for the answers that one request meets.
pub mod Laws
use overload_party_scenario.Common.{ℕ, String, Bool, Option, List}
use overload_party_scenario.Common.Int.{ℤ}
use overload_party_scenario.Errors.{Result}
use overload_party_scenario.Errors.Action.{Action}
use overload_party_scenario.Domain.{Episode}
use overload_party_scenario.ApiScenario.{Payload}

-- A `uuid.UUID`, by its canonical text: `String()` is the identity here.
abbrev pub Uuid : Type 0
Uuid = String

-- outbox.go
pub record OutboxEvent : Type 0 where
  pub event_id : Uuid
  pub event_type : String
  pub payload : Payload

pub record ClaimedOutboxEvent : Type 0 where
  pub event_id : Uuid
  pub event_type : String
  pub payload : Payload
  pub failure_count : ℕ

-- `claim_unpublished limit visibility_timeout failure_threshold`, the timeout in nanoseconds.
pub record OutboxStore (S : Type 0) : Type 0 where
  pub claim_unpublished : ℕ → ℕ → ℕ → Action S (List ClaimedOutboxEvent)
  pub mark_published : Uuid → Action S (Unit {0})
  pub record_failure : Uuid → String → Action S (Unit {0})

-- event.go
pub record RawEventPublisher (S : Type 0) : Type 0 where
  pub publish : String → Payload → Action S (Unit {0})

-- repository.go
pub record StoryRepo (S : Type 0) : Type 0 where
  pub list_active_episodes : Action S (List Episode)
  pub find_episode_by_id : String → Action S Episode
  pub get_completed_episode_ids : String → Action S (List String)
  pub mark_complete : String → String → Action S (Unit {0})

-- onboarding_repo.go
pub record OnboardingRepo (S : Type 0) : Type 0 where
  pub mark_complete : String → List OutboxEvent → Action S (Unit {0})
  pub publish_events : List OutboxEvent → Action S (Unit {0})

-- script_store.go
pub record ScriptStore : Type 0 where
  pub read_script : String → Result String

-- account.go
pub record AccountPlayer : Type 0 where
  pub player_id : String
  pub initial_faction : Option String

pub record PlayerProgress : Type 0 where
  pub level : ℤ
  pub owned_factions : List String

pub record OnboardingNameValidator : Type 0 where
  pub validate_onboarding_name : String → Result (Unit {0})

pub record OnboardingPlayerReader : Type 0 where
  pub get_onboarding_player : Result AccountPlayer

pub record PlayerProgressReader : Type 0 where
  pub get_player_progress : Result PlayerProgress
