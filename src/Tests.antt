-- ===== src/Tests.antt =====
-- Sample data, and the theorems at concrete inputs.
pub mod Story
pub mod Onboarding
pub mod Repetition
pub mod Outbox
pub mod Edges
pub mod Config
pub mod System
pub mod Network
pub mod Remote
pub mod Fakes
pub mod Wiring
use overload_party_scenario.Common.{String, Bool, true, false, Option, none, some, List, [], ◌∷◌}
use overload_party_scenario.Common.Int.{pos}
use overload_party_scenario.Errors.{ok}
use overload_party_scenario.Port.{
  ScriptStore, PlayerProgressReader, OnboardingNameValidator, OnboardingPlayerReader,
}
use overload_party_scenario.Domain.{Episode, UnlockContext}
use overload_party_scenario.Postgres.{Conn, Statement}
use overload_party_scenario.Postgres.Tables.{Db, EpisodeRow, OutboxRow}
use overload_party_scenario.Onboarding.Events.{Fresh}
use overload_party_scenario.World.{World, Message}
use overload_party_scenario.Adapter.Publisher.{Publisher, Fate, acknowledged}

-- A database that never fails, at second 100.
abbrev pub healthy : Conn
healthy = record {
  now = λ st. 100000000;
  fault = λ st. none;
  is_locked = λ id. false;
  collates = λ a b. true;
}

abbrev pub episode_row : String → List String → EpisodeRow
episode_row id required = record {
  episode_id = id;
  faction = none;
  episode_number = pos 1;
  title_ja = "序章";
  title_en = "Prologue";
  required_level = pos 3;
  required_episodes = required;
  script_path = "scripts/{lang}/prologue.ks";
  thumbnail_path = none;
  sort_order = pos 0;
  is_active = true;
  created_at = 0;
}

abbrev pub outbox_row : String → OutboxRow
outbox_row id = record {
  event_id = id;
  event_type = "player_onboarded";
  payload = [];
  created_at = 0;
  published_at = none;
  failure_count = 1;
  last_error = some "unavailable";
  last_attempted_at = none;
}

-- Two episodes, the second of which requires the first, and two unpublished events.
abbrev pub sample_db : Db
sample_db = record {
  scenario_episodes = episode_row "ep1" [] ∷ episode_row "ep2" ("ep1" ∷ []) ∷ [];
  episode_required_factions = [];
  player_story_progress = [];
  player_onboarding = [];
  outbox_events = outbox_row "e1" ∷ outbox_row "e2" ∷ [];
}

abbrev pub script_store : ScriptStore
script_store = record { read_script = λ path. ok path }

abbrev pub account : PlayerProgressReader
account = record {
  get_player_progress = ok (record { level = pos 5; owned_factions = "red" ∷ [] });
}

abbrev pub name_validator : OnboardingNameValidator
name_validator = record { validate_onboarding_name = λ name. ok tt }

abbrev pub player_reader : OnboardingPlayerReader
player_reader = record {
  get_onboarding_player = ok (record { player_id = "p1"; initial_faction = some "red" });
}

abbrev pub fresh : Fresh
fresh = record { uuid = "e3"; now = 5 }

abbrev pub publisher : Publisher
publisher = record { by_event_type = ("player_onboarded", "onboarded") ∷ [] }

abbrev pub all_delivered : Message → Fate
all_delivered m = acknowledged

abbrev pub sample_world : World
sample_world = record { db = sample_db; delivered = [] }

abbrev pub episode : Episode
episode = record {
  episode_id = "ep2";
  faction = none;
  episode_number = pos 1;
  title_ja = "序章";
  title_en = "Prologue";
  required_level = pos 3;
  required_factions = "red" ∷ "blue" ∷ [];
  required_episodes = "ep1" ∷ [];
  script_path = "scripts/{lang}/prologue.ks";
  thumbnail_path = none;
  sort_order = pos 0;
  is_active = true;
  created_at = 0;
}

abbrev pub context : UnlockContext
context = record {
  player_level = pos 2;
  owned_factions = ("red", true) ∷ [];
  completed_episodes = [];
}
