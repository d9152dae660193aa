-- ===== src/Postgres/Tables.antt =====
-- The tables of db/schema.sql that the program reads and writes. A timestamp of the database is a
-- number of microseconds.
use overload_party_scenario.Common.{ℕ, String, Bool, Option, List, [], ◌∷◌, if◌then◌else◌}
use overload_party_scenario.Common.Int.{ℤ}
use overload_party_scenario.Domain.{Time}
use overload_party_scenario.ApiScenario.{Payload}

-- A row of scenario.scenario_episodes, without the columns that no query reads.
pub record EpisodeRow : Type 0 where
  pub episode_id : String
  pub faction : Option String
  pub episode_number : ℤ
  pub title_ja : String
  pub title_en : String
  pub required_level : ℤ
  pub required_episodes : List String
  pub script_path : String
  pub thumbnail_path : Option String
  pub sort_order : ℤ
  pub is_active : Bool
  pub created_at : Time

pub record RequiredFactionRow : Type 0 where
  pub episode_id : String
  pub faction_id : String

pub record ProgressRow : Type 0 where
  pub player_id : String
  pub episode_id : String
  pub completed_at : ℕ

pub record OnboardingRow : Type 0 where
  pub player_id : String
  pub completed_at : ℕ

pub record OutboxRow : Type 0 where
  pub event_id : String
  pub event_type : String
  pub payload : Payload
  pub created_at : ℕ
  pub published_at : Option ℕ
  pub failure_count : ℕ
  pub last_error : Option String
  pub last_attempted_at : Option ℕ

pub record Db : Type 0 where
  pub scenario_episodes : List EpisodeRow
  pub episode_required_factions : List RequiredFactionRow
  pub player_story_progress : List ProgressRow
  pub player_onboarding : List OnboardingRow
  pub outbox_events : List OutboxRow

-- ORDER BY, by an insertion sort: rows that tie keep the table's order.
module _ {A : Type 0} (le : A → A → Bool) where
  abbrev pub insert_by : A → List A → List A
  insert_by x [] = x ∷ []
  insert_by x (y ∷ ys) = let rest = insert_by x ys in if le x y then x ∷ y ∷ ys else y ∷ rest

  abbrev pub sort_by : List A → List A
  sort_by [] = []
  sort_by (x ∷ xs) = insert_by x (sort_by xs)
