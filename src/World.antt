-- ===== src/World.antt =====
-- The state that a request or a tick of the worker changes: the tables of the database, and the
-- messages that have reached Pub/Sub.
use overload_party_scenario.Common.{String, List}
use overload_party_scenario.Errors.Action.{Action}
use overload_party_scenario.ApiScenario.{Payload}
use overload_party_scenario.Port.{StoryRepo, OnboardingRepo, OutboxStore}
use overload_party_scenario.Postgres.Tables.{Db}

-- A message on a topic.
pub record Message : Type 0 where
  pub topic : String
  pub payload : Payload

pub record World : Type 0 where
  pub db : Db
  pub delivered : List Message

-- A call on the tables leaves the messages alone.
abbrev pub on_db : {A : Type 0} → Action Db A → Action World A
on_db m w = let (r, db') = m w.db in (r, record w { db = db' })

abbrev pub story_repo_on_db : StoryRepo Db → StoryRepo World
story_repo_on_db r = record {
  list_active_episodes = on_db r.list_active_episodes;
  find_episode_by_id = λ id. on_db (r.find_episode_by_id id);
  get_completed_episode_ids = λ p. on_db (r.get_completed_episode_ids p);
  mark_complete = λ p id. on_db (r.mark_complete p id);
}

abbrev pub onboarding_repo_on_db : OnboardingRepo Db → OnboardingRepo World
onboarding_repo_on_db r = record {
  mark_complete = λ p evs. on_db (r.mark_complete p evs);
  publish_events = λ evs. on_db (r.publish_events evs);
}

abbrev pub outbox_store_on_db : OutboxStore Db → OutboxStore World
outbox_store_on_db r = record {
  claim_unpublished = λ n v t. on_db (r.claim_unpublished n v t);
  mark_published = λ id. on_db (r.mark_published id);
  record_failure = λ id m. on_db (r.record_failure id m);
}
