-- ===== src/Tests/Config.antt =====
-- The configuration at a concrete environment.
use overload_party_scenario.Common.{◌≤◌, String, ◌==◌, ◌≡◌, refl, false, none, some, if◌then◌else◌}
use overload_party_scenario.Common.Int.{ℤ, pos}
use overload_party_scenario.Errors.{Result, ok, err, opaque}
use overload_party_scenario.Config.{
  Config, from_env, check_texts, database_auth, visibility_timeout, is_local_story,
  story_local_path,
}
use overload_party_scenario.Config.Accepted.{relay_config, from_env_accepted}
use overload_party_scenario.Postgres.OutboxRepository.{visibility_interval, outbox_repository}
use overload_party_scenario.Port.{OutboxStore, RawEventPublisher}
use overload_party_scenario.Outbox
use overload_party_scenario.Outbox.{Relay}
use overload_party_scenario.Worker.{OutboxTicker, new_outbox_ticker}
use overload_party_scenario.Adapter.Publisher
use overload_party_scenario.Adapter.Publisher.{Publisher, raw_event_publisher}
use overload_party_scenario.World.{World, outbox_store_on_db}
use overload_party_scenario.Tests.{healthy, publisher, all_delivered}

-- Every variable is "10", but for the switch of the database's authentication.
abbrev getenv : String → String
getenv name = if name == "DATABASE_IAM_AUTH_ENABLED" then "false" else "10"

abbrev atoi : String → Result ℤ
atoi s = if s == "10" then ok (pos 10) else err (opaque "invalid syntax")

abbrev parse_duration : String → Result ℤ
parse_duration s = if s == "10" then ok (pos 10000000) else err (opaque "invalid duration")

abbrev quote : String → String
quote s = s

abbrev read_config : Config
read_config = record {
  port = pos 10;
  env = "10";
  database_conn = "10";
  story_bucket = "10";
  google_cloud_project_id = "10";
  onboarding_name_set_topic = "10";
  onboarding_faction_set_topic = "10";
  player_onboarded_topic = "10";
  account_base_url = "10";
  internal_auth_public_key = "10";
  outbox_poll_interval = pos 10000000;
  outbox_batch_size = pos 10;
  outbox_failure_threshold = pos 10;
  outbox_visibility_timeout = pos 10000000;
  database_iam_auth_enabled = false;
  cloud_sql_connection_name = "";
}

reads_config : from_env getenv atoi parse_duration quote ≡ ok read_config
unfolding from_env check_texts database_auth visibility_timeout is_local_story story_local_path
reads_config = refl

abbrev runner : String
runner = "relay"

abbrev store : OutboxStore World
store = outbox_store_on_db (outbox_repository healthy)

abbrev sender : RawEventPublisher World
sender = raw_event_publisher all_delivered publisher

from_env_accepted_example :
    ((r : Relay World) × (Outbox.new (some store) (some sender) (relay_config read_config) ≡ ok r)
      × (1 ≤ visibility_interval r.visibility_timeout))
    × ((t : OutboxTicker) × (new_outbox_ticker (some runner) (pos 10000000) ≡ ok t))
    × ((p : Publisher) × (Publisher.new none "10" "10" "10" "10" ≡ ok p))
from_env_accepted_example =
    from_env_accepted getenv atoi parse_duration quote reads_config store sender runner
