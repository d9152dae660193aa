-- ===== src/Tests/Wiring.antt =====
-- The startup at a concrete environment.
use overload_party_scenario.Common.{◌≡◌, true, none, some, [], ◌∷◌}
use overload_party_scenario.Common.Int.{pos}
use overload_party_scenario.Errors.{ok, opaque}
use overload_party_scenario.Config.{Config}
use overload_party_scenario.Adapter.ScriptStores.{object_not_exist, not_exist}
use overload_party_scenario.Wiring.{run}
use overload_party_scenario.Wiring.Serving.{Environment, serving, ticking, stopping}
use overload_party_scenario.Wiring.Resources.{still_open}
use overload_party_scenario.Wiring.Shutdown.{run_closes_all}
use overload_party_scenario.Tests.{healthy, all_delivered}

abbrev config : Config
config = record {
  port = pos 8080;
  env = "dev";
  database_conn = "postgres://";
  story_bucket = "bucket";
  google_cloud_project_id = "project";
  onboarding_name_set_topic = "name";
  onboarding_faction_set_topic = "faction";
  player_onboarded_topic = "onboarded";
  account_base_url = "http://account";
  internal_auth_public_key = "key";
  outbox_poll_interval = pos 1;
  outbox_batch_size = pos 1;
  outbox_failure_threshold = pos 1;
  outbox_visibility_timeout = pos 1;
  database_iam_auth_enabled = true;
  cloud_sql_connection_name = "db";
}

-- The client of Cloud Storage cannot be made, after all other resources are open.
abbrev environment : Environment
environment = record {
  config = ok config;
  pgxpool_new = none;
  pgxpool_new_with_config = none;
  parse_database_conn = none;
  new_dialer = none;
  firestore_new_client = none;
  storage_new_client = some (opaque "no credentials");
  pubsub_new_client = none;
  parse_public_key = none;
  conn = healthy;
  send = all_delivered;
  quote = λ t. t;
  render = λ e. "error";
  fetch = λ bucket key. object_not_exist;
  join = λ root path. path;
  read_file = λ path. not_exist;
  finished = ticking ∷ serving ∷ stopping ∷ [];
  listen_and_serve = none;
  ticker_run = none;
  shutdown = none;
}

run_closes_all_example : still_open (run environment []).1 ≡ some []
run_closes_all_example = run_closes_all environment
