-- ===== src/Config.antt =====
-- internal/config/config.go. The environment and the parsers of package strconv and package time
-- are parameters.
pub mod Accepted
use Prim.Native.String.{◌++◌}
use overload_party_scenario.Common.{
  ℕ, String, ◌==◌, Bool, true, false, Option, none, some, if◌then◌else◌,
}
use overload_party_scenario.Common.Int.{ℤ, pos, leb_ℤ, ltb_ℤ}
use overload_party_scenario.Errors.{
  Error, Result, ok, err, panic, wrapf, opaque, rewrite_error, ◌>>=◌, ◌>>◌,
}
use overload_party_scenario.Story.ReplaceAll.{strip}

abbrev pub local_story_prefix : String
local_story_prefix = "local:"

-- Durations are in nanoseconds.
pub record Config : Type 0 where
  pub port : ℤ
  pub env : String
  pub database_conn : String
  pub story_bucket : String
  pub google_cloud_project_id : String
  pub onboarding_name_set_topic : String
  pub onboarding_faction_set_topic : String
  pub player_onboarded_topic : String
  pub account_base_url : String
  pub internal_auth_public_key : String
  pub outbox_poll_interval : ℤ
  pub outbox_batch_size : ℤ
  pub outbox_failure_threshold : ℤ
  pub outbox_visibility_timeout : ℤ
  pub database_iam_auth_enabled : Bool
  pub cloud_sql_connection_name : String

-- strings.HasPrefix of the bucket.
unfoldable pub is_local_story : String → Bool
is_local_story story_bucket = elim (strip local_story_prefix story_bucket) [
  | none ↦ false
  | some path ↦ true
]

-- strings.TrimPrefix of a bucket that has the prefix.
unfoldable pub story_local_path : String → String
story_local_path story_bucket = elim (strip local_story_prefix story_bucket) [
  | none ↦ ""
  | some path ↦ path
]

-- time.Millisecond
abbrev pub millisecond : ℤ
millisecond = pos 1000000

-- `if <refused> { return nil, fmt.Errorf(<text>) }`
abbrev pub refuse : Bool → String → Result (Unit {0})
refuse refused text = if refused then err (opaque text) else ok tt

-- `quote` is the verb %q of package fmt.
module _ (getenv : String → String) (atoi : String → Result ℤ) (parse_duration : String → Result ℤ)
    (quote : String → String) where
  -- A variable that has to be set, read by `parse`.
  abbrev parsed : (String → Result ℤ) → String → Result ℤ
  parsed parse name = do
    refuse (getenv name == "") ("config: " ++ (name ++ " is required"))
    rewrite_error (λ e. wrapf ("config: " ++ (name ++ (" " ++ (quote (getenv name) ++ ": ")))) e "")
        (parse (getenv name))

  abbrev positive : (String → Result ℤ) → String → Result ℤ
  positive parse name = do
    n ← parsed parse name
    refuse (leb_ℤ n (pos 0))
        ("config: " ++ (name ++ (" must be positive, got " ++ quote (getenv name))))
    ok n

  -- The checks from ENV to INTERNAL_AUTH_PUBLIC_KEY.
  unfoldable pub check_texts : Result (Unit {0})
  unfolding is_local_story story_local_path
  check_texts = do
    refuse (getenv "ENV" == "") "config: ENV is required"
    refuse (getenv "DATABASE_CONN" == "") "config: DATABASE_CONN is required"
    refuse (getenv "STORY_BUCKET" == "")
        "config: STORY_BUCKET is required (GCS bucket name, or \"local:<path>\" for dev)"
    refuse
        (if is_local_story (getenv "STORY_BUCKET")
          then story_local_path (getenv "STORY_BUCKET") == ""
          else false)
        ("config: STORY_BUCKET="
          ++ (quote (getenv "STORY_BUCKET")
              ++ (": local path must not be empty after " ++ quote local_story_prefix)))
    refuse (getenv "GOOGLE_CLOUD_PROJECT_ID" == "")
        "config: GOOGLE_CLOUD_PROJECT_ID is required (scenario は Pub/Sub publish + Firestore game_config で必要)"
    refuse (getenv "ONBOARDING_NAME_SET_TOPIC" == "")
        "config: ONBOARDING_NAME_SET_TOPIC is required"
    refuse (getenv "ONBOARDING_FACTION_SET_TOPIC" == "")
        "config: ONBOARDING_FACTION_SET_TOPIC is required"
    refuse (getenv "PLAYER_ONBOARDED_TOPIC" == "") "config: PLAYER_ONBOARDED_TOPIC is required"
    refuse (getenv "ACCOUNT_BASE_URL" == "")
        "config: ACCOUNT_BASE_URL is required (onboarding name relay and resume judgement)"
    refuse (getenv "INTERNAL_AUTH_PUBLIC_KEY" == "")
        "config: INTERNAL_AUTH_PUBLIC_KEY is required (gateway → scenario JWT 検証鍵)"

  -- DATABASE_IAM_AUTH_ENABLED, and the connection name that it asks for.
  unfoldable pub database_auth : Result (Bool × String)
  database_auth =
      if getenv "DATABASE_IAM_AUTH_ENABLED" == "true"
      then (if getenv "CLOUDSQL_CONNECTION_NAME" == ""
          then err (
              opaque
                "config: CLOUDSQL_CONNECTION_NAME is required when DATABASE_IAM_AUTH_ENABLED is true")
          else ok (true, getenv "CLOUDSQL_CONNECTION_NAME"))
      else if getenv "DATABASE_IAM_AUTH_ENABLED" == "false"
      then ok (false, "")
      else err (
          opaque (
            "config: DATABASE_IAM_AUTH_ENABLED must be "
            ++ (quote "true"
                ++ (" or "
                    ++ (quote "false"
                        ++ (", got " ++ quote (getenv "DATABASE_IAM_AUTH_ENABLED")))))))

  unfoldable pub visibility_timeout : Result ℤ
  visibility_timeout = do
    n ← parsed parse_duration "OUTBOX_VISIBILITY_TIMEOUT"
    refuse (ltb_ℤ n millisecond) (
        "config: OUTBOX_VISIBILITY_TIMEOUT must be >= 1ms, got "
        ++ quote (getenv "OUTBOX_VISIBILITY_TIMEOUT"))
    ok n

  unfoldable pub from_env : Result Config
  unfolding check_texts database_auth visibility_timeout
  from_env = do
    n ← parsed atoi "PORT"
    check_texts
    iam ← database_auth
    poll_interval ← positive parse_duration "OUTBOX_POLL_INTERVAL"
    batch ← positive atoi "OUTBOX_BATCH_SIZE"
    threshold ← positive atoi "OUTBOX_FAILURE_THRESHOLD"
    visibility ← visibility_timeout
    ok (record {
      port = n;
      env = getenv "ENV";
      database_conn = getenv "DATABASE_CONN";
      story_bucket = getenv "STORY_BUCKET";
      google_cloud_project_id = getenv "GOOGLE_CLOUD_PROJECT_ID";
      onboarding_name_set_topic = getenv "ONBOARDING_NAME_SET_TOPIC";
      onboarding_faction_set_topic = getenv "ONBOARDING_FACTION_SET_TOPIC";
      player_onboarded_topic = getenv "PLAYER_ONBOARDED_TOPIC";
      account_base_url = getenv "ACCOUNT_BASE_URL";
      internal_auth_public_key = getenv "INTERNAL_AUTH_PUBLIC_KEY";
      outbox_poll_interval = poll_interval;
      outbox_batch_size = batch;
      outbox_failure_threshold = threshold;
      outbox_visibility_timeout = visibility;
      database_iam_auth_enabled = iam.0;
      cloud_sql_connection_name = iam.1;
    })
