-- ===== src/Rest/StoryHandler.antt =====
-- story_handler.go
use overload_party_scenario.Common.{String, Option, none, List, ◌||◌, if◌then◌else◌}
use overload_party_scenario.Errors.{Error}
use overload_party_scenario.Errors.Action.{Action}
use overload_party_scenario.ApiScenario.{EpisodeWithStatus}
use overload_party_scenario.Port.{StoryRepo, ScriptStore, PlayerProgressReader}
use overload_party_scenario.Story
use overload_party_scenario.Rest.{
  Reply, episodes_list, scenario_script, scenario_complete, error_message, LogLine, info, error,
  log, status_ok, default_lang, is_not_found, is_locked, is_infra, resolve_error_status, reply_to,
}

abbrev pub episodes_reply : List EpisodeWithStatus → Reply
episodes_reply episodes = record { status = status_ok; body = episodes_list episodes; log = none }

abbrev pub script_reply : String → String → Reply
script_reply episode_id script = record {
  status = status_ok;
  body = scenario_script episode_id script;
  log = none;
}

abbrev pub completion_reply : String → Unit {0} → Reply
completion_reply episode_id done = record {
  status = status_ok;
  body = scenario_complete "episode completed" episode_id;
  log = none;
}

-- `render` is `Error()`.
module _ (render : Error → String) where
  -- respondError, with the log line that precedes it.
  abbrev pub respond_error : (Error → Option LogLine) → Error → Reply
  respond_error line e = record {
    status = resolve_error_status e;
    body = error_message (render e);
    log = line e;
  }

  abbrev pub log_list_episodes_error : Error → Option LogLine
  log_list_episodes_error e = log error "list episodes failed"

  abbrev pub log_get_script_error : Error → Option LogLine
  log_get_script_error e =
      if is_not_found e || is_locked e
      then log info "get script rejected"
      else if is_infra e
      then log error "get script infra error"
      else log error "get script failed"

  abbrev pub log_complete_episode_error : Error → Option LogLine
  log_complete_episode_error e =
      if is_not_found e || is_locked e
      then log info "complete episode rejected"
      else log error "complete episode failed"

  module _ {S : Type 0} (story_repo : StoryRepo S) (script_store : ScriptStore)
      (account : PlayerProgressReader) where
    unfoldable pub list_episodes : String → Option String → Action S Reply
    list_episodes player_id lang =
        reply_to episodes_reply (respond_error log_list_episodes_error)
          (Story.list_episodes story_repo script_store account player_id (default_lang lang))

    unfoldable pub get_script : String → String → Option String → Action S Reply
    get_script player_id episode_id lang =
        reply_to (script_reply episode_id) (respond_error log_get_script_error) (
          Story.get_script story_repo script_store account player_id episode_id (default_lang lang))

    unfoldable pub complete_episode : String → String → Action S Reply
    complete_episode player_id episode_id =
        reply_to (completion_reply episode_id) (respond_error log_complete_episode_error)
          (Story.complete_episode story_repo script_store account player_id episode_id)
