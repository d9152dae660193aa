-- ===== src/Story.antt =====
-- internal/usecase/story: the use case of episodes, over the ports (service.go).
use Prim.Native.Char.{Char}
use Prim.Native.String
use overload_party_scenario.Common.{
  ℕ, zero, suc, String, Bool, true, false, Option, none, some, List, [], ◌∷◌, length, eqb,
  if◌then◌else◌,
}
use overload_party_scenario.Errors.{
  Error, Result, ok, err, panic, wrap, sentinel, port, story, PortError, StoryError, is,
  rewrite_error,
}
use overload_party_scenario.Errors.Action.{
  Action, pure, raise, lift, on_error, require, ◌>>=◌, ◌>>◌,
}
use overload_party_scenario.Domain.{Episode, UnlockContext, BoolMap, assign, lock_reasons}
use overload_party_scenario.ApiScenario.{EpisodeWithStatus}
use overload_party_scenario.Presenter.{build_episodes_with_status}
use overload_party_scenario.Port.{StoryRepo, ScriptStore, PlayerProgressReader, PlayerProgress}
use overload_party_scenario.Story.ReplaceAll.{replace_all}
pub mod ReplaceAll
pub mod Access
pub mod Decision
pub mod Progress
pub mod Tables
pub mod Listing
pub mod Reading

-- A loop that sets `m[k] = true` for every text of a slice.
abbrev pub mark_all : BoolMap → List String → BoolMap
mark_all m [] = m
mark_all m (k ∷ ks) = mark_all (assign k true m) ks

-- The literal at the end of `loadUnlockContext`.
unfoldable pub unlock_context : PlayerProgress → List String → UnlockContext
unlock_context progress completed = record {
  player_level = progress.level;
  owned_factions = mark_all [] progress.owned_factions;
  completed_episodes = mark_all [] completed;
}

-- A missing episode is reported by the use case's own sentinel.
unfoldable pub find_error : Error → Error
find_error e =
    if is e (port PortError.not_found)
    then sentinel (story StoryError.episode_not_found)
    else wrap "find episode" e

module _ {S : Type 0} (story_repo : StoryRepo S) (script_store : ScriptStore)
    (account : PlayerProgressReader) where
  unfoldable pub load_unlock_context : String → Action S UnlockContext
  unfolding unlock_context
  load_unlock_context player_id = do
    progress ← on_error (wrap "get player progress") (lift account.get_player_progress)
    completed ←
        on_error (wrap "get completed episodes") (story_repo.get_completed_episode_ids player_id)
    pure (unlock_context progress completed)

  unfoldable pub validate_unlock : Episode → String → Action S (Unit {0})
  validate_unlock ep player_id = do
    uc ← load_unlock_context player_id
    require (eqb (length (lock_reasons ep uc)) 0) (sentinel (story StoryError.episode_locked))

  unfoldable pub read_script : String → String → Result String
  read_script path_template lang =
      rewrite_error (wrap "read script")
        (script_store.read_script (replace_all path_template "{lang}" lang))

  unfoldable pub list_episodes : String → String → Action S (List EpisodeWithStatus)
  list_episodes player_id lang = do
    episodes ← on_error (wrap "list episodes") story_repo.list_active_episodes
    uc ← load_unlock_context player_id
    lift (build_episodes_with_status episodes uc lang)

  unfoldable pub get_script : String → String → String → Action S String
  get_script player_id episode_id lang = do
    ep ← on_error find_error (story_repo.find_episode_by_id episode_id)
    require ep.is_active (sentinel (story StoryError.episode_not_found))
    validate_unlock ep player_id
    lift (read_script ep.script_path lang)

  unfoldable pub complete_episode : String → String → Action S (Unit {0})
  complete_episode player_id episode_id = do
    ep ← on_error find_error (story_repo.find_episode_by_id episode_id)
    require ep.is_active (sentinel (story StoryError.episode_not_found))
    validate_unlock ep player_id
    on_error (wrap "mark complete") (story_repo.mark_complete player_id episode_id)
