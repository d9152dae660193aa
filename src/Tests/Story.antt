-- ===== src/Tests/Story.antt =====
-- The episodes at concrete inputs.
use mathlib.Core.Option
use overload_party_scenario.Common.{
  List, All, find?, ◌==◌, Bool, ◌&&◌, count_if, Ordered, String, ◌≡◌, refl, ◌↔◌, true, some, [],
  ◌∷◌, ◌++◌, map, contains,
}
use overload_party_scenario.Errors.{ok, err, wrap}
use overload_party_scenario.Errors.Action.{on_error}
use overload_party_scenario.Common.Int.{pos}
use overload_party_scenario.Story.ReplaceAll.{replace_all}
use overload_party_scenario.Domain.{Episode, lock_reasons, faction_reason, episode_reason}
use overload_party_scenario.Domain.Unlock.{
  IsMet, lock_reasons-eq-nil_iff, lock_reasons-eq_unmet, level_part, missing,
}
use overload_party_scenario.ApiScenario.{EpisodeWithStatus}
use overload_party_scenario.Presenter.{build_episode_with_status}
use overload_party_scenario.Presenter.Episodes.{
  build_episode_with_status_unlocked, build_episodes_with_status-eq, wire_reasons, status,
}
use overload_party_scenario.Port.{StoryRepo, PlayerProgress}
use overload_party_scenario.Postgres.Tables.{Db}
use overload_party_scenario.Port.Laws.{StoryRepoLaws, by_sort_order}
use overload_party_scenario.Postgres.StoryRepository.{
  list_active_episodes, active_rows, story_repository, mark_complete, find_episode_by_id,
  select_row, scan_row, scan_episode, required_factions_of, get_completed_episode_ids,
  completed_ids, insert_progress_row,
}
use overload_party_scenario.Postgres.StoryRepository.Laws.{
  repository_laws, story_repository_laws, completed_view, found_view,
}
use overload_party_scenario.Story.Listing.{list_episodes_sound}
use overload_party_scenario.Story.{
  list_episodes, unlock_context, load_unlock_context, validate_unlock, read_script, get_script,
  complete_episode,
}
use overload_party_scenario.Story.Access.{MayAccess, complete_episode_sound, get_script_sound}
use overload_party_scenario.Story.Decision.{
  Reads, locked, get_script_decides, complete_episode_decides,
}
use overload_party_scenario.Story.Progress.{IsClosed, complete_episode-IsClosed}
use overload_party_scenario.Tests.{
  episode_row, healthy, sample_db, script_store, account, episode, context,
}

abbrev R : StoryRepo Db
R = story_repository healthy

abbrev laws : StoryRepoLaws R
laws = repository_laws healthy

completes : (complete_episode R script_store account "p1" "ep1" sample_db).0 ≡ ok tt
unfolding complete_episode find_episode_by_id select_row scan_row scan_episode required_factions_of
    validate_unlock load_unlock_context unlock_context get_completed_episode_ids completed_ids
    lock_reasons mark_complete insert_progress_row
completes = refl

complete_episode_sound_example :
    (ep : Episode) × (laws.found sample_db "ep1" ≡ some ep)
    × MayAccess R laws script_store account sample_db "p1" ep
    × (contains
          (laws.completed (complete_episode R script_store account "p1" "ep1" sample_db).1 "p1")
          "ep1"
        ≡ true)
complete_episode_sound_example =
    complete_episode_sound R laws script_store account "p1" "ep1" sample_db completes

-- Nothing is completed yet.
sample_db-IsClosed : IsClosed R laws script_store account sample_db
unfolding completed_ids
sample_db-IsClosed q k ep h e = absurd (none_completed (rw completed_view at h))
  where
    none_completed : contains (completed_ids healthy sample_db q) k ≡ true → ⊥
    none_completed e' = cc

-- The first episode is completed, and then the second.
abbrev after_first : Db
after_first = (complete_episode R script_store account "p1" "ep1" sample_db).1

after_first-IsClosed : IsClosed R laws script_store account after_first
after_first-IsClosed =
    complete_episode-IsClosed R laws script_store account "p1" "ep1" sample_db sample_db-IsClosed

abbrev after_second : Db
after_second = (complete_episode R script_store account "p1" "ep2" after_first).1

completes_second : (complete_episode R script_store account "p1" "ep2" after_first).0 ≡ ok tt
unfolding complete_episode find_episode_by_id select_row scan_row scan_episode required_factions_of
    validate_unlock load_unlock_context unlock_context get_completed_episode_ids completed_ids
    lock_reasons mark_complete insert_progress_row
completes_second = refl

second_completed : contains (laws.completed after_second "p1") "ep2" ≡ true
unfolding complete_episode find_episode_by_id select_row scan_row scan_episode required_factions_of
    validate_unlock load_unlock_context unlock_context get_completed_episode_ids completed_ids
    lock_reasons mark_complete insert_progress_row
second_completed = rw completed_view refl

-- The second episode, as a request reads it.
abbrev pub second : Episode
second = scan_episode healthy sample_db (episode_row "ep2" ("ep1" ∷ []))

second_found : laws.found after_second "ep2" ≡ some second
unfolding complete_episode find_episode_by_id select_row scan_row scan_episode required_factions_of
    validate_unlock load_unlock_context unlock_context get_completed_episode_ids completed_ids
    lock_reasons mark_complete insert_progress_row
second_found = rw found_view refl

complete_episode-IsClosed_example :
    All (λ r. contains (laws.completed after_second "p1") r ≡ true) second.required_episodes
complete_episode-IsClosed_example =
    complete_episode-IsClosed R laws script_store account "p1" "ep2" after_first
      after_first-IsClosed "p1" "ep2" second second_completed second_found

reads_text :
    (get_script R script_store account "p1" "ep1" "en" sample_db).0 ≡ ok "scripts/en/prologue.ks"
unfolding get_script read_script replace_all find_episode_by_id select_row scan_row scan_episode
    required_factions_of validate_unlock load_unlock_context unlock_context
    get_completed_episode_ids completed_ids lock_reasons
reads_text = refl

get_script_sound_example :
    (ep : Episode) × (laws.found sample_db "ep1" ≡ some ep)
    × MayAccess R laws script_store account sample_db "p1" ep
    × (read_script R script_store account ep.script_path "en" ≡ ok "scripts/en/prologue.ks")
    × ((get_script R script_store account "p1" "ep1" "en" sample_db).1 ≡ sample_db)
get_script_sound_example =
    get_script_sound R laws script_store account "p1" "ep1" "en" sample_db reads_text

abbrev pub progress : PlayerProgress
progress = record { level = pos 5; owned_factions = "red" ∷ [] }

pub second-Reads : Reads R laws script_store account "p1" "ep2" sample_db second progress []
unfolding find_episode_by_id select_row scan_row scan_episode get_completed_episode_ids
    completed_ids
second-Reads = record { episode = refl; is_active = refl; answered = refl; recorded = refl }

get_script_decides_example :
    (IsMet second (unlock_context progress [])
      → get_script R script_store account "p1" "ep2" "ja" sample_db
        ≡ (read_script R script_store account second.script_path "ja", sample_db))
    × (¬ IsMet second (unlock_context progress [])
        → get_script R script_store account "p1" "ep2" "ja" sample_db ≡ (err locked, sample_db))
get_script_decides_example =
    get_script_decides R laws script_store account "p1" "ep2" sample_db second-Reads "ja"

complete_episode_decides_example :
    (IsMet second (unlock_context progress [])
      → complete_episode R script_store account "p1" "ep2" sample_db
        ≡ on_error (wrap "mark complete") (R.mark_complete "p1" "ep2") sample_db)
    × (¬ IsMet second (unlock_context progress [])
        → complete_episode R script_store account "p1" "ep2" sample_db ≡ (err locked, sample_db))
complete_episode_decides_example =
    complete_episode_decides R laws script_store account "p1" "ep2" sample_db second-Reads

lock_reasons-eq-nil_iff_example : (lock_reasons episode context ≡ []) ↔ IsMet episode context
lock_reasons-eq-nil_iff_example = lock_reasons-eq-nil_iff episode context

lock_reasons-eq_unmet_example :
    lock_reasons episode context
    ≡ level_part episode.required_level context.player_level
      ++ (map faction_reason (missing context.owned_factions episode.required_factions)
          ++ map episode_reason (missing context.completed_episodes episode.required_episodes))
lock_reasons-eq_unmet_example = lock_reasons-eq_unmet episode context

story_repository_laws_example :
    (k : StoryRepoLaws (story_repository healthy)) × ((db : Db) (id : String)
      → k.found db id
        ≡ Option.map
            (scan_episode healthy db)
            (find? (λ e. e.episode_id == id) db.scenario_episodes))
    × ((db : Db) (p : String) → k.completed db p ≡ completed_ids healthy db p)
    × ((db : Db) → k.stored db ≡ map (scan_episode healthy db) db.scenario_episodes)
story_repository_laws_example = story_repository_laws healthy

build_episode_with_status_unlocked_example :
    (row : EpisodeWithStatus) × (build_episode_with_status episode context "en" ≡ ok row)
    × ((row.is_unlocked ≡ true) ↔ IsMet episode context)
    × (row.lock_reasons ≡ wire_reasons episode context)
build_episode_with_status_unlocked_example = build_episode_with_status_unlocked episode context "en"

abbrev episodes : List Episode
episodes = scan_episode healthy sample_db (episode_row "ep1" []) ∷ second ∷ []

abbrev rows : List EpisodeWithStatus
rows = map (λ ep. status ep (unlock_context progress []) "en") episodes

lists : (list_episodes R script_store account "p1" "en" sample_db).0 ≡ ok rows
unfolding list_episodes list_active_episodes active_rows scan_episode required_factions_of
    load_unlock_context get_completed_episode_ids completed_ids
lists = build_episodes_with_status-eq episodes (unlock_context progress []) "en"

list_episodes_sound_example :
    (eps : List Episode) × (pr : PlayerProgress) × ((R.list_active_episodes sample_db).0 ≡ ok eps)
    × (Ordered by_sort_order eps
        × ((q : Episode → Bool)
            → count_if q eps ≡ count_if (λ ep. ep.is_active && q ep) (laws.stored sample_db)))
    × (account.get_player_progress ≡ ok pr)
    × (rows ≡ map (λ ep. status ep (unlock_context pr (laws.completed sample_db "p1")) "en") eps)
    × ((ep : Episode)
        → ((status ep (unlock_context pr (laws.completed sample_db "p1")) "en").is_unlocked ≡ true)
          ↔ IsMet ep (unlock_context pr (laws.completed sample_db "p1")))
list_episodes_sound_example =
    list_episodes_sound R laws script_store account "p1" "en" sample_db lists
