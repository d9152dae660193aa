-- ===== src/Postgres/StoryRepository.antt =====
-- story_repo.go
pub mod Laws
use overload_party_scenario.Common.{
  ℕ, String, ◌==◌, Bool, true, false, Option, none, some, List, [], ◌∷◌, ◌++◌, map, filter, find?,
  any, ◌&&◌, if◌then◌else◌,
}
use Prim.Native.String
use overload_party_scenario.Common.Int.{leb_ℤ}
use overload_party_scenario.Errors.{
  opaque, Error, Result, ok, err, panic, wrap, sentinel, port, library, no_rows, is, PortError,
  pg_error, rewrite_error,
}
use overload_party_scenario.Errors.Action.{Action, on_error}
use overload_party_scenario.Domain.{Episode}
use overload_party_scenario.Port.{StoryRepo}
use overload_party_scenario.Postgres.{
  Conn, Fault, stage_error, select_active_episodes, select_episode, select_completed,
  insert_progress, exec,
}
use overload_party_scenario.Postgres.Tables.{
  Db, EpisodeRow, RequiredFactionRow, ProgressRow, sort_by,
}

module _ (c : Conn) where
  -- ARRAY(SELECT faction_id ... WHERE episode_id = e.episode_id ORDER BY faction_id)
  unfoldable pub required_factions_of : Db → String → List String
  required_factions_of db id = sort_by c.collates (
      map (λ (r : RequiredFactionRow). r.faction_id)
        (filter (λ r. r.episode_id == id) db.episode_required_factions))

  -- The columns of a selected row, scanned into an Episode.
  unfoldable pub scan_episode : Db → EpisodeRow → Episode
  unfolding required_factions_of
  scan_episode db e = record {
    episode_id = e.episode_id;
    faction = e.faction;
    episode_number = e.episode_number;
    title_ja = e.title_ja;
    title_en = e.title_en;
    required_level = e.required_level;
    required_factions = required_factions_of db e.episode_id;
    required_episodes = e.required_episodes;
    script_path = e.script_path;
    thumbnail_path = e.thumbnail_path;
    sort_order = e.sort_order;
    is_active = e.is_active;
    created_at = e.created_at;
  }

  -- WHERE e.is_active = true ORDER BY e.sort_order
  unfoldable pub active_rows : Db → List EpisodeRow
  active_rows db =
      sort_by (λ a b. leb_ℤ a.sort_order b.sort_order)
        (filter (λ e. e.is_active) db.scenario_episodes)

  unfoldable pub list_active_episodes : Action Db (List Episode)
  unfolding active_rows
  list_active_episodes db = elim (c.fault select_active_episodes) [
    | none ↦ (ok (map (scan_episode db) (active_rows db)), db)
    | some f ↦ (err (stage_error "query episodes" "scan episode" "iterate episodes" f), db)
  ]

  -- WHERE e.episode_id = $1
  unfoldable pub select_row : Db → String → Option EpisodeRow
  select_row db id = find? (λ e. e.episode_id == id) db.scenario_episodes

  -- What row.Scan returns: the row, pgx.ErrNoRows, or a failure.
  unfoldable pub scan_row : Db → Option Fault → Option EpisodeRow → Result Episode
  scan_row db (some f) row = err (opaque f.cause)
  scan_row db none none = err (sentinel (library no_rows))
  scan_row db none (some e) = ok (scan_episode db e)

  abbrev find_error : String → Error → Error
  find_error id e =
      if is e (library no_rows)
      then wrap (String.◌++◌ "episode " id) (sentinel (port PortError.not_found))
      else wrap "query episode by id" e

  unfoldable pub find_episode_by_id : String → Action Db Episode
  unfolding select_row scan_row
  find_episode_by_id id db = (
    rewrite_error (find_error id) (scan_row db (c.fault (select_episode id)) (select_row db id)),
    db,
  )

  -- SELECT episode_id ... WHERE player_id = $1
  unfoldable pub completed_ids : Db → String → List String
  completed_ids db player_id =
      map (λ (r : ProgressRow). r.episode_id)
        (filter (λ r. r.player_id == player_id) db.player_story_progress)

  unfoldable pub get_completed_episode_ids : String → Action Db (List String)
  unfolding completed_ids
  get_completed_episode_ids player_id db = elim (c.fault (select_completed player_id)) [
    | none ↦ (ok (completed_ids db player_id), db)
    | some f ↦ (
      err (stage_error "query completed episodes" "scan episode id" "iterate completed episodes" f),
      db,
    )
  ]

  -- The id of the player is compared as a text; the column's type is UUID.
  -- INSERT ... ON CONFLICT (player_id, episode_id) DO NOTHING, under the reference to
  -- scenario_episodes.
  unfoldable pub insert_progress_row : String → String → Db → Result Db
  insert_progress_row player_id episode_id db =
      if any (λ r. r.player_id == player_id && r.episode_id == episode_id) db.player_story_progress
      then ok db
      else if any (λ e. e.episode_id == episode_id) db.scenario_episodes
      then ok (record db {
        player_story_progress =
            db.player_story_progress
            ++ record {
              player_id = player_id;
              episode_id = episode_id;
              completed_at = c.now (insert_progress player_id episode_id);
            }
              ∷ [];
      })
      else err (pg_error "23503" "violates foreign key constraint")

  unfoldable pub mark_complete : String → String → Action Db (Unit {0})
  unfolding insert_progress_row
  mark_complete player_id episode_id =
      on_error (wrap "mark episode complete")
        (exec c (insert_progress player_id episode_id) (insert_progress_row player_id episode_id))

  -- `var _ port.StoryRepo = (*StoryRepository)(nil)`
  abbrev pub story_repository : StoryRepo Db
  story_repository = record {
    list_active_episodes = list_active_episodes;
    find_episode_by_id = find_episode_by_id;
    get_completed_episode_ids = get_completed_episode_ids;
    mark_complete = mark_complete;
  }
