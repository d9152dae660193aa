-- ===== src/Postgres/StoryRepository/Laws.antt =====
-- The Postgres repository fulfils what the story use case relies on, whatever statements fail.
use overload_party_scenario.Common.{
  String, ◌≡◌, refl, sym, ◌∙◌, ◌⊎◌, inl, inr, Bool, true, false, find?, count_if, count_if-map,
  count_if-filter, Ordered, Option, none, some, List, [], ◌∷◌, ◌++◌, map, filter, any, contains,
  ◌==◌, eq_iff, ◌&&◌, ◌||◌, arith, Bool-cases,
}
use overload_party_scenario.Errors.{Error, ok, err, port, PortError, is}
use overload_party_scenario.Domain.{Episode}
use overload_party_scenario.Port.Laws.{StoryRepoLaws, by_sort_order}
use overload_party_scenario.Postgres.{Conn, tables_after, insert_progress}
use overload_party_scenario.Postgres.Tables.{Db, EpisodeRow, ProgressRow, sort_by}
use overload_party_scenario.Postgres.Sorting.{count_if-sort_by, sort_by-Ordered}
use overload_party_scenario.Common.Int.{leb_ℤ}
use overload_party_scenario.Postgres.StoryRepository.{
  scan_episode, active_rows, list_active_episodes, select_row, find_episode_by_id, completed_ids,
  get_completed_episode_ids, insert_progress_row, mark_complete, story_repository,
}
use mathlib.Core.Option

-- The rows of a player name an episode exactly when some row names both.
abbrev pub has_row : String → String → List ProgressRow → Bool
has_row p id rows = any (λ r. r.player_id == p && r.episode_id == id) rows

abbrev ids_of : String → List ProgressRow → List String
ids_of p rows = map (λ (r : ProgressRow). r.episode_id) (filter (λ r. r.player_id == p) rows)

contains-ids_of :
    (p id : String) (rows : List ProgressRow) → contains (ids_of p rows) id ≡ has_row p id rows
contains-ids_of p id [] = refl
contains-ids_of p id (r ∷ rows) = ground (arith, contains-ids_of p id rows)

has_row-append :
    (p id : String) (rows : List ProgressRow) (r : ProgressRow)
    → has_row p id (rows ++ r ∷ [])
      ≡ (has_row p id rows || (r.player_id == p && r.episode_id == id))
has_row-append p id [] r = ground arith
has_row-append p id (x ∷ rows) r = ground (arith, has_row-append p id rows r)

module _ (c : Conn) where
  abbrev found : Db → String → Option Episode
  found db id = Option.map (scan_episode c db) (select_row c db id)

  abbrev stored : Db → List Episode
  stored db = map (scan_episode c db) db.scenario_episodes

  -- The columns by which the list is selected and ordered are those of the episodes.
  by_order : EpisodeRow → EpisodeRow → Bool
  by_order a b = leb_ℤ a.sort_order b.sort_order

  by_order_total : (a b : EpisodeRow) → by_order a b ≡ false → by_order b a ≡ true
  unfolding by_order
  by_order_total a b h = ground arith

  scanned-Ordered :
      (db : Db) (rows : List EpisodeRow)
      → Ordered by_order rows
      → Ordered by_sort_order (map (scan_episode c db) rows)
  unfolding by_order scan_episode
  scanned-Ordered db [] h = tt
  scanned-Ordered db (r ∷ []) h = h
  scanned-Ordered db (r ∷ (next ∷ rows)) h = (h.0, scanned-Ordered db (next ∷ rows) h.1)

  active_count :
      (db : Db) (p : Episode → Bool)
      → count_if p (map (scan_episode c db) (active_rows c db))
        ≡ count_if (λ ep. ep.is_active && p ep) (stored db)
  unfolding active_rows scan_episode
  active_count db p =
      let q = λ (r : EpisodeRow). p (scan_episode c db r) in
      let active = filter (λ (r : EpisodeRow). r.is_active) db.scenario_episodes in
      count_if-map p (scan_episode c db) (sort_by _ active)
      ∙ (count_if-sort_by _ q active
          ∙ (count_if-filter q (λ r. r.is_active) db.scenario_episodes
              ∙ sym (
                  count_if-map (λ ep. ep.is_active && p ep) (scan_episode c db)
                    db.scenario_episodes)))

  active_rows-Ordered : (db : Db) → Ordered by_order (active_rows c db)
  unfolding active_rows by_order by_order_total
  active_rows-Ordered db =
      sort_by-Ordered by_order by_order_total (filter (λ e. e.is_active) db.scenario_episodes)

  list-eq-ok :
      (db : Db) (eps : List Episode)
      → (list_active_episodes c db).0 ≡ ok eps
      → Ordered by_sort_order eps
        × ((p : Episode → Bool)
            → count_if p eps ≡ count_if (λ ep. ep.is_active && p ep) (stored db))
  unfolding list_active_episodes
  list-eq-ok db eps h =
      let listed : map (scan_episode c db) (active_rows c db) ≡ eps = ground arith in
      rw (← listed)
        (scanned-Ordered db (active_rows c db) (active_rows-Ordered db), active_count db)

  find-eq-ok :
      (id : String) (db : Db) (ep : Episode)
      → (find_episode_by_id c id db).0 ≡ ok ep
      → found db id ≡ some ep
  unfolding find_episode_by_id
  find-eq-ok id db ep h = ground arith

  find-eq-not_found :
      (id : String) (db : Db) (e : Error)
      → (find_episode_by_id c id db).0 ≡ err e
      → is e (port PortError.not_found) ≡ true
      → found db id ≡ none
  unfolding find_episode_by_id
  find-eq-not_found id db e h k = ground arith

  completed-eq-ok :
      (p : String) (db : Db) (ids : List String)
      → (get_completed_episode_ids c p db).0 ≡ ok ids
      → ids ≡ completed_ids c db p
  unfolding get_completed_episode_ids
  completed-eq-ok p db ids h = ground arith

  abbrev pub with_progress : String → String → Db → Db
  with_progress p id db = record db {
    player_story_progress =
        db.player_story_progress
        ++ record { player_id = p; episode_id = id; completed_at = c.now (insert_progress p id) }
          ∷ [];
  }

  insert_cases :
      (p id : String) (db : Db)
      → (tables_after (insert_progress_row c p id db) db ≡ db)
        ⊎ (tables_after (insert_progress_row c p id db) db ≡ with_progress p id db)
  unfolding insert_progress_row
  insert_cases p id db = elim (Bool-cases (has_row p id db.player_story_progress)) [
    | inl old ↦ inl (rw old)
    | inr new ↦ elim (Bool-cases (any (λ e. e.episode_id == id) db.scenario_episodes)) [
      | inl known ↦ inr (rw (new, known))
      | inr unknown ↦ inl (rw (new, unknown))
    ]
  ]

  -- A completion leaves the tables alone or adds one row, whatever its outcome.
  pub mark_complete_cases :
      (p id : String) (db : Db)
      → ((mark_complete c p id db).1 ≡ db) ⊎ ((mark_complete c p id db).1 ≡ with_progress p id db)
  unfolding mark_complete
  mark_complete_cases p id db = ground (arith, insert_cases p id db)

  has_row-with_progress :
      (p id : String) (db : Db) (q k : String)
      → has_row q k (with_progress p id db).player_story_progress
        ≡ (has_row q k db.player_story_progress || (p == q && id == k))
  has_row-with_progress p id db q k = has_row-append q k db.player_story_progress _

  mark-eq-ok :
      (p id : String) (db : Db)
      → (mark_complete c p id db).0 ≡ ok tt
      → has_row p id (mark_complete c p id db).1.player_story_progress ≡ true
  unfolding mark_complete insert_progress_row
  mark-eq-ok p id db h =
      ground (arith, has_row-with_progress p id db p id, eq_iff p p, eq_iff id id)

  mark_keeps :
      (p id : String) (db : Db) (q k : String)
      → has_row q k db.player_story_progress ≡ true
      → has_row q k (mark_complete c p id db).1.player_story_progress ≡ true
  mark_keeps p id db q k h = elim (mark_complete_cases p id db) [
    | inl same ↦ rw same h
    | inr added ↦ rw (added, has_row-with_progress p id db q k, h)
  ]

  mark_only :
      (p id : String) (db : Db) (q k : String)
      → has_row q k (mark_complete c p id db).1.player_story_progress ≡ true
      → (has_row q k db.player_story_progress ≡ true) ⊎ ((p ≡ q) × (id ≡ k))
  mark_only p id db q k h = elim (mark_complete_cases p id db) [
    | inl same ↦ inl (rw same at h)
    | inr added ↦
        let h' = rw (added, has_row-with_progress p id db q k) at h in
        ground (arith, h', eq_iff p q, eq_iff id k)
  ]

  mark-found :
      (p id : String) (db : Db) (k : String) → found (mark_complete c p id db).1 k ≡ found db k
  unfolding scan_episode select_row
  mark-found p id db k = elim (mark_complete_cases p id db) [
    | inl same ↦ rw same
    | inr added ↦ rw added
  ]

  pub contains-completed_ids :
      (db : Db) (p id : String)
      → contains (completed_ids c db p) id ≡ has_row p id db.player_story_progress
  unfolding completed_ids
  contains-completed_ids db p id = contains-ids_of p id db.player_story_progress

  pub repository_laws : StoryRepoLaws (story_repository c)
  unfolding list_active_episodes find_episode_by_id get_completed_episode_ids
  repository_laws = record {
    stored = stored;
    found = found;
    completed = completed_ids c;
    list_reads = λ db. ground arith;
    find_reads = λ id db. refl;
    completed_reads = λ p db. ground arith;
    list-eq-ok = list-eq-ok;
    find-eq-ok = find-eq-ok;
    find-eq-not_found = find-eq-not_found;
    completed-eq-ok = completed-eq-ok;
    mark-eq-ok = λ p id db h. rw contains-completed_ids (mark-eq-ok p id db h);
    mark_keeps = λ p id db q k h.
        rw contains-completed_ids (mark_keeps p id db q k (rw contains-completed_ids at h));
    mark_only = λ p id db q k h.
        rw contains-completed_ids (mark_only p id db q k (rw contains-completed_ids at h));
    mark-found = mark-found;
  }

  -- The view of the completions is what the table holds.
  pub completed_view :
      (db : Db) (p : String) → repository_laws.completed db p ≡ completed_ids c db p
  unfolding repository_laws
  completed_view db p = refl

  pub found_view :
      (db : Db) (id : String)
      → repository_laws.found db id
        ≡ Option.map (scan_episode c db) (find? (λ e. e.episode_id == id) db.scenario_episodes)
  unfolding repository_laws select_row
  found_view db id = refl

  pub stored_view :
      (db : Db) → repository_laws.stored db ≡ map (scan_episode c db) db.scenario_episodes
  unfolding repository_laws
  stored_view db = refl

  -- Whatever statements fail, the Postgres repository keeps the laws that the story use case relies
  -- on, where the episodes are the rows of their table, the episode of an id is its row, and the
  -- completed ids of a player are those of the player's rows: reads change nothing and tell what the
  -- tables hold, a list is of the active episodes, by `sort_order`, a completion that succeeds is
  -- recorded, and no call loses a completion, records another one or changes an episode.
  pub story_repository_laws :
      (laws : StoryRepoLaws (story_repository c)) × ((db : Db) (id : String)
        → laws.found db id
          ≡ Option.map (scan_episode c db) (find? (λ e. e.episode_id == id) db.scenario_episodes))
      × ((db : Db) (p : String) → laws.completed db p ≡ completed_ids c db p)
      × ((db : Db) → laws.stored db ≡ map (scan_episode c db) db.scenario_episodes)
  story_repository_laws = (repository_laws, found_view, completed_view, stored_view)
