-- ===== src/Story/Tables.antt =====
-- Completions over the Postgres tables: what a completion request may change, and the record of
-- completions as rows.
use overload_party_scenario.Common.{
  String, ◌==◌, ◌≡◌, refl, sym, ◌∙◌, inl, inr, true, none, some, contains, find?, All, All-map,
  Option-cases,
}
use overload_party_scenario.Errors.{wrap}
use overload_party_scenario.Errors.Action.{on_error}
use overload_party_scenario.Domain.{Episode}
use overload_party_scenario.Port.{ScriptStore, PlayerProgressReader}
use overload_party_scenario.Postgres.{Conn}
use overload_party_scenario.Postgres.Tables.{Db, EpisodeRow}
use overload_party_scenario.Postgres.StoryRepository.{
  story_repository, scan_episode, select_row, mark_complete,
}
use overload_party_scenario.Postgres.StoryRepository.Laws.{
  has_row, repository_laws, mark_complete_cases, contains-completed_ids, completed_view, found_view,
}
use overload_party_scenario.Story.{complete_episode}
use overload_party_scenario.Story.Access.{with_access-keeps}
use overload_party_scenario.Story.Progress.{IsClosed, complete_episode-IsClosed}

-- Each episode that a player has completed has all its required episodes completed.
abbrev pub IsOrdered : Db → Type 0
IsOrdered db =
    (q k : String) (e : EpisodeRow)
    → has_row q k db.player_story_progress ≡ true
    → find? (λ x. x.episode_id == k) db.scenario_episodes ≡ some e
    → All (λ r. has_row q r db.player_story_progress ≡ true) e.required_episodes

some_injective : {A : Type 0} {a b : A} → some a ≡ some b → a ≡ b
some_injective h = cc

module _ (c : Conn) (store : ScriptStore) (account : PlayerProgressReader) where
  abbrev IsClosedHere : Db → Type 0
  IsClosedHere db = IsClosed (story_repository c) (repository_laws c) store account db

  rows_of_view :
      (db : Db) (q k : String)
      → contains ((repository_laws c).completed db q) k ≡ has_row q k db.player_story_progress
  rows_of_view db q k = rw completed_view (contains-completed_ids c db q k)

  IsClosed-IsOrdered : (db : Db) → IsClosedHere db → IsOrdered db
  unfolding select_row scan_episode
  IsClosed-IsOrdered db closed q k e h found =
      All-map (λ r t. sym (rows_of_view db q r) ∙ t) e.required_episodes
        (closed q k (scan_episode c db e) (rows_of_view db q k ∙ h) (rw (found_view, found) refl))

  IsOrdered-IsClosed : (db : Db) → IsOrdered db → IsClosedHere db
  unfolding select_row scan_episode
  IsOrdered-IsClosed db ordered q k ep h found =
      elim (Option-cases (find? (λ x. x.episode_id == k) db.scenario_episodes)) [
        | inl e ↦ absurd (missing (rw (found_view, e) at found))
        | inr (row, e) ↦
            let same : scan_episode c db row ≡ ep = some_injective (rw (found_view, e) at found) in
            rw (← same) (
              All-map (λ r t. rows_of_view db q r ∙ t) row.required_episodes
                (ordered q k row (sym (rows_of_view db q k) ∙ h) e))
      ]
    where
      missing : {x : Episode} → none ≡ some x → ⊥
      missing h' = cc

  -- If each completed episode of each player has its required episodes completed, then it stays so
  -- after a completion request over the Postgres tables.
  pub complete_episode-IsOrdered :
      (p id : String) (db : Db)
      → IsOrdered db
      → IsOrdered (complete_episode (story_repository c) store account p id db).1
  complete_episode-IsOrdered p id db ordered =
      IsClosed-IsOrdered (complete_episode (story_repository c) store account p id db).1 (
        complete_episode-IsClosed (story_repository c) (repository_laws c) store account p id db
          (IsOrdered-IsClosed db ordered))

  -- A completion request changes neither the outbox nor the onboarding.
  pub complete_episode-others :
      (p id : String) (db : Db)
      → ((complete_episode (story_repository c) store account p id db).1.outbox_events
          ≡ db.outbox_events)
        × ((complete_episode (story_repository c) store account p id db).1.player_onboarding
            ≡ db.player_onboarding)
  unfolding complete_episode
  complete_episode-others p id db =
      with_access-keeps (story_repository c) (repository_laws c) store account id p
        (λ ep. on_error (wrap "mark complete") (mark_complete c p id)) db
        (λ d. (d.outbox_events ≡ db.outbox_events) × (d.player_onboarding ≡ db.player_onboarding))
        (refl, refl)
        λ ep e m. elim (mark_complete_cases c p id db) [
          | inl same ↦ rw same (refl, refl)
          | inr added ↦ rw added (refl, refl)
        ]
