-- ===== src/Story/Listing.antt =====
-- The list of episodes agrees with what a player may do.
use overload_party_scenario.Common.{
  String, ◌≡◌, sym, ◌∙◌, ◌↔◌, true, Bool, ◌&&◌, List, map, count_if, Ordered,
}
use overload_party_scenario.Errors.{ok, wrap, ok-injective}
use overload_party_scenario.Errors.Action.{on_error}
use overload_party_scenario.Errors.Action.Inversion.{>>=-read-eq-ok, rewrite_error-eq-ok}
use overload_party_scenario.Domain.{Episode}
use overload_party_scenario.Domain.Unlock.{IsMet}
use overload_party_scenario.ApiScenario.{EpisodeWithStatus}
use overload_party_scenario.Presenter.Episodes.{
  status, build_episodes_with_status-eq, is_unlocked_iff,
}
use overload_party_scenario.Port.{StoryRepo, ScriptStore, PlayerProgressReader, PlayerProgress}
use overload_party_scenario.Port.Laws.{StoryRepoLaws, by_sort_order}
use overload_party_scenario.Story.{unlock_context, load_unlock_context, list_episodes}
use overload_party_scenario.Story.Access.{load_unlock_context-eq-ok, load_unlock_context-state}

module _ {S : Type 0} (R : StoryRepo S) (laws : StoryRepoLaws R) (store : ScriptStore)
    (account : PlayerProgressReader) where
  open laws use {completed, stored}

  -- A list that is returned has one row for each active episode, as often as it is stored, ordered
  -- by `sort_order`, by the account's answer and the player's recorded completions, and a row is
  -- shown as unlocked exactly when the player meets the conditions of its episode.
  pub list_episodes_sound :
      (p lang : String) (s : S) {rows : List EpisodeWithStatus}
      → (list_episodes R store account p lang s).0 ≡ ok rows
      → (episodes : List Episode) × (progress : PlayerProgress) × ((R.list_active_episodes s).0
          ≡ ok episodes)
        × (Ordered by_sort_order episodes
            × ((q : Episode → Bool)
                → count_if q episodes ≡ count_if (λ ep. ep.is_active && q ep) (stored s)))
        × (account.get_player_progress ≡ ok progress)
        × (rows ≡ map (λ ep. status ep (unlock_context progress (completed s p)) lang) episodes)
        × ((ep : Episode)
            → ((status ep (unlock_context progress (completed s p)) lang).is_unlocked ≡ true)
              ↔ IsMet ep (unlock_context progress (completed s p)))
  unfolding list_episodes
  list_episodes_sound p lang s h =
      let (episodes, e1, h1) =
        >>=-read-eq-ok (on_error (wrap "list episodes") R.list_active_episodes) _ s
          (laws.list_reads s) h in
      let (uc, e2, h2) =
        >>=-read-eq-ok (load_unlock_context R store account p) _ s
          (load_unlock_context-state R laws store account p s) h1 in
      let (progress, answered, is_uc) = load_unlock_context-eq-ok R laws store account p s uc e2 in
      (
        episodes,
        progress,
        rewrite_error-eq-ok _ _ e1,
        laws.list-eq-ok s episodes (rewrite_error-eq-ok _ _ e1),
        answered,
        rw (← is_uc) (ok-injective (sym h2 ∙ build_episodes_with_status-eq episodes uc lang)),
        λ ep. is_unlocked_iff ep (unlock_context progress (completed s p)) lang,
      )
