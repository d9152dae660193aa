-- ===== src/Story/Reading.antt =====
-- The requests that only read.
use overload_party_scenario.Common.{String, ◌≡◌, ◌∙◌}
use overload_party_scenario.Errors.{wrap, sentinel, story, StoryError}
use overload_party_scenario.Errors.Action.{on_error, require}
use overload_party_scenario.Errors.Action.Inversion.{>>=-keeps, require-state}
use overload_party_scenario.Port.{StoryRepo, ScriptStore, PlayerProgressReader}
use overload_party_scenario.Port.Laws.{StoryRepoLaws}
use overload_party_scenario.Story.{
  load_unlock_context, list_episodes, get_script, validate_unlock, find_error,
}
use overload_party_scenario.Story.Access.{load_unlock_context-state, validate_unlock-state}

module _ {S : Type 0} (R : StoryRepo S) (laws : StoryRepoLaws R) (store : ScriptStore)
    (account : PlayerProgressReader) (p : String) where
  pub list_episodes-state : (lang : String) (s : S) → (list_episodes R store account p lang s).1 ≡ s
  unfolding list_episodes
  list_episodes-state lang s =
      >>=-keeps (λ t. t ≡ s) (on_error (wrap "list episodes") R.list_active_episodes) _ s
        (laws.list_reads s)
        λ episodes _.
          >>=-keeps (λ t. t ≡ s) (load_unlock_context R store account p) _ _
            (load_unlock_context-state R laws store account p _ ∙ laws.list_reads s)
            λ uc _. load_unlock_context-state R laws store account p _ ∙ laws.list_reads s

  pub get_script-state : (id lang : String) (s : S) → (get_script R store account p id lang s).1 ≡ s
  unfolding get_script
  get_script-state id lang s =
      let found = laws.find_reads id s in
      >>=-keeps (λ t. t ≡ s) (on_error find_error (R.find_episode_by_id id)) _ s found
        λ ep _.
          >>=-keeps (λ t. t ≡ s)
            (require ep.is_active (sentinel (story StoryError.episode_not_found))) _ _
            (require-state _ _ _ ∙ found)
            λ _ _.
              >>=-keeps (λ t. t ≡ s) (validate_unlock R store account ep p) _ _
                (validate_unlock-state R laws store account ep p _ ∙ (require-state _ _ _ ∙ found))
                λ _ _.
                  validate_unlock-state R laws store account ep p _ ∙ (require-state _ _ _ ∙ found)
