-- ===== src/Story/Decision.antt =====
-- What a request is answered once the episode, the account's answer and the completions are read:
-- the own step if the conditions are met, and the locked error if they are not.
use overload_party_scenario.Common.{
  String, ◌≡◌, true, false, List, ◌∙◌, length, length-eq-zero, eqb, Bool-cases, inl, inr,
}
use overload_party_scenario.Errors.{Error, ok, err, sentinel, story, StoryError, wrap}
use overload_party_scenario.Errors.Action.{Action, lift, on_error, require}
use overload_party_scenario.Errors.Action.Inversion.{>>=-read, require-state}
use overload_party_scenario.Domain.{Episode, lock_reasons}
use overload_party_scenario.Domain.Unlock.{IsMet, lock_reasons-eq-nil_iff}
use overload_party_scenario.Port.{StoryRepo, ScriptStore, PlayerProgressReader, PlayerProgress}
use overload_party_scenario.Port.Laws.{StoryRepoLaws}
use overload_party_scenario.Story.{
  unlock_context, find_error, load_unlock_context, validate_unlock, read_script, get_script,
  complete_episode,
}
use overload_party_scenario.Story.Access.{with_access, with_access-eq}

abbrev pub locked : Error
locked = sentinel (story StoryError.episode_locked)

abbrev pub missing_episode : Error
missing_episode = sentinel (story StoryError.episode_not_found)

module _ {S : Type 0} (R : StoryRepo S) (laws : StoryRepoLaws R) (store : ScriptStore)
    (account : PlayerProgressReader) (p id : String) (s : S) where
  -- The episode, the account's answer and the completions, as the request reads them.
  pub record Reads (ep : Episode) (progress : PlayerProgress) (ids : List String) : Type 0 where
    pub episode : (R.find_episode_by_id id s).0 ≡ ok ep
    pub is_active : ep.is_active ≡ true
    pub answered : account.get_player_progress ≡ ok progress
    pub recorded : (R.get_completed_episode_ids p s).0 ≡ ok ids

  module _ {ep : Episode} {progress : PlayerProgress} {ids : List String}
      (r : Reads ep progress ids) where
    load_unlock_context-eq :
        load_unlock_context R store account p s ≡ (ok (unlock_context progress ids), s)
    unfolding load_unlock_context
    load_unlock_context-eq = rw (r.answered, r.recorded, laws.completed_reads p s)

    validate_unlock-eq :
        validate_unlock R store account ep p s
        ≡ require (eqb (length (lock_reasons ep (unlock_context progress ids))) 0) locked s
    unfolding validate_unlock
    validate_unlock-eq = rw load_unlock_context-eq

    validate_unlock_met :
        IsMet ep (unlock_context progress ids) → (validate_unlock R store account ep p s).0 ≡ ok tt
    validate_unlock_met m =
        rw (validate_unlock-eq, (length-eq-zero _).1 ((lock_reasons-eq-nil_iff ep _).1 m))

    not_met :
        ¬ IsMet ep (unlock_context progress ids)
        → eqb (length (lock_reasons ep (unlock_context progress ids))) 0 ≡ false
    not_met n = elim (Bool-cases (eqb (length (lock_reasons ep (unlock_context progress ids))) 0)) [
      | inl e ↦ absurd (n ((lock_reasons-eq-nil_iff ep _).0 ((length-eq-zero _).0 e)))
      | inr e ↦ e
    ]

    with_access-locked :
        {A : Type 0} (k : Episode → Action S A)
        → ¬ IsMet ep (unlock_context progress ids)
        → with_access R laws store account id p k s ≡ (err locked, s)
    with_access-locked k n =
        >>=-read (on_error find_error (R.find_episode_by_id id)) _ s {a = ep} (laws.find_reads id s)
          (rw r.episode)
        ∙ (>>=-read (require ep.is_active missing_episode) _ s (require-state _ _ s)
              (rw r.is_active)
            ∙ rw (validate_unlock-eq, not_met n))

    -- Where an active episode, the account's answer and the completions are read, a script request
    -- is answered by what the store has at the episode's path if the conditions of the episode are
    -- met, and by the locked error if not; it changes nothing either way.
    pub get_script_decides :
        (lang : String)
        → (IsMet ep (unlock_context progress ids)
            → get_script R store account p id lang s
              ≡ (read_script R store account ep.script_path lang, s))
          × (¬ IsMet ep (unlock_context progress ids)
              → get_script R store account p id lang s ≡ (err locked, s))
    unfolding get_script
    get_script_decides lang = (
      λ m.
          with_access-eq R laws store account id p _ s r.episode r.is_active
            (validate_unlock_met m),
      with_access-locked (λ ep. lift (read_script R store account ep.script_path lang)),
    )

    -- Where an active episode, the account's answer and the completions are read, a completion is
    -- handed to the repository if the conditions of the episode are met, and is refused by the locked
    -- error, with the state unchanged, if not.
    pub complete_episode_decides :
        (IsMet ep (unlock_context progress ids)
          → complete_episode R store account p id s
            ≡ on_error (wrap "mark complete") (R.mark_complete p id) s)
        × (¬ IsMet ep (unlock_context progress ids)
            → complete_episode R store account p id s ≡ (err locked, s))
    unfolding complete_episode
    complete_episode_decides = (
      λ m.
          with_access-eq R laws store account id p _ s r.episode r.is_active
            (validate_unlock_met m),
      with_access-locked (λ ep. on_error (wrap "mark complete") (R.mark_complete p id)),
    )
