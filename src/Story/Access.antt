-- ===== src/Story/Access.antt =====
-- When a script is served or a completion is recorded: only for an active episode whose conditions
-- the player meets, and then always.
use overload_party_scenario.Common.{
  ap, String, ◌≡◌, true, some, contains, length-eq-zero, sym, arith, ◌∙◌,
}
use overload_party_scenario.Errors.{ok, sentinel, story, StoryError, wrap}
use overload_party_scenario.Errors.Action.{Action, lift, on_error, require, ◌>>=◌, ◌>>◌}
use overload_party_scenario.Errors.{ok-injective}
use overload_party_scenario.Errors.Action.Inversion.{
  >>=-eq-ok, >>=-read, >>=-read-eq-ok, >>=-keeps, rewrite_error-eq-ok, require-eq-ok, require-state,
}
use overload_party_scenario.Domain.{Episode, UnlockContext, lock_reasons}
use overload_party_scenario.Domain.Unlock.{IsMet, lock_reasons-eq-nil_iff}
use overload_party_scenario.Port.{StoryRepo, ScriptStore, PlayerProgressReader, PlayerProgress}
use overload_party_scenario.Port.Laws.{StoryRepoLaws}
use overload_party_scenario.Story.{
  unlock_context, find_error, load_unlock_context, validate_unlock, read_script, get_script,
  complete_episode,
}

module _ {S : Type 0} (R : StoryRepo S) (laws : StoryRepoLaws R) (store : ScriptStore)
    (account : PlayerProgressReader) where
  open laws use {found, completed}

  -- The episode is there and active, and the account's answer and the recorded completions meet its
  -- conditions.
  pub record MayAccess (s : S) (p : String) (ep : Episode) : Type 0 where
    pub is_active : ep.is_active ≡ true
    pub progress : PlayerProgress
    pub answered : account.get_player_progress ≡ ok progress
    pub met : IsMet ep (unlock_context progress (completed s p))

  pub load_unlock_context-eq-ok :
      (p : String) (s : S) (uc : UnlockContext)
      → (load_unlock_context R store account p s).0 ≡ ok uc
      → (progress : PlayerProgress) × (account.get_player_progress ≡ ok progress)
        × (uc ≡ unlock_context progress (completed s p))
  unfolding load_unlock_context
  load_unlock_context-eq-ok p s uc h =
      let (progress, h1, rest, _) =
        >>=-eq-ok (on_error (wrap "get player progress") (lift account.get_player_progress)) _ s
          h in
      let (ids, h2, made, _) =
        >>=-eq-ok (on_error (wrap "get completed episodes") (R.get_completed_episode_ids p)) _ s
          rest in
      (
        progress,
        rewrite_error-eq-ok _ _ h1,
        rw (← laws.completed-eq-ok p s ids (rewrite_error-eq-ok _ _ h2)) (sym (ok-injective made)),
      )

  pub load_unlock_context-state :
      (p : String) (s : S) → (load_unlock_context R store account p s).1 ≡ s
  unfolding load_unlock_context
  load_unlock_context-state p s = ground (arith, laws.completed_reads p s)

  validate_unlock-eq-ok :
      (ep : Episode) (p : String) (s : S)
      → (validate_unlock R store account ep p s).0 ≡ ok tt
      → ep.is_active ≡ true
      → MayAccess s p ep
  unfolding validate_unlock
  validate_unlock-eq-ok ep p s h a =
      let (uc, h1, passed, _) = >>=-eq-ok (load_unlock_context R store account p) _ s h in
      let (progress, answered, uc_is) = load_unlock_context-eq-ok p s uc h1 in
      let unlocked = (length-eq-zero (lock_reasons ep uc)).0 (require-eq-ok _ _ _ passed) in
      record {
        is_active = a;
        progress = progress;
        answered = answered;
        met = rw uc_is at ((lock_reasons-eq-nil_iff ep uc).0 unlocked);
      }

  pub validate_unlock-state :
      (ep : Episode) (p : String) (s : S) → (validate_unlock R store account ep p s).1 ≡ s
  unfolding validate_unlock
  validate_unlock-state ep p s = ground (arith, load_unlock_context-state p s)

  -- The steps that get_script and complete_episode share, before the step `k` of their own.
  abbrev pub with_access : {A : Type 0} → String → String → (Episode → Action S A) → Action S A
  with_access id p k = do
    ep ← on_error find_error (R.find_episode_by_id id)
    require ep.is_active (sentinel (story StoryError.episode_not_found))
    validate_unlock R store account ep p
    k ep

  module _ {A : Type 0} (id p : String) (k : Episode → Action S A) (s : S) where
    -- The own step is reached only for an accessible episode, and in the state of the request.
    pub with_access-keeps :
        (P : S → Type 0)
        → P s
        → ((ep : Episode) → found s id ≡ some ep → MayAccess s p ep → P (k ep s).1)
        → P (with_access id p k s).1
    with_access-keeps P here own =
        >>=-keeps P (on_error find_error (R.find_episode_by_id id)) _ s (rw laws.find_reads here)
          λ ep e1. rw laws.find_reads (
            >>=-keeps P (require ep.is_active _) _ s (rw require-state here) λ u e2.
              rw require-state (
                >>=-keeps P (validate_unlock R store account ep p) _ s
                  (rw validate_unlock-state here)
                  λ v e3. rw validate_unlock-state (
                    own ep (laws.find-eq-ok id s ep (rewrite_error-eq-ok _ _ e1))
                      (validate_unlock-eq-ok ep p s e3 (require-eq-ok _ _ s e2)))))

    -- For an accessible episode the call is its own step.
    pub with_access-eq :
        {ep : Episode}
        → (R.find_episode_by_id id s).0 ≡ ok ep
        → ep.is_active ≡ true
        → (validate_unlock R store account ep p s).0 ≡ ok tt
        → with_access id p k s ≡ k ep s
    with_access-eq {ep} e a v =
        >>=-read (on_error find_error (R.find_episode_by_id id)) _ s (laws.find_reads id s) (rw e)
        ∙ (>>=-read (require ep.is_active _) _ s (require-state _ _ s) (rw a)
            ∙ >>=-read (validate_unlock R store account ep p) _ s (validate_unlock-state ep p s) v)

    with_access-eq-ok :
        {a : A}
        → (with_access id p k s).0 ≡ ok a
        → (ep : Episode) × (found s id ≡ some ep)
          × MayAccess s p ep
          × (with_access id p k s ≡ k ep s)
    with_access-eq-ok h =
        let (ep, e1, h1) =
          >>=-read-eq-ok (on_error find_error (R.find_episode_by_id id)) _ s (laws.find_reads id s)
            h in
        let (u, e2, h2) = >>=-read-eq-ok (require ep.is_active _) _ s (require-state _ _ s) h1 in
        let (v, e3, h3) =
          >>=-read-eq-ok (validate_unlock R store account ep p) _ s (validate_unlock-state ep p s)
            h2 in
        let e = rewrite_error-eq-ok find_error (R.find_episode_by_id id s).0 e1 in
        let active = require-eq-ok ep.is_active _ s e2 in
        (
          ep,
          laws.find-eq-ok id s ep e,
          validate_unlock-eq-ok ep p s e3 active,
          with_access-eq e active e3,
        )

  -- A script is served only for an active episode whose conditions the player meets, by the
  -- account's answer and the recorded completions; it is what the store has at the episode's path in
  -- the language asked for, and the request changes nothing.
  pub get_script_sound :
      (p id lang : String) (s : S) {text : String}
      → (get_script R store account p id lang s).0 ≡ ok text
      → (ep : Episode) × (found s id ≡ some ep)
        × MayAccess s p ep
        × (read_script R store account ep.script_path lang ≡ ok text)
        × ((get_script R store account p id lang s).1 ≡ s)
  unfolding get_script
  get_script_sound p id lang s {text} h =
      let (ep, e, m, same) =
        with_access-eq-ok id p (λ ep. lift (read_script R store account ep.script_path lang)) s h in
      (ep, e, m, rw same at h, ap (λ r. r.1) same)

  -- A completion that is reported was of an active episode whose conditions the player met before
  -- it, by the account's answer and the recorded completions, and stands in the record after it.
  pub complete_episode_sound :
      (p id : String) (s : S)
      → (complete_episode R store account p id s).0 ≡ ok tt
      → (ep : Episode) × (found s id ≡ some ep)
        × MayAccess s p ep
        × (contains (completed (complete_episode R store account p id s).1 p) id ≡ true)
  unfolding complete_episode
  complete_episode_sound p id s h =
      let (ep, e, m, same) =
        with_access-eq-ok id p (λ ep. on_error (wrap "mark complete") (R.mark_complete p id)) s h in
      (ep, e, m, rw same (laws.mark-eq-ok p id s (rewrite_error-eq-ok _ _ (rw same at h))))
