-- ===== src/Onboarding/Repetition.antt =====
-- A second completion of the onboarding.
use overload_party_scenario.Common.{String, ◌≡◌, refl, true, none, List, [], ◌∷◌, ◌∙◌}
use overload_party_scenario.Errors.{ok, err, OnboardingError, wrap}
use overload_party_scenario.Errors.Action.{lift, on_error}
use overload_party_scenario.Errors.Action.Inversion.{>>=-read}
use overload_party_scenario.Port.{
  OutboxEvent, AccountPlayer, ScriptStore, OnboardingNameValidator, OnboardingPlayerReader,
}
use overload_party_scenario.Postgres.{Conn, begin_tx, insert_onboarding}
use overload_party_scenario.Postgres.Tables.{Db}
use overload_party_scenario.Postgres.OnboardingRepository.{onboarding_repository}
use overload_party_scenario.Postgres.OnboardingRepository.Atomic.{
  is_onboarded, mark_complete-onboarded,
}
use overload_party_scenario.Onboarding.{onboarding_error, player_error, selected_faction, complete}
use overload_party_scenario.Onboarding.Events.{Fresh, build_player_onboarded_event}

module _ (c : Conn) (store : ScriptStore) (validator : OnboardingNameValidator)
    (reader : OnboardingPlayerReader) (selectable_factions : List String) (fresh : Fresh) where
  -- Where the account has the player with a faction, the announcing event can be built and the
  -- transaction reaches the player's row, a completion of an onboarded player is refused as already
  -- done, and the tables stay as they are.
  pub complete_again :
      (p : String) (db : Db) {player : AccountPlayer} {faction : String} {ev : OutboxEvent}
      → reader.get_onboarding_player ≡ ok player
      → selected_faction player.initial_faction ≡ ok faction
      → build_player_onboarded_event fresh p faction ≡ ok ev
      → c.fault begin_tx ≡ none
      → c.fault (insert_onboarding p) ≡ none
      → is_onboarded p db ≡ true
      → complete (onboarding_repository c) store validator reader selectable_factions fresh p db
        ≡ (err (onboarding_error OnboardingError.already_onboarded), db)
  unfolding complete
  complete_again p db {player} {faction} {ev} got selected built begun inserted old =
      >>=-read (on_error player_error (lift reader.get_onboarding_player)) _ db {a = player} refl
        (rw got refl)
      ∙ (>>=-read (lift (selected_faction player.initial_faction)) _ db {a = faction} refl selected
          ∙ (>>=-read
                (on_error (wrap "build player-onboarded")
                  (lift (build_player_onboarded_event fresh p faction)))
                _ db {a = ev} refl (rw built refl)
              ∙ rw (mark_complete-onboarded c p (ev ∷ []) db begun inserted old) refl))
