-- ===== src/Onboarding/Additions.antt =====
-- What an onboarding step may change: one event more in the outbox, and never an episode or a
-- completion.
use overload_party_scenario.Common.{String, refl, inl, List}
use overload_party_scenario.Errors.{wrap}
use overload_party_scenario.Errors.Action.{lift, on_error}
use overload_party_scenario.Errors.Action.Inversion.{>>=-keeps}
use overload_party_scenario.Port.{ScriptStore, OnboardingNameValidator, OnboardingPlayerReader}
use overload_party_scenario.Postgres.{Conn}
use overload_party_scenario.Postgres.Tables.{Db}
use overload_party_scenario.Postgres.OnboardingRepository.{onboarding_repository}
use overload_party_scenario.Postgres.OnboardingRepository.Additions.{
  MayAdd, publish_events-MayAdd, mark_complete-MayAdd,
}
use overload_party_scenario.Onboarding.{
  name_error, player_error, selected_faction, validate_faction, update_name, select_faction,
  complete,
}
use overload_party_scenario.Onboarding.Events.{
  Fresh, build_onboarding_name_set_event, build_onboarding_faction_set_event,
  build_player_onboarded_event,
}

module _ (c : Conn) (store : ScriptStore) (validator : OnboardingNameValidator)
    (reader : OnboardingPlayerReader) (selectable_factions : List String) (fresh : Fresh)
    (p : String) (db : Db) where
  pub complete-MayAdd :
      MayAdd c db
        (complete (onboarding_repository c) store validator reader selectable_factions fresh p db).1
  unfolding complete
  complete-MayAdd =
      >>=-keeps (MayAdd c db) (on_error player_error (lift reader.get_onboarding_player)) _ db
        (inl refl)
        λ player _.
          >>=-keeps (MayAdd c db) (lift (selected_faction player.initial_faction)) _ db (inl refl)
            λ faction _.
              >>=-keeps (MayAdd c db)
                (on_error (wrap "build player-onboarded")
                  (lift (build_player_onboarded_event fresh p faction)))
                _ db (inl refl) λ ev _. mark_complete-MayAdd c p ev db

  pub update_name-MayAdd :
      (name : String)
      → MayAdd c db
          (update_name
            (onboarding_repository c)
            store
            validator
            reader
            selectable_factions
            fresh
            p
            name
            db).1
  unfolding update_name
  update_name-MayAdd name =
      >>=-keeps (MayAdd c db) (on_error name_error (lift (validator.validate_onboarding_name name)))
        _ db (inl refl)
        λ _ _.
          >>=-keeps (MayAdd c db)
            (on_error (wrap "build onboarding-name-set")
              (lift (build_onboarding_name_set_event fresh p name)))
            _ db (inl refl) λ ev _. publish_events-MayAdd c ev db

  pub select_faction-MayAdd :
      (faction : String)
      → MayAdd c db
          (select_faction
            (onboarding_repository c)
            store
            validator
            reader
            selectable_factions
            fresh
            p
            faction
            db).1
  unfolding select_faction
  select_faction-MayAdd faction =
      >>=-keeps (MayAdd c db) (lift (validate_faction selectable_factions faction)) _ db (inl refl)
        λ _ _.
          >>=-keeps (MayAdd c db)
            (on_error (wrap "build onboarding-faction-set")
              (lift (build_onboarding_faction_set_event fresh p faction)))
            _ db (inl refl) λ ev _. publish_events-MayAdd c ev db
