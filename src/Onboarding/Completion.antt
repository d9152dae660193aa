-- ===== src/Onboarding/Completion.antt =====
-- What a step of the onboarding that is reported has done.
use overload_party_scenario.Common.{
  true, ◌∷◌, [], ◌++◌, contains, String, ◌==◌, ◌≡◌, false, Option, none, some, List, ◌∙◌, ap, arith,
}
use overload_party_scenario.Errors.{ok, wrap}
use overload_party_scenario.Errors.Action.{lift, on_error}
use overload_party_scenario.Errors.Action.Inversion.{>>=-eq-ok, rewrite_error-eq-ok}
use overload_party_scenario.Port.{
  OutboxEvent, AccountPlayer, ScriptStore, OnboardingNameValidator, OnboardingPlayerReader,
}
use overload_party_scenario.Postgres.{Conn, begin_tx}
use overload_party_scenario.Postgres.Tables.{Db, OutboxRow}
use overload_party_scenario.Postgres.OnboardingRepository.{onboarding_repository}
use overload_party_scenario.Postgres.OnboardingRepository.Atomic.{
  is_onboarded, with_onboarding, mark_complete-eq-ok, publish_events-eq-ok,
}
use overload_party_scenario.Onboarding.{
  player_error, complete_error, selected_faction, complete, name_error, validate_faction,
  update_name, select_faction,
}
use overload_party_scenario.Onboarding.Events.{
  Fresh, build_player_onboarded_event, build_onboarding_name_set_event,
  build_onboarding_faction_set_event,
}
use overload_party_scenario.Onboarding.Payloads.{
  announces, name_set_event-announces, faction_set_event-announces,
}

selected_faction-eq-ok :
    (f : Option String) {faction : String} → selected_faction f ≡ ok faction → f ≡ some faction
selected_faction-eq-ok none h = cc
selected_faction-eq-ok (some f) h = ground arith

validate_faction-eq-ok :
    (selectable_factions : List String) (faction : String)
    → validate_faction selectable_factions faction ≡ ok tt
    → contains selectable_factions faction ≡ true
unfolding validate_faction
validate_faction-eq-ok selectable_factions faction h = ground arith

module _ (c : Conn) where
  -- The row of an event in the outbox, before any attempt to publish it.
  abbrev pub pending : OutboxEvent → OutboxRow
  pending ev = record {
    event_id = ev.event_id;
    event_type = ev.event_type;
    payload = ev.payload;
    created_at = c.now begin_tx;
    published_at = none;
    failure_count = 0;
    last_error = none;
    last_attempted_at = none;
  }

  -- The tables with the pending row of one more event.
  abbrev pub with_pending : Db → OutboxEvent → Db
  with_pending db ev = record db { outbox_events = db.outbox_events ++ pending ev ∷ [] }

module _ (c : Conn) (store : ScriptStore) (validator : OnboardingNameValidator)
    (reader : OnboardingPlayerReader) (selectable_factions : List String) (fresh : Fresh) where
  -- A completion that is reported was of a player who had selected a faction and was not onboarded
  -- before, and has added the player's row and the row of the announcing event, and nothing else.
  pub complete_sound :
      (p : String) (db : Db)
      → (complete (onboarding_repository c) store validator reader selectable_factions fresh p db).0
        ≡ ok tt
      → (player : AccountPlayer) × (faction : String) × (ev : OutboxEvent)
        × (reader.get_onboarding_player ≡ ok player)
        × (player.initial_faction ≡ some faction)
        × (build_player_onboarded_event fresh p faction ≡ ok ev)
        × (is_onboarded p db ≡ false)
        × ((complete
              (onboarding_repository c)
              store
              validator
              reader
              selectable_factions
              fresh
              p
              db).1
            ≡ with_onboarding c p ev db)
  unfolding complete
  complete_sound p db h =
      let (player, h1, r1, s1) =
        >>=-eq-ok (on_error player_error (lift reader.get_onboarding_player)) _ db h in
      let (faction, h2, r2, s2) =
        >>=-eq-ok (lift (selected_faction player.initial_faction)) _ db r1 in
      let (ev, h3, r3, s3) =
        >>=-eq-ok
          (on_error (wrap "build player-onboarded")
            (lift (build_player_onboarded_event fresh p faction)))
          _ db r2 in
      let (new, added) = mark_complete-eq-ok c p ev db (rewrite_error-eq-ok complete_error _ r3) in
      (
        player,
        faction,
        ev,
        rewrite_error-eq-ok _ _ h1,
        selected_faction-eq-ok player.initial_faction h2,
        rewrite_error-eq-ok _ _ h3,
        new,
        s1 ∙ (s2 ∙ (s3 ∙ added)),
      )

  -- A name that is accepted is not empty, is of a player whose id is not empty, and has passed the
  -- account service's check; the request has added one row to the outbox and nothing else, pending,
  -- whose payload announces the type `onboarding_name_set`, the fresh id, the time, the player and
  -- the name.
  pub update_name_sound :
      (p name : String) (db : Db)
      → (update_name
          (onboarding_repository c)
          store
          validator
          reader
          selectable_factions
          fresh
          p
          name
          db).0
        ≡ ok tt
      → (validator.validate_onboarding_name name ≡ ok tt)
        × (((p == "") ≡ false) × ((name == "") ≡ false))
        × ((update_name
              (onboarding_repository c)
              store
              validator
              reader
              selectable_factions
              fresh
              p
              name
              db).1
            ≡ with_pending c db (announces fresh "onboarding_name_set" p "name" name))
  unfolding update_name
  update_name_sound p name db h =
      let (_, h1, r1, s1) =
        >>=-eq-ok (on_error name_error (lift (validator.validate_onboarding_name name))) _ db h in
      let (ev, h2, r2, s2) =
        >>=-eq-ok
          (on_error (wrap "build onboarding-name-set")
            (lift (build_onboarding_name_set_event fresh p name)))
          _ db r1 in
      let (player, named, is_ev) =
        name_set_event-announces fresh p ev name (rewrite_error-eq-ok _ _ h2) in
      (
        rewrite_error-eq-ok _ _ h1,
        (player, named),
        s1
            ∙ (s2
                ∙ (publish_events-eq-ok c ev db (rewrite_error-eq-ok _ _ r2)
                    ∙ ap (with_pending c db) is_ev)),
      )

  -- A faction that is accepted is selectable and not empty, and is of a player whose id is not empty;
  -- the request has added one row to the outbox and nothing else, pending, whose payload announces
  -- the type `onboarding_faction_set`, the fresh id, the time, the player and the faction.
  pub select_faction_sound :
      (p faction : String) (db : Db)
      → (select_faction
          (onboarding_repository c)
          store
          validator
          reader
          selectable_factions
          fresh
          p
          faction
          db).0
        ≡ ok tt
      → (contains selectable_factions faction ≡ true)
        × (((p == "") ≡ false) × ((faction == "") ≡ false))
        × ((select_faction
              (onboarding_repository c)
              store
              validator
              reader
              selectable_factions
              fresh
              p
              faction
              db).1
            ≡ with_pending c db
                (announces fresh "onboarding_faction_set" p "initial_faction_id" faction))
  unfolding select_faction
  select_faction_sound p faction db h =
      let (_, h1, r1, s1) =
        >>=-eq-ok (lift (validate_faction selectable_factions faction)) _ db h in
      let (ev, h2, r2, s2) =
        >>=-eq-ok
          (on_error (wrap "build onboarding-faction-set")
            (lift (build_onboarding_faction_set_event fresh p faction)))
          _ db r1 in
      let (player, named, is_ev) =
        faction_set_event-announces fresh p ev faction (rewrite_error-eq-ok _ _ h2) in
      (
        validate_faction-eq-ok selectable_factions faction h1,
        (player, named),
        s1
            ∙ (s2
                ∙ (publish_events-eq-ok c ev db (rewrite_error-eq-ok _ _ r2)
                    ∙ ap (with_pending c db) is_ev)),
      )
