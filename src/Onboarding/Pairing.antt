-- ===== src/Onboarding/Pairing.antt =====
-- A player is onboarded exactly when the event that announces it is in the outbox, and once.
use overload_party_scenario.Common.{
  ℕ, ◌≤◌, String, ◌==◌, ◌≡◌, inl, inr, Bool, false, List, [], ◌∷◌, ◌&&◌, arith, count_if,
  count_if-append, count_if-eq_zero, eq_iff,
}
use overload_party_scenario.Errors.{wrap}
use overload_party_scenario.Errors.Action.{lift, on_error}
use overload_party_scenario.Errors.Action.Inversion.{>>=-keeps, rewrite_error-eq-ok}
use overload_party_scenario.ApiScenario.{event_type_player_onboarded}
use overload_party_scenario.Port.{
  OutboxEvent, ScriptStore, OnboardingNameValidator, OnboardingPlayerReader,
}
use overload_party_scenario.Postgres.{Conn, begin_tx}
use overload_party_scenario.Postgres.Tables.{Db, OnboardingRow, OutboxRow}
use overload_party_scenario.Postgres.OnboardingRepository.{
  mark_complete, publish_events, new_outbox_row, onboarding_repository,
}
use overload_party_scenario.Postgres.OnboardingRepository.Atomic.{
  is_onboarded, with_onboarding, mark_complete_atomic, publish_event_cases,
}
use overload_party_scenario.Onboarding.{
  name_error, player_error, selected_faction, validate_faction, update_name, select_faction,
  complete,
}
use overload_party_scenario.Onboarding.Events.{
  Fresh, build_onboarding_name_set_event, build_onboarding_faction_set_event,
  build_player_onboarded_event,
}
use overload_party_scenario.Onboarding.Payloads.{
  names, player_onboarded_event, name_set_event, faction_set_event,
}

-- An outbox row that announces the player's onboarding.
abbrev pub announces : String → OutboxRow → Bool
announces q r = r.event_type == event_type_player_onboarded && names q r.payload

abbrev pub onboardings : String → Db → ℕ
onboardings q db = count_if (λ r. r.player_id == q) db.player_onboarding

abbrev pub announcements : String → Db → ℕ
announcements q db = count_if (announces q) db.outbox_events

-- Every player has as many onboarding rows as announcements, and at most one.
abbrev pub IsPaired : Db → Type 0
IsPaired db = (q : String) → (announcements q db ≡ onboardings q db) × (onboardings q db ≤ 1)

module _ (c : Conn) where
  announced :
      (ev : OutboxEvent) (p q : String)
      → ev.event_type ≡ event_type_player_onboarded
      → names q ev.payload ≡ (p == q)
      → announces q (new_outbox_row c ev) ≡ (p == q)
  announced ev p q t n = rw (t, n)

  with_onboarding-IsPaired :
      (p : String) (ev : OutboxEvent) (db : Db)
      → ev.event_type ≡ event_type_player_onboarded
      → ((q : String) → names q ev.payload ≡ (p == q))
      → is_onboarded p db ≡ false
      → IsPaired db
      → IsPaired (with_onboarding c p ev db)
  with_onboarding-IsPaired p ev db t n fresh paired q = ground (
    arith,
    count_if-append (announces q) db.outbox_events (new_outbox_row c ev ∷ []),
    count_if-append (λ (r : OnboardingRow). r.player_id == q) db.player_onboarding
        (record { player_id = p; completed_at = c.now begin_tx } ∷ []),
    announced ev p q t (n q),
    count_if-eq_zero (λ (r : OnboardingRow). r.player_id == p) db.player_onboarding fresh,
    paired q,
    eq_iff p q,
  )

  mark_complete-IsPaired :
      (p : String) (ev : OutboxEvent) (db : Db)
      → ev.event_type ≡ event_type_player_onboarded
      → ((q : String) → names q ev.payload ≡ (p == q))
      → IsPaired db
      → IsPaired (mark_complete c p (ev ∷ []) db).1
  mark_complete-IsPaired p ev db t n paired = elim (mark_complete_atomic c p ev db) [
    | inl same ↦ rw same paired
    | inr (fresh, added) ↦ rw added (with_onboarding-IsPaired p ev db t n fresh paired)
  ]

  publish_events-IsPaired :
      (ev : OutboxEvent) (db : Db)
      → (ev.event_type == event_type_player_onboarded) ≡ false
      → IsPaired db
      → IsPaired (publish_events c (ev ∷ []) db).1
  publish_events-IsPaired ev db t paired = elim (publish_event_cases c ev db) [
    | inl same ↦ rw same paired
    | inr added ↦ rw added λ q.
        ground (
          arith,
          count_if-append (announces q) db.outbox_events (new_outbox_row c ev ∷ []),
          paired q,
        )
  ]

module _ (c : Conn) (store : ScriptStore) (validator : OnboardingNameValidator)
    (reader : OnboardingPlayerReader) (selectable_factions : List String) (fresh : Fresh) where
  -- If every player has as many onboarding rows as announcing events in the outbox, and at most one,
  -- then it stays so after a completion request, whatever its outcome.
  pub complete-IsPaired :
      (p : String) (db : Db)
      → IsPaired db
      → IsPaired
          (complete
            (onboarding_repository c)
            store
            validator
            reader
            selectable_factions
            fresh
            p
            db).1
  unfolding complete
  complete-IsPaired p db paired =
      >>=-keeps IsPaired (on_error player_error (lift reader.get_onboarding_player)) _ db paired
        λ player e1.
          >>=-keeps IsPaired (lift (selected_faction player.initial_faction)) _ db paired
            λ faction e2.
              >>=-keeps IsPaired
                (on_error (wrap "build player-onboarded")
                  (lift (build_player_onboarded_event fresh p faction)))
                _ db paired
                λ ev e3.
                  let (t, n) =
                    player_onboarded_event fresh p ev faction (rewrite_error-eq-ok _ _ e3) in
                  mark_complete-IsPaired c p ev db t n paired

  -- Submitting a name, whatever the outcome, keeps the onboarding rows and the announcements paired.
  pub update_name-IsPaired :
      (p name : String) (db : Db)
      → IsPaired db
      → IsPaired
          (update_name
            (onboarding_repository c)
            store
            validator
            reader
            selectable_factions
            fresh
            p
            name
            db).1
  unfolding update_name
  update_name-IsPaired p name db paired =
      >>=-keeps IsPaired (on_error name_error (lift (validator.validate_onboarding_name name))) _ db
        paired
        λ u e1.
          >>=-keeps IsPaired
            (on_error (wrap "build onboarding-name-set")
              (lift (build_onboarding_name_set_event fresh p name)))
            _ db paired
            λ ev e2.
              let t = name_set_event fresh p ev name (rewrite_error-eq-ok _ _ e2) in
              publish_events-IsPaired c ev db (rw t) paired

  -- Selecting a faction, whatever the outcome, keeps the onboarding rows and the announcements
  -- paired.
  pub select_faction-IsPaired :
      (p faction : String) (db : Db)
      → IsPaired db
      → IsPaired
          (select_faction
            (onboarding_repository c)
            store
            validator
            reader
            selectable_factions
            fresh
            p
            faction
            db).1
  unfolding select_faction
  select_faction-IsPaired p faction db paired =
      >>=-keeps IsPaired (lift (validate_faction selectable_factions faction)) _ db paired λ u e1.
        >>=-keeps IsPaired
          (on_error (wrap "build onboarding-faction-set")
            (lift (build_onboarding_faction_set_event fresh p faction)))
          _ db paired
          λ ev e2.
            let t = faction_set_event fresh p ev faction (rewrite_error-eq-ok _ _ e2) in
            publish_events-IsPaired c ev db (rw t) paired
