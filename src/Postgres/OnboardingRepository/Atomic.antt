-- ===== src/Postgres/OnboardingRepository/Atomic.antt =====
-- A transaction changes all that it writes or nothing, also when its commit is reported as failed.
use overload_party_scenario.Common.{
  ap, List, map, ◌≢◌, none, true, String, ◌==◌, ◌≡◌, refl, sym, ◌⊎◌, inl, inr, Bool, false, [], ◌∷◌,
  ◌++◌, ◌∙◌, any, arith, Option-cases,
}
use mathlib.Core.List.{append_assoc, append-nil}
use overload_party_scenario.Errors.{
  sentinel, port, PortError, Error, Result, ok, err, panic, >>=-eq-ok, ok-injective,
}
use overload_party_scenario.Errors.Action.Inversion.{rewrite_error-eq-ok}
use overload_party_scenario.Port.{OutboxEvent}
use overload_party_scenario.Postgres.{
  Conn, transaction, commit, finish, tx_exec, begin_tx, insert_onboarding,
}
use overload_party_scenario.Postgres.Tables.{Db}
use overload_party_scenario.Postgres.OnboardingRepository.{
  insert_onboarding_row, new_outbox_row, write_outbox_event, write_events, mark_complete_body,
  mark_complete, publish_events,
}

abbrev pub is_onboarded : String → Db → Bool
is_onboarded p db = any (λ r. r.player_id == p) db.player_onboarding

is_done-cases : (r : Result (Unit {0})) → (r ≡ ok tt) ⊎ (r ≢ ok tt)
is_done-cases (ok done) = inl refl
is_done-cases (err e) = inr (λ h. cc)
is_done-cases (panic p) = inr (λ h. cc)

module _ (c : Conn) where
  commit_cases : (tx db : Db) → ((commit c tx db).1 ≡ db) ⊎ ((commit c tx db).1 ≡ tx)
  commit_cases tx db = ground arith

  commit-eq-ok : (tx db : Db) → (commit c tx db).0 ≡ ok tt → (commit c tx db).1 ≡ tx
  commit-eq-ok tx db h = ground arith

  -- A transaction leaves the tables as they were, or as its statements made them.
  pub transaction_cases :
      (body : Db → Result Db) (db : Db)
      → ((transaction c body db).1 ≡ db)
        ⊎ ((tx : Db) × (body db ≡ ok tx) × ((transaction c body db).1 ≡ tx))
  transaction_cases body db = elim (Option-cases (c.fault begin_tx)) [
    | inr (f, e) ↦ inl (rw (e, transaction))
    | inl e ↦ rw (e, transaction) (finish_cases (body db))
  ]
    where
      finish_cases :
          (r : Result Db)
          → ((finish c r db).1 ≡ db) ⊎ ((tx : Db) × (r ≡ ok tx) × ((finish c r db).1 ≡ tx))
      finish_cases (ok tx) = elim (commit_cases tx db) [
        | inl same ↦ inl same
        | inr done ↦ inr (tx, refl, done)
      ]
      finish_cases (err x) = inl refl
      finish_cases (panic x) = inl refl

  pub transaction-eq-ok :
      (body : Db → Result Db) (db : Db)
      → (transaction c body db).0 ≡ ok tt
      → body db ≡ ok (transaction c body db).1
  transaction-eq-ok body db h = elim (Option-cases (c.fault begin_tx)) [
    | inr (f, e) ↦ absurd (begun (rw (e, transaction) at h))
    | inl e ↦ rw (e, transaction) (done (body db) (rw (e, transaction) at h))
  ]
    where
      begun : {x : Error} → ◌≡◌ {A = Result (Unit {0})} (err x) (ok tt) → ⊥
      begun q = cc

      done : (r : Result Db) → (finish c r db).0 ≡ ok tt → r ≡ ok (finish c r db).1
      done (ok tx) q = rw (commit-eq-ok tx db q)
      done (err x) q = cc
      done (panic x) q = cc

  write_outbox_event-eq-ok :
      (ev : OutboxEvent) (tx tx' : Db)
      → write_outbox_event c ev tx ≡ ok tx'
      → tx' ≡ record tx { outbox_events = tx.outbox_events ++ new_outbox_row c ev ∷ [] }
  unfolding write_outbox_event
  write_outbox_event-eq-ok ev tx tx' h = ground arith

  -- The tables with the rows of the events, in their order.
  abbrev pub with_events : List OutboxEvent → Db → Db
  with_events events db = record db {
    outbox_events = db.outbox_events ++ map (new_outbox_row c) events;
  }

  with_events-nil : (db : Db) → db ≡ with_events [] db
  with_events-nil db =
      ap (λ rows. record db { outbox_events = rows }) (sym (append-nil db.outbox_events))

  -- The events of one transaction add their rows to the outbox and change nothing else.
  write_events-eq-ok :
      (events : List OutboxEvent) (tx tx' : Db)
      → write_events c events tx ≡ ok tx'
      → tx' ≡ with_events events tx
  unfolding write_events
  write_events-eq-ok [] tx tx' h = sym (ok-injective h) ∙ with_events-nil tx
  write_events-eq-ok (ev ∷ events) tx tx' h =
      let (tx1, first, rest) = >>=-eq-ok _ _ h in
      write_events-eq-ok events tx1 tx' rest
      ∙ (ap (with_events events)
            (write_outbox_event-eq-ok ev tx tx1 (rewrite_error-eq-ok _ _ first))
          ∙ (λ i. record tx {
            outbox_events =
                append_assoc tx.outbox_events (new_outbox_row c ev ∷ [])
                  (map (new_outbox_row c) events) i;
          }))

  pub write_events-one :
      (ev : OutboxEvent) (tx tx' : Db)
      → write_events c (ev ∷ []) tx ≡ ok tx'
      → tx' ≡ record tx { outbox_events = tx.outbox_events ++ new_outbox_row c ev ∷ [] }
  write_events-one ev = write_events-eq-ok (ev ∷ [])

  -- The tables with the player's onboarding and its event.
  abbrev pub with_onboarding : String → OutboxEvent → Db → Db
  with_onboarding p ev db = record db {
    player_onboarding =
        db.player_onboarding ++ record { player_id = p; completed_at = c.now begin_tx } ∷ [];
    outbox_events = db.outbox_events ++ new_outbox_row c ev ∷ [];
  }

  pub insert_onboarding-eq-ok :
      (p : String) (db tx : Db)
      → tx_exec c (insert_onboarding p) (insert_onboarding_row c p) db ≡ ok tx
      → (is_onboarded p db ≡ false)
        × (tx ≡ record db {
          player_onboarding =
              db.player_onboarding ++ record { player_id = p; completed_at = c.now begin_tx } ∷ [];
        })
  unfolding insert_onboarding_row
  insert_onboarding-eq-ok p db tx h = ground arith

  mark_complete_body-eq-ok :
      (p : String) (ev : OutboxEvent) (db tx : Db)
      → mark_complete_body c p (ev ∷ []) db ≡ ok tx
      → (is_onboarded p db ≡ false) × (tx ≡ with_onboarding p ev db)
  unfolding mark_complete_body
  mark_complete_body-eq-ok p ev db tx h =
      let (tx', inserted, written) = >>=-eq-ok _ _ h in
      let (fresh, is_tx') = insert_onboarding-eq-ok p db tx' (rewrite_error-eq-ok _ _ inserted) in
      (fresh, write_events-one ev tx' tx written ∙ rw is_tx')

  mark_complete_body-onboarded :
      (p : String) (events : List OutboxEvent) (db : Db)
      → c.fault (insert_onboarding p) ≡ none
      → is_onboarded p db ≡ true
      → mark_complete_body c p events db ≡ err (sentinel (port PortError.already_onboarded))
  unfolding mark_complete_body insert_onboarding_row
  mark_complete_body-onboarded p events db inserted old = rw (inserted, tx_exec, old) refl

  -- A player who is onboarded already is reported by the port's sentinel, and nothing changes.
  pub mark_complete-onboarded :
      (p : String) (events : List OutboxEvent) (db : Db)
      → c.fault begin_tx ≡ none
      → c.fault (insert_onboarding p) ≡ none
      → is_onboarded p db ≡ true
      → mark_complete c p events db ≡ (err (sentinel (port PortError.already_onboarded)), db)
  unfolding mark_complete
  mark_complete-onboarded p events db begun inserted old =
      rw (begun, transaction)
        (ap (λ r. finish c r db) (mark_complete_body-onboarded p events db inserted old))

  -- Marking a player complete leaves the tables alone, or adds the player's row together with the
  -- row of the event, and the latter only to a player who was not onboarded.
  pub mark_complete_atomic :
      (p : String) (ev : OutboxEvent) (db : Db)
      → ((mark_complete c p (ev ∷ []) db).1 ≡ db)
        ⊎ ((is_onboarded p db ≡ false)
            × ((mark_complete c p (ev ∷ []) db).1 ≡ with_onboarding p ev db))
  unfolding mark_complete
  mark_complete_atomic p ev db = elim (transaction_cases (mark_complete_body c p (ev ∷ [])) db) [
    | inl same ↦ inl same
    | inr (tx, ran, done) ↦
        let (fresh, is_tx) = mark_complete_body-eq-ok p ev db tx ran in inr (fresh, done ∙ is_tx)
  ]

  pub mark_complete-eq-ok :
      (p : String) (ev : OutboxEvent) (db : Db)
      → (mark_complete c p (ev ∷ []) db).0 ≡ ok tt
      → (is_onboarded p db ≡ false) × ((mark_complete c p (ev ∷ []) db).1 ≡ with_onboarding p ev db)
  unfolding mark_complete
  mark_complete-eq-ok p ev db h =
      mark_complete_body-eq-ok p ev db _ (transaction-eq-ok (mark_complete_body c p (ev ∷ [])) db h)

  -- Publishing events, however many, adds the rows of all of them to the outbox, in their order, and
  -- nothing else, or it changes nothing and is not reported as done, whatever statement fails.
  pub publish_events_atomic :
      (events : List OutboxEvent) (db : Db)
      → ((publish_events c events db).1 ≡ with_events events db)
        ⊎ (((publish_events c events db).1 ≡ db) × ((publish_events c events db).0 ≢ ok tt))
  unfolding publish_events
  publish_events_atomic [] db = inl (with_events-nil db)
  publish_events_atomic (ev ∷ events) db =
      let body = write_events c (ev ∷ events) in
      elim (is_done-cases (transaction c body db).0) [
        | inl h ↦ inl (write_events-eq-ok (ev ∷ events) db _ (transaction-eq-ok body db h))
        | inr failed ↦ elim (transaction_cases body db) [
          | inl same ↦ inr (same, failed)
          | inr (tx, ran, done) ↦ inl (done ∙ write_events-eq-ok (ev ∷ events) db tx ran)
        ]
      ]

  pub publish_event_cases :
      (ev : OutboxEvent) (db : Db)
      → ((publish_events c (ev ∷ []) db).1 ≡ db)
        ⊎ ((publish_events c (ev ∷ []) db).1
            ≡ record db { outbox_events = db.outbox_events ++ new_outbox_row c ev ∷ [] })
  publish_event_cases ev db = elim (publish_events_atomic (ev ∷ []) db) [
    | inl added ↦ inr added
    | inr (same, failed) ↦ inl same
  ]

  pub publish_events-eq-ok :
      (ev : OutboxEvent) (db : Db)
      → (publish_events c (ev ∷ []) db).0 ≡ ok tt
      → (publish_events c (ev ∷ []) db).1
        ≡ record db { outbox_events = db.outbox_events ++ new_outbox_row c ev ∷ [] }
  unfolding publish_events
  publish_events-eq-ok ev db h =
      write_events-one ev db _ (transaction-eq-ok (write_events c (ev ∷ [])) db h)
