-- ===== src/Postgres/OnboardingRepository/Additions.antt =====
-- The onboarding repository adds at most one event to the outbox, under a new id.
use overload_party_scenario.Common.{
  String, ◌==◌, eq_iff, ◌≡◌, ◌≢◌, refl, sym, ◌∙◌, ◌⊎◌, inl, inr, true, false, List, [], ◌∷◌, ◌++◌,
  map, any, arith, All, Bool-cases,
}
use overload_party_scenario.Errors.{ok, wrap, >>=-eq-ok}
use overload_party_scenario.Errors.Action.Inversion.{rewrite_error-eq-ok}
use overload_party_scenario.Port.{OutboxEvent}
use overload_party_scenario.Postgres.{Conn}
use overload_party_scenario.Postgres.Tables.{Db, OutboxRow}
use overload_party_scenario.Postgres.OutboxRepository.Content.{event_of}
use overload_party_scenario.Postgres.OutboxRepository.Published.{Keyed}
use overload_party_scenario.Postgres.OnboardingRepository.{
  new_outbox_row, insert_outbox_row, write_outbox_event, write_events, mark_complete_body,
  mark_complete, publish_events,
}
use overload_party_scenario.Postgres.OnboardingRepository.Atomic.{
  transaction_cases, write_events-one, insert_onboarding-eq-ok,
}

-- `db'` has one more event than `db`, whose id is new, and the same episodes and completions.
pub record Adds (c : Conn) (db db' : Db) : Type 0 where
  pub event : OutboxEvent
  pub is_new : any (λ r. r.event_id == event.event_id) db.outbox_events ≡ false
  pub outbox : db'.outbox_events ≡ db.outbox_events ++ new_outbox_row c event ∷ []
  pub progress : db'.player_story_progress ≡ db.player_story_progress
  pub episodes : db'.scenario_episodes ≡ db.scenario_episodes

abbrev pub MayAdd : Conn → Db → Db → Type 0
MayAdd c db db' = (db' ≡ db) ⊎ Adds c db db'

module _ (c : Conn) where
  write_outbox_event-new :
      (ev : OutboxEvent) (tx tx' : Db)
      → write_outbox_event c ev tx ≡ ok tx'
      → any (λ r. r.event_id == ev.event_id) tx.outbox_events ≡ false
  unfolding write_outbox_event insert_outbox_row
  write_outbox_event-new ev tx tx' h = ground arith

  write_events-new :
      (ev : OutboxEvent) (tx tx' : Db)
      → write_events c (ev ∷ []) tx ≡ ok tx'
      → any (λ r. r.event_id == ev.event_id) tx.outbox_events ≡ false
  unfolding write_events
  write_events-new ev tx tx' h =
      let (tx'', e, _) = >>=-eq-ok _ _ h in
      write_outbox_event-new ev tx tx'' (rewrite_error-eq-ok (wrap "write outbox event") _ e)

  pub publish_events-MayAdd :
      (ev : OutboxEvent) (db : Db) → MayAdd c db (publish_events c (ev ∷ []) db).1
  unfolding publish_events
  publish_events-MayAdd ev db = elim (transaction_cases c (write_events c (ev ∷ [])) db) [
    | inl same ↦ inl same
    | inr (tx, ran, done) ↦ inr (
        rw (done ∙ write_events-one c ev db tx ran) (record {
          event = ev;
          is_new = write_events-new ev db tx ran;
          outbox = refl;
          progress = refl;
          episodes = refl;
        }))
  ]

  pub mark_complete-MayAdd :
      (p : String) (ev : OutboxEvent) (db : Db) → MayAdd c db (mark_complete c p (ev ∷ []) db).1
  unfolding mark_complete mark_complete_body
  mark_complete-MayAdd p ev db = elim (transaction_cases c (mark_complete_body c p (ev ∷ [])) db) [
    | inl same ↦ inl same
    | inr (tx, ran, done) ↦
        let (tx', inserted, written) = >>=-eq-ok _ _ ran in
        let (_, is_tx') = insert_onboarding-eq-ok c p db tx' (rewrite_error-eq-ok _ _ inserted) in
        inr (
          rw (done ∙ write_events-one c ev tx' tx written) (
            rw is_tx' (record {
              event = ev;
              is_new = rw is_tx' at (write_events-new ev tx' tx written);
              outbox = refl;
              progress = refl;
              episodes = refl;
            })))
  ]

apart_from_new :
    (id : String) (rows : List OutboxRow) (r : OutboxRow)
    → r.event_id ≢ id
    → All (λ e. e.event_id ≢ id) (map event_of rows)
    → All (λ e. e.event_id ≢ id) (map event_of (rows ++ r ∷ []))
apart_from_new id [] r n h = (n, tt)
apart_from_new id (x ∷ rows) r n h = (h.0, apart_from_new id rows r n h.1)

-- A row under a new id keeps the ids distinct.
pub Keyed-append :
    (rows : List OutboxRow) (r : OutboxRow)
    → any (λ x. x.event_id == r.event_id) rows ≡ false
    → Keyed (map event_of rows)
    → Keyed (map event_of (rows ++ r ∷ []))
Keyed-append [] r new k = (tt, tt)
Keyed-append (x ∷ rows) r new k = elim (Bool-cases (x.event_id == r.event_id)) [
  | inl e ↦ absurd (taken (rw e at new))
  | inr e ↦ (
    apart_from_new x.event_id rows r
        (λ same. differ (sym ((eq_iff x.event_id r.event_id).1 (sym same)) ∙ e)) k.0,
    Keyed-append rows r (rw e at new) k.1,
  )
]
  where
    taken : true ≡ false → ⊥
    taken h = cc

    differ : true ≡ false → ⊥
    differ h = cc
