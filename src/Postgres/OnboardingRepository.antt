-- ===== src/Postgres/OnboardingRepository.antt =====
-- onboarding_repo.go, and writeOutboxEvent of outbox_repo.go
pub mod Atomic
pub mod Additions
use overload_party_scenario.Common.{
  ℕ, String, ◌==◌, Bool, true, false, Option, none, some, List, [], ◌∷◌, ◌++◌, any, if◌then◌else◌,
}
use overload_party_scenario.Errors.{
  Error, Result, ok, err, panic, wrap, sentinel, port, PortError, pg_error, as_pg_code,
  rewrite_error, ◌>>=◌,
}
use overload_party_scenario.Errors.Action.{Action}
use overload_party_scenario.Port.{OutboxEvent, OnboardingRepo}
use overload_party_scenario.Postgres.{
  Conn, begin_tx, insert_onboarding, insert_outbox_event, tx_exec, transaction,
}
use overload_party_scenario.Postgres.Tables.{Db, OnboardingRow, OutboxRow}

abbrev pub pg_code_unique_violation : String
pg_code_unique_violation = "23505"

module _ (c : Conn) where
  -- The id of the player is compared as a text; the column's type is UUID.
  -- INSERT INTO scenario.player_onboarding, under its primary key. `now()` is the default of
  -- completed_at.
  unfoldable pub insert_onboarding_row : String → Db → Result Db
  insert_onboarding_row player_id db =
      if any (λ r. r.player_id == player_id) db.player_onboarding
      then err (pg_error pg_code_unique_violation "duplicate key value violates unique constraint")
      else ok (record db {
        player_onboarding =
            db.player_onboarding
            ++ record { player_id = player_id; completed_at = c.now begin_tx } ∷ [];
      })

  abbrev pub new_outbox_row : OutboxEvent → OutboxRow
  new_outbox_row ev = record {
    event_id = ev.event_id;
    event_type = ev.event_type;
    payload = ev.payload;
    created_at = c.now begin_tx;
    published_at = none;
    failure_count = 0;
    last_error = none;
    last_attempted_at = none;
  }

  -- INSERT INTO scenario.outbox_events, under its primary key.
  unfoldable pub insert_outbox_row : OutboxEvent → Db → Result Db
  insert_outbox_row ev db =
      if any (λ r. r.event_id == ev.event_id) db.outbox_events
      then err (pg_error pg_code_unique_violation "duplicate key value violates unique constraint")
      else ok (record db { outbox_events = db.outbox_events ++ new_outbox_row ev ∷ [] })

  unfoldable pub write_outbox_event : OutboxEvent → Db → Result Db
  unfolding insert_outbox_row
  write_outbox_event ev tx =
      rewrite_error (wrap "insert outbox event")
        (tx_exec c (insert_outbox_event ev.event_id) (insert_outbox_row ev) tx)

  -- The loop over `events`.
  unfoldable pub write_events : List OutboxEvent → Db → Result Db
  write_events [] tx = ok tx
  write_events (ev ∷ events) tx = do
    tx' ← rewrite_error (wrap "write outbox event") (write_outbox_event ev tx)
    write_events events tx'

  -- The unique violation becomes the port's sentinel.
  abbrev insert_error : Error → Error
  insert_error e = elim (as_pg_code e) [
    | none ↦ wrap "insert player_onboarding" e
    | some code ↦
        if code == pg_code_unique_violation
        then sentinel (port PortError.already_onboarded)
        else wrap "insert player_onboarding" e
  ]

  unfoldable pub mark_complete_body : String → List OutboxEvent → Db → Result Db
  unfolding insert_onboarding_row
  mark_complete_body player_id events tx = do
    tx' ←
        rewrite_error insert_error
          (tx_exec c (insert_onboarding player_id) (insert_onboarding_row player_id) tx)
    write_events events tx'

  unfoldable pub mark_complete : String → List OutboxEvent → Action Db (Unit {0})
  unfolding mark_complete_body
  mark_complete player_id events = transaction c (mark_complete_body player_id events)

  unfoldable pub publish_events : List OutboxEvent → Action Db (Unit {0})
  publish_events [] db = (ok tt, db)
  publish_events (ev ∷ events) db = transaction c (write_events (ev ∷ events)) db

  -- `var _ port.OnboardingRepo = (*OnboardingRepository)(nil)`
  abbrev pub onboarding_repository : OnboardingRepo Db
  onboarding_repository = record { mark_complete = mark_complete; publish_events = publish_events }
