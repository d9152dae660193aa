-- ===== src/Postgres.antt =====
-- internal/repository/postgres over the tables of db/schema.sql. A statement of the Go code is a
-- function on the tables; whether the driver or the server fails it is a parameter.
pub mod Tables
pub mod Sorting
pub mod StoryRepository
pub mod OnboardingRepository
pub mod OutboxRepository
use overload_party_scenario.Common.{ℕ, String, Bool, true, false, Option, none, some, if◌then◌else◌}
use overload_party_scenario.Errors.{Error, Result, ok, err, panic, wrap, opaque}
use overload_party_scenario.Errors.Action.{Action}
use overload_party_scenario.Postgres.Tables.{Db}

-- The statements of the three repositories.
pub data Statement : Type 0 where
  select_active_episodes claim_outbox_events begin_tx commit_tx : Statement
  select_episode select_completed insert_onboarding insert_outbox_event : String → Statement
  update_published update_failure : String → Statement
  insert_progress : String → String → Statement

-- Where pgx reports an error: by the call, while a row is scanned, or after the last row.
pub data Stage : Type 0 where
  query scan iterate : Stage

-- A failure outside the program's control, with its text. The statement may have taken effect all the same, when
-- only its acknowledgement was lost.
pub record Fault : Type 0 where
  pub stage : Stage
  pub cause : String
  pub took_effect : Bool

-- What the server and the driver do with the statements of one call of the program: `now()` of each
-- statement, in microseconds (of a transaction, that of its begin), the failures, the outbox rows that other sessions hold locked, and the collation.
pub record Conn : Type 0 where
  pub now : Statement → ℕ
  pub fault : Statement → Option Fault
  pub is_locked : String → Bool
  pub collates : String → String → Bool

-- The three `fmt.Errorf` of a method that reads rows.
abbrev pub stage_error : String → String → String → Fault → Error
stage_error query_text scan_text iterate_text f = elim f.stage [
  | Stage.query ↦ wrap query_text (opaque f.cause)
  | Stage.scan ↦ wrap scan_text (opaque f.cause)
  | Stage.iterate ↦ wrap iterate_text (opaque f.cause)
]

-- The tables after a statement: an error leaves them alone.
abbrev pub tables_after : Result Db → Db → Db
tables_after (ok db') db = db'
tables_after (err e) db = db
tables_after (panic p) db = db

abbrev pub outcome : Result Db → Result (Unit {0})
outcome (ok db') = ok tt
outcome (err e) = err e
outcome (panic p) = panic p

module _ (c : Conn) where
  -- pool.Exec of one statement, which commits by itself. `run` is the statement on the tables.
  abbrev pub exec : Statement → (Db → Result Db) → Action Db (Unit {0})
  exec st run db = elim (c.fault st) [
    | none ↦ (outcome (run db), tables_after (run db) db)
    | some f ↦ (err (opaque f.cause), if f.took_effect then tables_after (run db) db else db)
  ]

  -- tx.Exec inside a transaction, on the tables that the transaction sees.
  abbrev pub tx_exec : Statement → (Db → Result Db) → Db → Result Db
  tx_exec st run tx = elim (c.fault st) [ none ↦ run tx | some f ↦ err (opaque f.cause) ]

  -- tx.Commit, then the deferred Rollback, which does nothing after a commit.
  abbrev pub commit : Db → Action Db (Unit {0})
  commit tx db = elim (c.fault commit_tx) [
    | none ↦ (ok tt, tx)
    | some f ↦ (err (wrap "commit tx" (opaque f.cause)), if f.took_effect then tx else db)
  ]

  -- The end of a transaction whose statements have run: commit, or the deferred Rollback.
  abbrev pub finish : Result Db → Action Db (Unit {0})
  finish (ok tx) db = commit tx db
  finish (err e) db = (err e, db)
  finish (panic p) db = (panic p, db)

  -- pool.BeginTx, the statements, the commit or the rollback.
  abbrev pub transaction : (Db → Result Db) → Action Db (Unit {0})
  transaction body db = elim (c.fault begin_tx) [
    | none ↦ finish (body db) db
    | some f ↦ (err (wrap "begin tx" (opaque f.cause)), db)
  ]
