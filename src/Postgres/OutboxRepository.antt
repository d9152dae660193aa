-- ===== src/Postgres/OutboxRepository.antt =====
-- outbox_repo.go
pub mod Claim
pub mod Content
pub mod Published
use overload_party_scenario.Common.{
  ℕ, ◌+◌, ◌*◌, ◌/◌, ◌^◌, String, ◌==◌, Bool, true, false, Option, none, some, List, [], ◌∷◌, ◌++◌,
  map, take, filter, any, ltb, leb, ◌-◌, ◌&&◌, not, if◌then◌else◌,
}
use Prim.Native.String
use overload_party_scenario.Errors.{Error, Result, ok, err, panic, wrap, pg_error}
use overload_party_scenario.Errors.Action.{Action, on_error}
use overload_party_scenario.Port.{ClaimedOutboxEvent, OutboxStore}
use overload_party_scenario.Postgres.{
  Conn, Fault, stage_error, claim_outbox_events, update_published, update_failure, exec,
}
use overload_party_scenario.Postgres.Tables.{Db, OutboxRow, sort_by}

-- visibilityTimeout.Milliseconds(), as a Postgres interval in microseconds.
abbrev pub visibility_interval : ℕ → ℕ
visibility_interval timeout = timeout / 1000000 * 1000

-- The largest value of an INT column.
abbrev pub int_max : ℕ
int_max = 2 ^ 31 - 1

module _ (c : Conn) where
  -- last_attempted_at IS NULL OR last_attempted_at < now() - interval
  abbrev pub is_visible : ℕ → Option ℕ → Bool
  is_visible interval none = true
  is_visible interval (some t) = ltb (t + interval) (c.now claim_outbox_events)

  abbrev pub is_unpublished : Option ℕ → Bool
  is_unpublished none = true
  is_unpublished (some _) = false

  -- The WHERE clause of the claim.
  unfoldable pub is_claimable : ℕ → ℕ → OutboxRow → Bool
  is_claimable timeout threshold r =
      is_unpublished r.published_at
      && (ltb r.failure_count threshold
          && is_visible (visibility_interval timeout) r.last_attempted_at)

  -- ORDER BY created_at LIMIT $1 FOR UPDATE SKIP LOCKED
  unfoldable pub claimed_rows : ℕ → ℕ → ℕ → Db → List OutboxRow
  unfolding is_claimable
  claimed_rows limit timeout threshold db = take limit (
      filter (λ r. not (c.is_locked r.event_id))
        (sort_by (λ a b. leb a.created_at b.created_at)
          (filter (is_claimable timeout threshold) db.outbox_events)))

  -- WHERE o.event_id = c.event_id
  abbrev pub holds_id : List OutboxRow → String → Bool
  holds_id rows id = any (λ r. r.event_id == id) rows

  -- SET last_attempted_at = now()
  abbrev pub touch : OutboxRow → OutboxRow
  touch r = record r { last_attempted_at = some (c.now claim_outbox_events) }

  abbrev pub returned : OutboxRow → ClaimedOutboxEvent
  returned r = record {
    event_id = r.event_id;
    event_type = r.event_type;
    payload = r.payload;
    failure_count = r.failure_count;
  }

  -- The tables after the UPDATE of the claimed rows.
  unfoldable pub touch_claimed : List OutboxRow → Db → Db
  touch_claimed rows db = record db {
    outbox_events = map (λ r. if holds_id rows r.event_id then touch r else r) db.outbox_events;
  }

  unfoldable pub claim_unpublished : ℕ → ℕ → ℕ → Action Db (List ClaimedOutboxEvent)
  unfolding claimed_rows touch_claimed
  claim_unpublished limit timeout threshold db =
      let rows = claimed_rows limit timeout threshold db in
      let db' = touch_claimed rows db in
      elim (c.fault claim_outbox_events) [
        | none ↦ (ok (map returned rows), db')
        | some f ↦ (
          err (stage_error "claim unpublished" "scan claimed row" "iterate claimed rows" f),
          if f.took_effect then db' else db,
        )
      ]

  -- UPDATE ... WHERE event_id = $1
  abbrev pub update_row : String → (OutboxRow → OutboxRow) → Db → Db
  update_row id f db = record db {
    outbox_events = map (λ r. if r.event_id == id then f r else r) db.outbox_events;
  }

  abbrev pub set_published : String → OutboxRow → OutboxRow
  set_published id r = record r {
    published_at = some (c.now (update_published id));
    last_error = none;
    last_attempted_at = some (c.now (update_published id));
  }

  pub mark_published : String → Action Db (Unit {0})
  mark_published id =
      on_error (wrap (String.◌++◌ "mark published event_id=" id))
        (exec c (update_published id) (λ db. ok (update_row id (set_published id) db)))

  abbrev pub set_failed : String → String → OutboxRow → OutboxRow
  set_failed id message r = record r {
    failure_count = r.failure_count + 1;
    last_error = some message;
    last_attempted_at = some (c.now (update_failure id));
  }

  -- The addition leaves the range of INT.
  abbrev pub overflows : String → Db → Bool
  overflows id db = any (λ r. r.event_id == id && leb int_max r.failure_count) db.outbox_events

  pub add_failure : String → String → Db → Result Db
  add_failure id message db =
      if overflows id db
      then err (pg_error "22003" "integer out of range")
      else ok (update_row id (set_failed id message) db)

  pub record_failure : String → String → Action Db (Unit {0})
  unfolding add_failure
  record_failure id message =
      on_error (wrap (String.◌++◌ "record failure event_id=" id))
        (exec c (update_failure id) (add_failure id message))

  -- `var _ port.OutboxStore = (*OutboxRepository)(nil)`
  abbrev pub outbox_repository : OutboxStore Db
  outbox_repository = record {
    claim_unpublished = claim_unpublished;
    mark_published = mark_published;
    record_failure = record_failure;
  }
