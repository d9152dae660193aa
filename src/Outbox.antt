-- ===== src/Outbox.antt =====
-- internal/usecase/outbox: the polling publisher (relay.go). Log lines come back as a list.
pub mod Run
pub mod Events
pub mod AtLeastOnce
pub mod Healthy
use overload_party_scenario.Common.{
  ℕ, ◌+◌, String, Bool, true, false, Option, none, some, List, [], ◌∷◌, ◌++◌, leb, if◌then◌else◌,
}
use overload_party_scenario.Common.Int.{ℤ, pos, leb_ℤ, pos_part}
use overload_party_scenario.Errors.{Error, Result, ok, err, panic, wrap, opaque, rewrite_error}
use overload_party_scenario.Errors.Action.{Action, pure, on_error, attempt, ◌>>=◌}
use overload_party_scenario.Port.{ClaimedOutboxEvent, OutboxStore, RawEventPublisher}
use overload_party_scenario.ApiScenario.{Payload}

-- The type Config; the timeout is in nanoseconds.
pub record Config : Type 0 where
  pub batch_size : ℤ
  pub failure_threshold : ℤ
  pub visibility_timeout : ℤ

-- A Relay's parameters. `new` lets only positive ones through, so they are natural numbers here.
pub record Relay (S : Type 0) : Type 0 where
  pub store : OutboxStore S
  pub publisher : RawEventPublisher S
  pub batch_size : ℕ
  pub failure_threshold : ℕ
  pub visibility_timeout : ℕ

pub data LogLevel : Type 0 where
  warn error : LogLevel

pub record LogLine : Type 0 where
  pub level : LogLevel
  pub message : String
  pub event_id : String

abbrev pub log_line : LogLevel → String → String → LogLine
log_line level message id = record { level = level; message = message; event_id = id }

-- An absent store or publisher is Go's nil.
unfoldable pub new :
    {S : Type 0} → Option (OutboxStore S) → Option (RawEventPublisher S) → Config → Result (Relay S)
new none _ cfg = err (opaque "outbox relay: store is nil")
new (some store) none cfg = err (opaque "outbox relay: publisher is nil")
new (some store) (some publisher) cfg =
    if leb_ℤ cfg.batch_size (pos 0)
    then err (opaque "outbox relay: BatchSize must be positive")
    else if leb_ℤ cfg.failure_threshold (pos 0)
    then err (opaque "outbox relay: FailureThreshold must be positive")
    else if leb_ℤ cfg.visibility_timeout (pos 0)
    then err (opaque "outbox relay: VisibilityTimeout must be positive")
    else ok (record {
      store = store;
      publisher = publisher;
      batch_size = pos_part cfg.batch_size;
      failure_threshold = pos_part cfg.failure_threshold;
      visibility_timeout = pos_part cfg.visibility_timeout;
    })

-- A log line, if there was an error.
abbrev pub log_if : Option Error → LogLine → List LogLine
log_if none line = []
log_if (some e) line = line ∷ []

-- The log of a failed publish: an event that has failed `failure_threshold` times is stuck.
abbrev pub failure_line : ℕ → ClaimedOutboxEvent → LogLine
failure_line threshold ev =
    if leb threshold (ev.failure_count + 1)
    then log_line error "outbox event stuck" ev.event_id
    else log_line warn "outbox publish failed" ev.event_id

-- `render` is `Error()`.
module _ (render : Error → String) {S : Type 0} (r : Relay S) where
  -- The rest of processOne, on the error of Publish.
  pub settle : ClaimedOutboxEvent → Option Error → Action S (List LogLine)
  settle ev none = do
    mark_error ← attempt (r.store.mark_published ev.event_id)
    pure (log_if mark_error (log_line error "mark published failed" ev.event_id))
  settle ev (some pub_error) = do
    record_error ← attempt (r.store.record_failure ev.event_id (render pub_error))
    pure (
        failure_line r.failure_threshold ev
        ∷ log_if record_error (log_line error "record failure failed" ev.event_id))

  pub process_one : ClaimedOutboxEvent → Action S (List LogLine)
  unfolding settle
  process_one ev = do
    pub_error ← attempt (r.publisher.publish ev.event_type ev.payload)
    settle ev pub_error

  -- The loop over the claimed events.
  pub process_all : List ClaimedOutboxEvent → Action S (List LogLine)
  process_all [] = pure []
  process_all (ev ∷ evs) = do logs ← process_one ev; rest ← process_all evs; pure (logs ++ rest)

  pub run_once : Action S (List LogLine)
  run_once = do
    claimed ←
        on_error (wrap "claim unpublished")
          (r.store.claim_unpublished r.batch_size r.visibility_timeout r.failure_threshold)
    process_all claimed
