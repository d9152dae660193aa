-- ===== src/Worker.antt =====
-- internal/handler/worker/outbox_ticker.go
pub mod Ticks
use overload_party_scenario.Common.{
  ℕ, String, Bool, Option, none, some, List, [], ◌∷◌, if◌then◌else◌,
}
use overload_party_scenario.Common.Int.{ℤ, pos, leb_ℤ}
use overload_party_scenario.Errors.{Error, Result, ok, err, panic, opaque}
use overload_party_scenario.Errors.Action.{Action}

-- A ticker: the runner, whose value changes with what each run meets, is given tick by tick.
pub record OutboxTicker : Type 0 where
  pub interval : ℤ

-- NewOutboxTicker; an absent runner is Go's nil.
unfoldable pub new_outbox_ticker : {R : Type 0} → Option R → ℤ → Result OutboxTicker
new_outbox_ticker none interval = err (opaque "outbox ticker: runner is nil")
new_outbox_ticker (some r) interval =
    if leb_ℤ interval (pos 0)
    then err (opaque "outbox ticker: interval must be positive")
    else ok (record { interval = interval })

-- What the `select` of the loop receives: a tick, with the run that it starts, or ctx.Done().
pub data Signal (S : Type 0) : Type 0 where
  tick : Action S (Unit {0}) → Signal S
  done : Signal S

-- How far the loop has come: stopped with a nil error, still waiting, or taken down by a panic.
pub data Ending : Type 0 where
  stopped waiting crashed : Ending

module _ {S : Type 0} where
  -- The loop of Run on the signals that it receives. A failed run is only logged.
  pub run : List (Signal S) → S → Ending × S
  run [] s = (waiting, s)
  run (done ∷ signals) s = (stopped, s)
  run (tick run_once ∷ signals) s =
      let (r, s') = run_once s in
      let on = run signals s' in elim r [ ok _ ↦ on | err e ↦ on | panic p ↦ (crashed, s') ]
