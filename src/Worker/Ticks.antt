-- ===== src/Worker/Ticks.antt =====
-- The loop of the worker goes on after a run that failed.
use overload_party_scenario.Common.{String, ◌≡◌, ◌≢◌, refl, List, [], ◌∷◌, ◌++◌, map, All}
use overload_party_scenario.Errors.{Result, ok, err, panic}
use overload_party_scenario.Errors.Action.{Action}
use overload_party_scenario.Worker.{Signal, tick, done, Ending, stopped, run}

module _ {S : Type 0} where
  -- The state after every run of a list, one after the other.
  abbrev pub after_runs : List (Action S (Unit {0})) → S → S
  after_runs [] s = s
  after_runs (m ∷ ms) s = after_runs ms (m s).1

  abbrev pub NeverPanics : Action S (Unit {0}) → Type 0
  NeverPanics m = (s : S) (text : String) → (m s).0 ≢ panic text

  -- If no run panics, the loop makes a run for each tick before the end of the context, whether the
  -- runs fail or not, takes no signal after it, and stops without an error.
  pub run-ticks :
      (ms : List (Action S (Unit {0}))) (rest : List (Signal S)) (s : S)
      → All NeverPanics ms
      → run (map tick ms ++ done ∷ rest) s ≡ (stopped, after_runs ms s)
  unfolding run
  run-ticks [] rest s h = refl
  run-ticks (m ∷ ms) rest s h =
      go_on (m s).0 (h.0 s) (Ending.crashed, (m s).1) (run-ticks ms rest (m s).1 h.1)
    where
      go_on :
          (r : Result (Unit {0}))
          → ((text : String) → r ≢ panic text)
          → (e' : Ending × S) → {e : Ending × S} → run (map tick ms ++ done ∷ rest) (m s).1 ≡ e
          → elim r [
            | ok _ ↦ run (map tick ms ++ done ∷ rest) (m s).1
            | err x ↦ run (map tick ms ++ done ∷ rest) (m s).1
            | panic x ↦ e'
          ]
            ≡ e
      go_on (ok u) k e' h = h
      go_on (err x) k e' h = h
      go_on (panic x) k e' h = absurd (k x refl)
