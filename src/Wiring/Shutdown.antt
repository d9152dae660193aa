-- ===== src/Wiring/Shutdown.antt =====
-- Every path of `run` closes what it has opened.
use overload_party_scenario.Common.{
  ◌≡◌, refl, Bool-cases, inl, inr, Option, none, some, Option-cases, List, [], ◌∷◌,
}
use overload_party_scenario.Errors.{Error, Result, ok, err, panic, rewrite_error}
use overload_party_scenario.Config.{Config, is_local_story}
use overload_party_scenario.Adapter.Publisher.{Publisher}
use overload_party_scenario.Wiring.{
  Resource, pool, firestore, pubsub, signals, Trace, close_resource, close_optional, close_database,
  new_database_pool, new_database_pool_with_iam_auth, build_script_store, run_with_pubsub,
  run_with_firestore, run_with_pool, run_with_signals, run,
}
use overload_party_scenario.Wiring.Serving.{Environment, serve}
use overload_party_scenario.Wiring.Resources.{
  still_open, Left, Acquires, Keeps, Releases, with_deferred-Keeps, open_resource-Acquires,
  close_resource-Releases, lift-Keeps, lift-then-Keeps,
}

abbrev held_by : Option Resource → List Resource → List Resource
held_by none held = held
held_by (some r) held = r ∷ held

close_optional-Releases :
    {A : Type 0} (closer : A → Option Resource)
    → Releases {A = A} (λ a held. held_by (closer a) held) (λ a. close_optional (closer a))
close_optional-Releases closer a = releases (closer a)
  where
    releases :
        (r : Option Resource) (trace : Trace) (held : List Resource)
        → still_open trace ≡ some (held_by r held)
        → still_open (close_optional r trace).1 ≡ some held
    releases none trace held h = h
    releases (some r) trace held h = close_resource-Releases {A = Unit {0}} r tt trace held h

close_database-Releases :
    Releases (λ close_dialer held. pool ∷ held_by close_dialer held) close_database
close_database-Releases close_dialer trace held h =
    close_optional-Releases (λ d. d) close_dialer (close_resource pool trace).1 held
      (close_resource-Releases {A = Unit {0}} pool tt trace (held_by close_dialer held) h)

Left-on_error :
    {A : Type 0} (f : Error → Error) (opens : A → List Resource) (before : List Resource)
    (outcome : Result A × Trace)
    → Left opens before outcome
    → Left opens before (rewrite_error f outcome.0, outcome.1)
Left-on_error f opens before (ok a, trace) left = left
Left-on_error f opens before (err e, trace) left = left
Left-on_error f opens before (panic p, trace) left = left

module _ (env : Environment) where
  iam-Left :
      (trace : Trace) (held : List Resource)
      → still_open trace ≡ some held
      → Left
          (λ close_dialer. pool ∷ held_by close_dialer held)
          held
          (new_database_pool_with_iam_auth env trace)
  unfolding new_database_pool_with_iam_auth
  iam-Left trace held h = elim (Option-cases env.parse_database_conn) [
    | inr (e, bad) ↦ rw (new_database_pool_with_iam_auth, bad) h
    | inl parsed ↦ elim (Option-cases env.new_dialer) [
      | inr (e, bad) ↦ rw (new_database_pool_with_iam_auth, parsed, bad) h
      | inl dialed ↦ elim (Option-cases env.pgxpool_new_with_config) [
        | inr (e, bad) ↦ rw (new_database_pool_with_iam_auth, parsed, dialed, bad, h) refl
        | inl made ↦ rw (new_database_pool_with_iam_auth, parsed, dialed, made, h) refl
      ]
    ]
  ]

  new_database_pool-Acquires :
      (cfg : Config)
      → Acquires (λ close_dialer held. pool ∷ held_by close_dialer held) (new_database_pool env cfg)
  unfolding new_database_pool
  new_database_pool-Acquires cfg trace held h = elim (Bool-cases cfg.database_iam_auth_enabled) [
    | inl iam ↦ rw (new_database_pool, iam) (iam-Left trace held h)
    | inr plain ↦ elim (Option-cases env.pgxpool_new) [
      | inl made ↦ rw (new_database_pool, plain, made, h) refl
      | inr (e, bad) ↦ rw (new_database_pool, plain, bad) h
    ]
  ]

  build_script_store-Acquires :
      (cfg : Config) → Acquires (λ built held. held_by built.1 held) (build_script_store env cfg)
  unfolding build_script_store
  build_script_store-Acquires cfg trace held h =
      elim (Bool-cases (is_local_story cfg.story_bucket)) [
        | inl local ↦ rw (build_script_store, local) h
        | inr remote ↦ elim (Option-cases env.storage_new_client) [
          | inl made ↦ rw (build_script_store, remote, made, h) refl
          | inr (e, bad) ↦ rw (build_script_store, remote, bad) h
        ]
      ]

  run_with_pubsub-Keeps :
      (cfg : Config) (publisher : Publisher) → Keeps (run_with_pubsub env cfg publisher)
  unfolding run_with_pubsub
  run_with_pubsub-Keeps cfg publisher =
      with_deferred-Keeps _ _ _ (close_optional-Releases (λ built. built.1))
        (λ built. lift-Keeps (serve env cfg publisher)) _ (build_script_store-Acquires cfg)

  run_with_firestore-Keeps : (cfg : Config) → Keeps (run_with_firestore env cfg)
  unfolding run_with_firestore
  run_with_firestore-Keeps cfg =
      with_deferred-Keeps _ _ _ (close_resource-Releases pubsub) (run_with_pubsub-Keeps cfg) _
        (open_resource-Acquires pubsub _)

  run_with_pool-Keeps : (cfg : Config) → Keeps (run_with_pool env cfg)
  unfolding run_with_pool
  run_with_pool-Keeps cfg =
      with_deferred-Keeps _ _ _ (close_resource-Releases firestore)
        (λ client. run_with_firestore-Keeps cfg) _ (open_resource-Acquires firestore _)

  run_with_signals-Keeps : (cfg : Config) → Keeps (run_with_signals env cfg)
  unfolding run_with_signals
  run_with_signals-Keeps cfg =
      with_deferred-Keeps _ _ _ close_database-Releases (λ close_dialer. run_with_pool-Keeps cfg) _
        (λ trace held h.
          Left-on_error _ _ held (new_database_pool env cfg trace)
            (new_database_pool-Acquires cfg trace held h))

  -- Whatever the constructors return, and however the service ends, `run` closes each resource that
  -- it has opened, once, before those that were opened earlier, and leaves none open.
  pub run_closes_all : still_open (run env []).1 ≡ some []
  unfolding run
  run_closes_all =
      lift-then-Keeps env.config _
        (λ cfg.
          with_deferred-Keeps _ _ _ (close_resource-Releases signals)
            (λ _. run_with_signals-Keeps cfg) _ (open_resource-Acquires signals (ok tt)))
        [] [] refl
