-- ===== src/Wiring.antt =====
-- cmd/server: the startup and the shutdown of the service (main.go, db.go). What the libraries'
-- constructors return is a parameter; the opening and the closing of each resource is recorded.
pub mod Logging
pub mod Serving
pub mod Resources
pub mod Shutdown
use overload_party_scenario.Common.{Option, none, some, List, ◌∷◌, if◌then◌else◌}
use overload_party_scenario.Errors.{Error, Result, ok, err, panic, wrap, rewrite_error}
use overload_party_scenario.Errors.Action.{Action, pure, lift, on_error, ◌>>=◌, ◌>>◌}
use overload_party_scenario.Config.{Config, is_local_story, story_local_path}
use overload_party_scenario.Port.{ScriptStore}
use overload_party_scenario.Adapter.Publisher.{new as new_publisher, Publisher}
use overload_party_scenario.Adapter.ScriptStores.{gcs_script_store, local_script_store}
use overload_party_scenario.Wiring.Serving.{Environment, made, serve}

-- What the process opens: the signal handling, the Cloud SQL dialer, the database pool, and the clients of
-- Firestore, Pub/Sub and Cloud Storage.
pub data Resource : Type 0 where
  signals dialer pool firestore pubsub storage : Resource

pub data Event : Type 0 where
  opened closed : Resource → Event

-- The events so far, the latest first.
abbrev pub Trace : Type 0
Trace = List Event

abbrev pub log_event : Event → Action Trace (Unit {0})
log_event e trace = (ok tt, e ∷ trace)

abbrev pub open_resource : {A : Type 0} → Resource → Result A → Action Trace A
open_resource r result = do a ← lift result; log_event (opened r); pure a

-- `defer close()` in front of the rest of a function: it runs however the rest ends.
abbrev pub deferred : {A : Type 0} → Action Trace (Unit {0}) → Action Trace A → Action Trace A
deferred close body trace = let (r, trace') = body trace in (r, (close trace').1)

abbrev pub close_resource : Resource → Action Trace (Unit {0})
close_resource r = log_event (closed r)

-- A resource, its deferred close, and the rest of the function.
unfoldable pub with_deferred :
    {A B : Type 0}
    → Action Trace A
    → (A → Action Trace (Unit {0}))
    → (A → Action Trace B)
    → Action Trace B
with_deferred acquire close body = do a ← acquire; deferred (close a) (body a)

-- The closer that newDatabasePool returns: nothing, or closeDialer.
abbrev pub close_optional : Option Resource → Action Trace (Unit {0})
close_optional none = pure tt
close_optional (some r) = close_resource r

-- `defer closeDatabasePool()` and `defer pool.Close()`, which runs first.
abbrev pub close_database : Option Resource → Action Trace (Unit {0})
close_database close_dialer = do close_resource pool; close_optional close_dialer

-- `if err != nil { closeDialer(dialer); return … }`
abbrev pub close_on_error : {A : Type 0} → Resource → Result A → Action Trace A
close_on_error r (ok a) trace = (ok a, trace)
close_on_error r (err e) trace = (err e, closed r ∷ trace)
close_on_error r (panic p) trace = (panic p, trace)

module _ (env : Environment) where
  unfoldable pub new_database_pool_with_iam_auth : Action Trace (Option Resource)
  new_database_pool_with_iam_auth = do
    lift (rewrite_error (wrap "parse database conn") (made env.parse_database_conn))
    open_resource dialer (rewrite_error (wrap "cloudsqlconn new dialer") (made env.new_dialer))
    close_on_error dialer
        (rewrite_error (wrap "pgxpool new with config") (made env.pgxpool_new_with_config))
    log_event (opened pool)
    pure (some dialer)

  unfoldable pub new_database_pool : Config → Action Trace (Option Resource)
  new_database_pool cfg =
      if cfg.database_iam_auth_enabled then new_database_pool_with_iam_auth else plain
    where
      plain : Action Trace (Option Resource)
      plain = do
        open_resource pool (rewrite_error (wrap "pgxpool new") (made env.pgxpool_new))
        pure none

  -- The store, and the client to close.
  unfoldable pub build_script_store : Config → Action Trace (ScriptStore × Option Resource)
  build_script_store cfg =
      if is_local_story cfg.story_bucket
      then pure (
        local_script_store env.quote env.render env.join env.read_file
            (story_local_path cfg.story_bucket),
        none,
      )
      else gcs
    where
      gcs : Action Trace (ScriptStore × Option Resource)
      gcs = do
        open_resource storage (rewrite_error (wrap "gcs client") (made env.storage_new_client))
        pure (gcs_script_store env.quote env.render env.fetch cfg.story_bucket, some storage)

  unfoldable pub run_with_pubsub : Config → Publisher → Action Trace (Unit {0})
  run_with_pubsub cfg publisher =
      with_deferred (build_script_store cfg) (λ built. close_optional built.1)
        (λ built. lift (serve env cfg publisher))

  unfoldable pub run_with_firestore : Config → Action Trace (Unit {0})
  run_with_firestore cfg =
      with_deferred
        (open_resource pubsub (
          rewrite_error (wrap "pubsub publisher") (
            new_publisher env.pubsub_new_client cfg.google_cloud_project_id
              cfg.onboarding_name_set_topic cfg.onboarding_faction_set_topic
              cfg.player_onboarded_topic)))
        (λ publisher. close_resource pubsub) (run_with_pubsub cfg)

  unfoldable pub run_with_pool : Config → Action Trace (Unit {0})
  run_with_pool cfg =
      with_deferred
        (open_resource firestore
          (rewrite_error (wrap "firestore new client") (made env.firestore_new_client)))
        (λ client. close_resource firestore) (λ client. run_with_firestore cfg)

  unfoldable pub run_with_signals : Config → Action Trace (Unit {0})
  run_with_signals cfg =
      with_deferred (on_error (wrap "new database pool") (new_database_pool cfg)) close_database
        (λ close_dialer. run_with_pool cfg)

  unfoldable pub run : Action Trace (Unit {0})
  run = do
    cfg ← lift env.config
    with_deferred (open_resource signals (ok tt)) (λ _. close_resource signals)
        (λ _. run_with_signals cfg)
