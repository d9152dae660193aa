-- ===== src/Wiring/Serving.antt =====
-- cmd/server/main.go: what the service runs behind its resources, and the end of its errgroup.
use overload_party_scenario.Common.{
  String, Bool, false, Option, none, some, List, [], ◌∷◌, eqb, if◌then◌else◌,
}
use overload_party_scenario.Errors.{
  Error, Result, ok, err, wrap, sentinel, library, server_closed, address, rewrite_error, ◌>>=◌,
  ◌>>◌,
}
use overload_party_scenario.Config.{Config}
use overload_party_scenario.Postgres.{Conn}
use overload_party_scenario.Postgres.OutboxRepository.{outbox_repository}
use overload_party_scenario.World.{Message, outbox_store_on_db}
use overload_party_scenario.Adapter.Publisher.{Publisher, Fate, raw_event_publisher}
use overload_party_scenario.Adapter.ScriptStores.{GcsRead, FileRead}
use overload_party_scenario.Outbox
use overload_party_scenario.Worker.{OutboxTicker, new_outbox_ticker}

-- The three functions of the errgroup.
pub data Goroutine : Type 0 where
  serving ticking stopping : Goroutine

-- What the libraries' calls return; of a constructor, its error, with nil as `none`. `finished` is the order in which the functions of the errgroup
-- return; `listen_and_serve`, `ticker_run` and `shutdown` are their calls' errors.
pub record Environment : Type 0 where
  pub config : Result Config
  pub pgxpool_new : Option Error
  pub pgxpool_new_with_config : Option Error
  pub parse_database_conn : Option Error
  pub new_dialer : Option Error
  pub firestore_new_client : Option Error
  pub storage_new_client : Option Error
  pub pubsub_new_client : Option Error
  pub parse_public_key : Option Error
  pub conn : Conn
  pub send : Message → Fate
  pub quote : String → String
  pub render : Error → String
  pub fetch : String → String → GcsRead
  pub join : String → String → String
  pub read_file : String → FileRead
  pub finished : List Goroutine
  pub listen_and_serve : Option Error
  pub ticker_run : Option Error
  pub shutdown : Option Error

-- The outcome of a constructor.
abbrev pub made : Option Error → Result (Unit {0})
made none = ok tt
made (some e) = err e

-- `err != nil && err != http.ErrServerClosed`
abbrev pub is_server_closed : Error → Bool
is_server_closed (sentinel s) = eqb (address s) (address (library server_closed))
is_server_closed _ = false

abbrev pub serving_error : Option Error → Option Error
serving_error none = none
serving_error (some e) = if is_server_closed e then none else some (wrap "http server" e)

abbrev pub stopping_error : Option Error → Option Error
stopping_error none = none
stopping_error (some e) = some (wrap "http shutdown" e)

module _ (env : Environment) where
  abbrev pub error_of : Goroutine → Option Error
  error_of serving = serving_error env.listen_and_serve
  error_of ticking = env.ticker_run
  error_of stopping = stopping_error env.shutdown

  -- g.Wait: the error of the first function to fail.
  abbrev pub wait : List Goroutine → Result (Unit {0})
  wait [] = ok tt
  wait (g ∷ rest) = let later = wait rest in elim (error_of g) [ none ↦ later | some e ↦ err e ]

  -- The ticker is one of the functions.
  unfoldable pub run_http : OutboxTicker → Result (Unit {0})
  run_http ticker = wait env.finished

  -- The part of `run` behind the resources; the services and the handlers are only put together there.
  unfoldable pub serve : Config → Publisher → Result (Unit {0})
  serve cfg publisher = do
    relay ← rewrite_error (wrap "outbox relay") (
        Outbox.new (some (outbox_store_on_db (outbox_repository env.conn)))
          (some (raw_event_publisher env.send publisher))
          (record {
            batch_size = cfg.outbox_batch_size;
            failure_threshold = cfg.outbox_failure_threshold;
            visibility_timeout = cfg.outbox_visibility_timeout;
          }))
    ticker ←
        rewrite_error (wrap "outbox ticker")
          (new_outbox_ticker (some relay) cfg.outbox_poll_interval)
    rewrite_error (wrap "INTERNAL_AUTH_PUBLIC_KEY is invalid") (made env.parse_public_key)
    run_http ticker
