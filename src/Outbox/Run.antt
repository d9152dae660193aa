-- ===== src/Outbox/Run.antt =====
-- A run of the relay on the tables and Pub/Sub: what it may change, and what it delivers.
use overload_party_scenario.Common.{ℕ, String, Option, none, some, List, [], ◌∷◌}
use overload_party_scenario.Errors.{Error, wrap}
use overload_party_scenario.Errors.Action.{attempt, on_error}
use overload_party_scenario.Errors.Action.Inversion.{>>=-keeps}
use overload_party_scenario.ApiScenario.{Payload}
use overload_party_scenario.Port.{ClaimedOutboxEvent}
use overload_party_scenario.Postgres.{Conn}
use overload_party_scenario.Postgres.OutboxRepository.{outbox_repository}
use overload_party_scenario.World.{World, Message, outbox_store_on_db}
use overload_party_scenario.Adapter.Publisher.{Publisher, Fate, raw_event_publisher}
use overload_party_scenario.Outbox.{Relay, settle, process_one, process_all, run_once}

-- The relay as cmd/server wires it: the Postgres store and the Pub/Sub publisher.
abbrev pub relay :
    Conn
    → (Message → Fate)
    → Publisher
    → (batch_size failure_threshold visibility_timeout : ℕ) → Relay World
relay c send p batch_size failure_threshold visibility_timeout = record {
  store = outbox_store_on_db (outbox_repository c);
  publisher = raw_event_publisher send p;
  batch_size = batch_size;
  failure_threshold = failure_threshold;
  visibility_timeout = visibility_timeout;
}

-- A property that each of the four calls of a run keeps is kept by the run.
module _ (render : Error → String) {S : Type 0} (r : Relay S) (P : S → Type 0)
    (claim_keeps : (s : S)
      → P s
      → P (r.store.claim_unpublished r.batch_size r.visibility_timeout r.failure_threshold s).1)
    (publish_keeps : (t : String) (b : Payload) (s : S) → P s → P (r.publisher.publish t b s).1)
    (mark_keeps : (id : String) (s : S) → P s → P (r.store.mark_published id s).1)
    (fail_keeps : (id m : String) (s : S) → P s → P (r.store.record_failure id m s).1) where
  settle-keeps :
      (ev : ClaimedOutboxEvent) (e : Option Error) (s : S) → P s → P (settle render r ev e s).1
  unfolding settle
  settle-keeps ev none s h =
      >>=-keeps P (attempt (r.store.mark_published ev.event_id)) _ s (mark_keeps ev.event_id s h)
        λ e _. mark_keeps ev.event_id s h
  settle-keeps ev (some e) s h =
      >>=-keeps P (attempt (r.store.record_failure ev.event_id (render e))) _ s
        (fail_keeps ev.event_id (render e) s h) λ e' _. fail_keeps ev.event_id (render e) s h

  process_one-keeps : (ev : ClaimedOutboxEvent) (s : S) → P s → P (process_one render r ev s).1
  unfolding process_one
  process_one-keeps ev s h =
      let h' = publish_keeps ev.event_type ev.payload s h in
      >>=-keeps P (attempt (r.publisher.publish ev.event_type ev.payload)) _ s h'
        λ e _. settle-keeps ev e _ h'

  process_all-keeps :
      (evs : List ClaimedOutboxEvent) (s : S) → P s → P (process_all render r evs s).1
  unfolding process_all
  process_all-keeps [] s h = h
  process_all-keeps (ev ∷ evs) s h =
      let h' = process_one-keeps ev s h in
      >>=-keeps P (process_one render r ev) _ s h' λ logs _.
        let h'' = process_all-keeps evs _ h' in
        >>=-keeps P (process_all render r evs) _ _ h'' λ rest _. h''

  pub run_once-keeps : (s : S) → P s → P (run_once render r s).1
  unfolding run_once
  run_once-keeps s h =
      let h' = claim_keeps s h in
      >>=-keeps P
        (on_error (wrap "claim unpublished")
          (r.store.claim_unpublished r.batch_size r.visibility_timeout r.failure_threshold))
        _ s h' λ evs _. process_all-keeps evs _ h'
