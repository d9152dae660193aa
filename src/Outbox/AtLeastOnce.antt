-- ===== src/Outbox/AtLeastOnce.antt =====
-- An event is marked as published only after its message has reached the topic of its type.
use overload_party_scenario.Common.{
  ℕ, String, ◌≡◌, refl, sym, ◌∙◌, ap, Option, none, some, List, [], ◌∷◌, map, All, All-map,
  All-of-map, subst,
}
use overload_party_scenario.Errors.{Error, Result, ok, err, panic, wrap}
use overload_party_scenario.Errors.Action.{attempt, noticed, on_error}
use overload_party_scenario.Errors.Action.Inversion.{>>=-keeps, rewrite_error-eq-ok}
use overload_party_scenario.ApiScenario.{Payload}
use overload_party_scenario.Port.{OutboxEvent, ClaimedOutboxEvent}
use overload_party_scenario.Postgres.{Conn}
use overload_party_scenario.Postgres.Tables.{Db, OutboxRow}
use overload_party_scenario.Postgres.OutboxRepository.{mark_published, record_failure}
use overload_party_scenario.Postgres.OutboxRepository.Content.{
  Content, event_of, claim-Content, mark-Content, fail-Content,
}
use overload_party_scenario.Postgres.OutboxRepository.Published.{
  Keyed, Matches, event_of_claimed, claim-All, mark-All, fail-All, claim-Matches,
}
use overload_party_scenario.World.{World, Message, on_db}
use overload_party_scenario.Adapter.Publisher.{Publisher, Fate, topic_of, publish}
use overload_party_scenario.Adapter.Publisher.Delivery.{
  Delivered, publish-db, publish_grows, publish_delivers,
}
use overload_party_scenario.Outbox.{settle, process_one, process_all, run_once, Relay}
use overload_party_scenario.Outbox.Run.{relay}

module _ (p : Publisher) where
  -- What is marked as published has its payload on the topic of its type.
  abbrev pub IsSent : List Message → OutboxRow → Type 0
  IsSent ms r =
      (at : ℕ)
      → r.published_at ≡ some at
      → (t : String) × (topic_of p.by_event_type r.event_type ≡ some t)
        × Delivered (record { topic = t; payload = r.payload }) ms

  abbrev pub IsDelivered : World → Type 0
  IsDelivered w = All (IsSent w.delivered) w.db.outbox_events

-- The event of `ev`, on its topic.
abbrev HasArrived : Publisher → OutboxEvent → List Message → Type 0
HasArrived p e ms =
    (t : String) × (topic_of p.by_event_type e.event_type ≡ some t)
    × Delivered (record { topic = t; payload = e.payload }) ms

module _ (render : Error → String) (c : Conn) (send : Message → Fate) (p : Publisher) where
  publish-IsDelivered :
      (t : String) (b : Payload) (w : World)
      → IsDelivered p w
      → IsDelivered p (publish send p t b w).1
  publish-IsDelivered t b w h = rw (publish-db send p t b w) (
      All-map
        (λ r k at e.
          let (topic, known, sent) = k at e in (topic, known, publish_grows send p t b w _ sent))
        w.db.outbox_events h)

  mark-IsDelivered :
      (e : OutboxEvent) (w : World)
      → Matches e (map event_of w.db.outbox_events)
      → HasArrived p e w.delivered
      → IsDelivered p w
      → All (IsSent p w.delivered) (mark_published c e.event_id w.db).1.outbox_events
  mark-IsDelivered e w m arrived h =
      mark-All c (IsSent p w.delivered) (λ r. r.event_id ≡ e.event_id → event_of r ≡ e) e.event_id
        (λ r same q k at _.
          let is_e : event_of r ≡ e = q same in
          subst (λ (x : OutboxEvent). HasArrived p x w.delivered) (sym is_e) arrived)
        w.db ((All-of-map (λ x. x.event_id ≡ e.event_id → x ≡ e) event_of w.db.outbox_events).0 m) h

  noticed-none : (r : Result (Unit {0})) → noticed r ≡ ok none → r ≡ ok tt
  noticed-none (ok tt) h = refl
  noticed-none (err e) h = cc
  noticed-none (panic q) h = cc

  module _ (batch_size failure_threshold visibility_timeout : ℕ) (db₁ : Db) where
    abbrev wired : Relay World
    wired = relay c send p batch_size failure_threshold visibility_timeout

    -- What the loop keeps.
    abbrev Inv : World → Type 0
    Inv v = IsDelivered p v × Content v.db db₁

    publish-Inv : (t : String) (b : Payload) (w : World) → Inv w → Inv (publish send p t b w).1
    publish-Inv t b w i = (publish-IsDelivered t b w i.0, rw (publish-db send p t b w) i.1)

    settle-Inv :
        (ev : ClaimedOutboxEvent) (e : Option Error) (w : World)
        → Matches (event_of_claimed ev) (map event_of db₁.outbox_events)
        → (e ≡ none → HasArrived p (event_of_claimed ev) w.delivered)
        → Inv w
        → Inv (settle render wired ev e w).1
    unfolding settle
    settle-Inv ev none w m arrived i =
        let i' : Inv (on_db (mark_published c ev.event_id) w).1 = (
          mark-IsDelivered (event_of_claimed ev) w (rw (i.1.events) m) (arrived refl) i.0,
          mark-Content c db₁ ev.event_id w.db i.1,
        ) in
        >>=-keeps Inv (attempt (wired.store.mark_published ev.event_id)) _ w i' λ e _. i'
    settle-Inv ev (some x) w m arrived i =
        let i' : Inv (on_db (record_failure c ev.event_id (render x)) w).1 = (
          fail-All c (IsSent p w.delivered) ev.event_id (render x) (λ r k. k) w.db i.0,
          fail-Content c db₁ ev.event_id (render x) w.db i.1,
        ) in
        >>=-keeps Inv (attempt (wired.store.record_failure ev.event_id (render x))) _ w i' λ e _. i'

    process_one-Inv :
        (ev : ClaimedOutboxEvent) (w : World)
        → Matches (event_of_claimed ev) (map event_of db₁.outbox_events)
        → Inv w
        → Inv (process_one render wired ev w).1
    unfolding process_one
    process_one-Inv ev w m i =
        let i' = publish-Inv ev.event_type ev.payload w i in
        >>=-keeps Inv (attempt (publish send p ev.event_type ev.payload)) _ w i' λ e got.
          settle-Inv ev e _ m
            (λ is_none.
              publish_delivers send p ev.event_type ev.payload w
                (noticed-none _ (got ∙ ap ok is_none)))
            i'

    process_all-Inv :
        (evs : List ClaimedOutboxEvent) (w : World)
        → All (λ ev. Matches (event_of_claimed ev) (map event_of db₁.outbox_events)) evs
        → Inv w
        → Inv (process_all render wired evs w).1
    unfolding process_all
    process_all-Inv [] w m i = i
    process_all-Inv (ev ∷ evs) w m i =
        let i' = process_one-Inv ev w m.0 i in
        >>=-keeps Inv (process_one render wired ev) _ w i' λ logs _.
          let i'' = process_all-Inv evs _ m.1 i' in
          >>=-keeps Inv (process_all render wired evs) _ _ i'' λ rest _. i''

  -- If no two events of the outbox share an id and each event that is marked as published has its
  -- payload on the topic of its type, then a run of the relay keeps it so, whatever fails.
  pub run_once-IsDelivered :
      (batch_size failure_threshold visibility_timeout : ℕ) (w : World)
      → Keyed (map event_of w.db.outbox_events)
      → IsDelivered p w
      → IsDelivered p
          (run_once render (relay c send p batch_size failure_threshold visibility_timeout) w).1
  unfolding run_once
  run_once-IsDelivered batch_size failure_threshold visibility_timeout w keyed h =
      let r = relay c send p batch_size failure_threshold visibility_timeout in
      let claim =
        on_error (wrap "claim unpublished")
          (r.store.claim_unpublished batch_size visibility_timeout failure_threshold) in
      let i : Inv batch_size failure_threshold visibility_timeout w.db (claim w).1 = (
        claim-All c (IsSent p w.delivered) (λ row k. k) batch_size visibility_timeout
            failure_threshold w.db h,
        claim-Content c w.db batch_size visibility_timeout failure_threshold w.db (record {
          events = refl;
          onboarding = refl;
          progress = refl;
          episodes = refl;
          factions = refl;
        }),
      ) in
      >>=-keeps (IsDelivered p) claim _ w i.0 λ evs got.
        (process_all-Inv batch_size failure_threshold visibility_timeout w.db evs _
          (claim-Matches c batch_size visibility_timeout failure_threshold w.db keyed
            (rewrite_error-eq-ok _ _ got))
          i).0
