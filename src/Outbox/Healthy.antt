-- ===== src/Outbox/Healthy.antt =====
-- A run of the relay when neither Postgres nor Pub/Sub fails.
use mathlib.Core.List.{append_assoc, append-nil}
use overload_party_scenario.Common.{
  ℕ, String, ◌==◌, eq_iff, ◌≡◌, refl, sym, ◌∙◌, Bool, true, false, none, some, List, [], ◌∷◌, ◌++◌,
  map, All, All-update, All_trivial, if◌then◌else◌,
}
use overload_party_scenario.Errors.{Error, ok}
use overload_party_scenario.Port.{ClaimedOutboxEvent}
use overload_party_scenario.Postgres.{Conn, Statement, claim_outbox_events, update_published}
use overload_party_scenario.Postgres.Tables.{Db, OutboxRow}
use overload_party_scenario.Postgres.OutboxRepository.{
  update_row, set_published, claimed_rows, touch_claimed, returned,
}
use overload_party_scenario.Postgres.OutboxRepository.Published.{mark-no_fault, claim-no_fault}
use overload_party_scenario.Adapter.Publisher.Delivery.{publish-acknowledged}
use overload_party_scenario.World.{World, Message}
use overload_party_scenario.Adapter.Publisher.{Publisher, Fate, acknowledged, topic_of}
use overload_party_scenario.Outbox.{settle, process_one, process_all, run_once, Relay}
use overload_party_scenario.Outbox.Run.{relay}

-- The rows of the id are marked as published.
abbrev pub IsMarked : String → Db → Type 0
IsMarked id db = All (λ r. r.event_id ≡ id → (at : ℕ) × (r.published_at ≡ some at)) db.outbox_events

module _ (c : Conn) where
  marked_row :
      (id : String) (r : OutboxRow) (b : Bool)
      → (r.event_id ≡ id → b ≡ true)
      → (if b then set_published c id r else r).event_id ≡ id
      → (at : ℕ) × ((if b then set_published c id r else r).published_at ≡ some at)
  marked_row id r true k same = (c.now (update_published id), refl)
  marked_row id r false k same = absurd (not_true (k same))
    where
      not_true : false ≡ true → ⊥
      not_true h = cc

  mark-IsMarked : (id : String) (db : Db) → IsMarked id (update_row c id (set_published c id) db)
  mark-IsMarked id db = marked db.outbox_events
    where
      marked :
          (rows : List OutboxRow)
          → All
              (λ r. r.event_id ≡ id → (at : ℕ) × (r.published_at ≡ some at))
              (map (λ r. if r.event_id == id then set_published c id r else r) rows)
      marked [] = tt
      marked (r ∷ rows) = (marked_row id r (r.event_id == id) (eq_iff r.event_id id).1, marked rows)

  -- A mark stays.
  mark_keeps_IsMarked :
      (id id' : String) (db : Db)
      → IsMarked id' db
      → IsMarked id' (update_row c id (set_published c id) db)
  mark_keeps_IsMarked id id' db h =
      All-update (λ r. r.event_id == id) (set_published c id)
        (λ r e _ k same. (c.now (update_published id), refl)) db.outbox_events (All_trivial _) h

  module _ (render : Error → String) (send : Message → Fate) (p : Publisher)
      (route : String → String) (batch_size failure_threshold visibility_timeout : ℕ)
      (no_fault : (st : Statement) → c.fault st ≡ none)
      (all_acknowledged : (m : Message) → send m ≡ acknowledged) where
    abbrev wired : Relay World
    wired = relay c send p batch_size failure_threshold visibility_timeout

    -- The message of an event.
    abbrev message_of : ClaimedOutboxEvent → Message
    message_of ev = record { topic = route ev.event_type; payload = ev.payload }

    abbrev IsRouted : ClaimedOutboxEvent → Type 0
    IsRouted ev = topic_of p.by_event_type ev.event_type ≡ some (route ev.event_type)

    abbrev after_one : ClaimedOutboxEvent → World → World
    after_one ev w = record {
      db = update_row c ev.event_id (set_published c ev.event_id) w.db;
      delivered = w.delivered ++ message_of ev ∷ [];
    }

    process_one-eq :
        (ev : ClaimedOutboxEvent) (w : World)
        → IsRouted ev
        → process_one render wired ev w ≡ (ok [], after_one ev w)
    unfolding process_one settle
    process_one-eq ev w routed =
        let sent =
          publish-acknowledged send p ev.event_type ev.payload w (route ev.event_type) routed
            (all_acknowledged (message_of ev)) in
        let marked = mark-no_fault c ev.event_id w.db (no_fault (update_published ev.event_id)) in
        rw (process_one, sent, settle, marked)

    after_all : List ClaimedOutboxEvent → World → World
    after_all [] w = w
    after_all (ev ∷ evs) w = after_all evs (after_one ev w)

    process_all-eq :
        (evs : List ClaimedOutboxEvent) (w : World)
        → All IsRouted evs
        → process_all render wired evs w ≡ (ok [], after_all evs w)
    unfolding process_all after_all
    process_all-eq [] w routed = refl
    process_all-eq (ev ∷ evs) w routed =
        rw (process_all, process_one-eq ev w routed.0, process_all-eq evs (after_one ev w) routed.1)

    after_all-delivered :
        (evs : List ClaimedOutboxEvent) (w : World)
        → (after_all evs w).delivered ≡ w.delivered ++ map message_of evs
    unfolding after_all
    after_all-delivered [] w = sym (append-nil w.delivered)
    after_all-delivered (ev ∷ evs) w =
        after_all-delivered evs (after_one ev w)
        ∙ append_assoc w.delivered (message_of ev ∷ []) (map message_of evs)

    after_all_keeps :
        (id : String) (evs : List ClaimedOutboxEvent) (w : World)
        → IsMarked id w.db
        → IsMarked id (after_all evs w).db
    unfolding after_all
    after_all_keeps id [] w h = h
    after_all_keeps id (ev ∷ evs) w h =
        after_all_keeps id evs (after_one ev w) (mark_keeps_IsMarked ev.event_id id w.db h)

    after_all-IsMarked :
        (evs : List ClaimedOutboxEvent) (w : World)
        → All (λ ev. IsMarked ev.event_id (after_all evs w).db) evs
    unfolding after_all
    after_all-IsMarked [] w = tt
    after_all-IsMarked (ev ∷ evs) w = (
      after_all_keeps ev.event_id evs (after_one ev w) (mark-IsMarked ev.event_id w.db),
      after_all-IsMarked evs (after_one ev w),
    )

    -- If no statement fails, Pub/Sub acknowledges every message and every claimed event has a topic,
    -- then a run returns no error and logs nothing, puts the payloads of the claimed events, and only
    -- those, on the topics of their types in the order in which the claim returned them, and leaves
    -- each of these events marked as published.
    pub run_once_publishes :
        (w : World)
        → let claimed =
            map
              (returned c)
              (claimed_rows c batch_size visibility_timeout failure_threshold w.db) in
          All IsRouted claimed
          → ((run_once render wired w).0 ≡ ok [])
            × ((run_once render wired w).1.delivered ≡ w.delivered ++ map message_of claimed)
            × All (λ ev. IsMarked ev.event_id (run_once render wired w).1.db) claimed
    unfolding run_once
    run_once_publishes w routed =
        let rows = claimed_rows c batch_size visibility_timeout failure_threshold w.db in
        let evs = map (returned c) rows in
        let w' = record w { db = touch_claimed c rows w.db } in
        let e : run_once render wired w ≡ (ok [], after_all evs w') = rw (
          run_once,
          claim-no_fault c batch_size visibility_timeout failure_threshold w.db
              (no_fault claim_outbox_events),
          process_all-eq evs w' routed,
        ) in
        rw e (refl, after_all-delivered evs w', after_all-IsMarked evs w')
