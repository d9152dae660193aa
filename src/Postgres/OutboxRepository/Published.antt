-- ===== src/Postgres/OutboxRepository/Published.antt =====
-- How the outbox repository changes the published mark of the rows, and which rows a claimed event
-- stands for.
use overload_party_scenario.Common.{
  ℕ, String, ◌==◌, eq_iff, ◌≡◌, refl, sym, Bool, true, false, none, List, [], ◌∷◌, map, All,
  All-filter, All-take, All-update, All-map, All-of-map, All_trivial, Bool-cases, inl, inr, ◌≢◌,
  if◌then◌else◌, leb, not,
}
use overload_party_scenario.Errors.{ok}
use overload_party_scenario.Port.{OutboxEvent, ClaimedOutboxEvent}
use overload_party_scenario.Postgres.{
  Conn, update_published, update_failure, exec, claim_outbox_events,
}
use overload_party_scenario.Postgres.Tables.{Db, OutboxRow, insert_by, sort_by}
use overload_party_scenario.Postgres.OutboxRepository.{
  claimed_rows, is_claimable, touch, touch_claimed, holds_id, returned, claim_unpublished,
  set_published, mark_published, set_failed, update_row, overflows, add_failure, record_failure,
}
use overload_party_scenario.Postgres.OutboxRepository.Claim.{claim-eq-ok}
use overload_party_scenario.Postgres.OutboxRepository.Content.{
  event_of, exec-keeps, claim_effect-keeps,
}

-- The primary key: no two events share an id.
abbrev pub Keyed : List OutboxEvent → Type 0
Keyed [] = Unit
Keyed (e ∷ es) = All (λ e'. e'.event_id ≢ e.event_id) es × Keyed es

-- Any event with the id of `e` is `e`.
abbrev pub Matches : OutboxEvent → List OutboxEvent → Type 0
Matches e = All (λ e'. e'.event_id ≡ e.event_id → e' ≡ e)

apart-Matches :
    (e : OutboxEvent) (es : List OutboxEvent)
    → All (λ e'. e'.event_id ≢ e.event_id) es
    → Matches e es
apart-Matches e es h = All-map (λ e' ne same. absurd (ne same)) es h

-- With distinct ids every event is the only one of its id.
pub Keyed-Matches : (es : List OutboxEvent) → Keyed es → All (λ e. Matches e es) es
Keyed-Matches [] k = tt
Keyed-Matches (e ∷ es) k =
    ((λ _. refl, apart-Matches e es k.0), combine es k.0 (Keyed-Matches es k.1))
  where
    combine :
        (xs : List OutboxEvent)
        → All (λ e'. e'.event_id ≢ e.event_id) xs
        → All (λ x. Matches x es) xs
        → All (λ x. Matches x (e ∷ es)) xs
    combine [] h m = tt
    combine (x ∷ xs) h m = (((λ same. absurd (h.0 (sym same))), m.0), combine xs h.1 m.1)

module _ {A : Type 0} (P : A → Type 0) (le : A → A → Bool) where
  All-insert_by : (x : A) (xs : List A) → P x → All P xs → All P (insert_by le x xs)
  All-insert_by x [] p h = (p, tt)
  All-insert_by x (y ∷ ys) p h =
      elim (le x y) as (λ b. All P (if b then x ∷ y ∷ ys else y ∷ insert_by le x ys)) [
        | true ↦ (p, h)
        | false ↦ (h.0, All-insert_by x ys p h.1)
      ]

  All-sort_by : (xs : List A) → All P xs → All P (sort_by le xs)
  All-sort_by [] h = tt
  All-sort_by (x ∷ xs) h = All-insert_by x (sort_by le xs) h.0 (All-sort_by xs h.1)

-- The event of a claimed one.
abbrev pub event_of_claimed : ClaimedOutboxEvent → OutboxEvent
event_of_claimed ev = record {
  event_id = ev.event_id;
  event_type = ev.event_type;
  payload = ev.payload;
}

module _ (c : Conn) where
  claimed_rows-All :
      (P : OutboxRow → Type 0) (limit timeout threshold : ℕ) (db : Db)
      → All P db.outbox_events
      → All P (claimed_rows c limit timeout threshold db)
  unfolding claimed_rows
  claimed_rows-All P limit timeout threshold db h = All-take P limit _ (
      All-filter P (λ r. not (c.is_locked r.event_id)) _
        (All-sort_by P (λ a b. leb a.created_at b.created_at) _
          (All-filter P (is_claimable c timeout threshold) db.outbox_events h)))

  -- Each event that a claim returns stands for the rows of its id.
  pub claim-Matches :
      (limit timeout threshold : ℕ) (db : Db) {evs : List ClaimedOutboxEvent}
      → Keyed (map event_of db.outbox_events)
      → (claim_unpublished c limit timeout threshold db).0 ≡ ok evs
      → All (λ ev. Matches (event_of_claimed ev) (map event_of db.outbox_events)) evs
  claim-Matches limit timeout threshold db {evs} keyed h =
      let all =
        (All-of-map (λ e. Matches e (map event_of db.outbox_events)) event_of db.outbox_events).0
          (Keyed-Matches _ keyed) in
      let (evs_are, _) = claim-eq-ok c limit timeout threshold db h in
      rw evs_are (
        (All-of-map (λ ev. Matches (event_of_claimed ev) (map event_of db.outbox_events))
            (returned c) _).1
          (claimed_rows-All (λ r. Matches (event_of r) (map event_of db.outbox_events)) limit
            timeout threshold db all))

  -- A property of rows that speaks of neither attempts nor failures is kept by a claim.
  pub claim-All :
      (P : OutboxRow → Type 0)
      → ((r : OutboxRow) → P r → P (touch c r))
      → (limit timeout threshold : ℕ) (db : Db) → All P db.outbox_events
      → All P (claim_unpublished c limit timeout threshold db).1.outbox_events
  claim-All P k limit timeout threshold db h =
      claim_effect-keeps c (λ d. All P d.outbox_events) limit timeout threshold db h
        (All-update (λ r. holds_id c (claimed_rows c limit timeout threshold db) r.event_id)
          (touch c) (λ r _ _. k r) db.outbox_events (All_trivial _) h)

  pub mark-All :
      (P Q : OutboxRow → Type 0) (id : String)
      → ((r : OutboxRow) → r.event_id ≡ id → Q r → P r → P (set_published c id r))
      → (db : Db) → All Q db.outbox_events
      → All P db.outbox_events
      → All P (mark_published c id db).1.outbox_events
  unfolding mark_published
  mark-All P Q id k db q h =
      exec-keeps c (λ d. All P d.outbox_events) (update_published id)
        (λ d. ok (update_row c id (set_published c id) d)) db h
        (All-update (λ r. r.event_id == id) (set_published c id)
          (λ r e. k r ((eq_iff r.event_id id).0 e)) db.outbox_events q h)

  pub fail-All :
      (P : OutboxRow → Type 0) (id m : String)
      → ((r : OutboxRow) → P r → P (set_failed c id m r))
      → (db : Db) → All P db.outbox_events
      → All P (record_failure c id m db).1.outbox_events
  unfolding record_failure add_failure
  fail-All P id m k db h =
      exec-keeps c (λ d. All P d.outbox_events) (update_failure id) (add_failure c id m) db h
        (elim (Bool-cases (overflows c id db)) [
          | inl e ↦ rw (e, add_failure) h
          | inr e ↦
              rw (e, add_failure)
                (All-update (λ r. r.event_id == id) (set_failed c id m) (λ r _ _. k r)
                  db.outbox_events (All_trivial _) h)
        ])

  -- The calls on a database that does not fail.
  pub mark-no_fault :
      (id : String) (db : Db)
      → c.fault (update_published id) ≡ none
      → mark_published c id db ≡ (ok tt, update_row c id (set_published c id) db)
  unfolding mark_published
  mark-no_fault id db h = rw (mark_published, exec, h)

  pub claim-no_fault :
      (limit timeout threshold : ℕ) (db : Db)
      → c.fault claim_outbox_events ≡ none
      → claim_unpublished c limit timeout threshold db ≡ (
        ok (map (returned c) (claimed_rows c limit timeout threshold db)),
        touch_claimed c (claimed_rows c limit timeout threshold db) db,
      )
  unfolding claim_unpublished
  claim-no_fault limit timeout threshold db h = rw (claim_unpublished, h)
