-- ===== src/Postgres/OutboxRepository/Claim.antt =====
-- What a claim returns: at most the limit, only rows that are due, and none that another worker
-- claimed within the visibility timeout.
use overload_party_scenario.Common.{
  ℕ, zero, suc, ◌+◌, ◌*◌, ◌/◌, ◌≤◌, ◌<◌, Memᴰ, none, some, String, ◌==◌, ◌≡◌, refl, sym, ◌∙◌, ap,
  Bool, true, false, not, ◌&&◌, ◌||◌, List, [], ◌∷◌, map, filter, any, take, length, length-take-le,
  leb, arith, Bool-cases, inl, inr, eq_iff, if◌then◌else◌,
}
use overload_party_scenario.Errors.{ok}
use overload_party_scenario.Port.{ClaimedOutboxEvent}
use overload_party_scenario.Postgres.{Conn, claim_outbox_events}
use overload_party_scenario.Postgres.Tables.{Db, OutboxRow, insert_by, sort_by}
use overload_party_scenario.Postgres.OutboxRepository.{
  visibility_interval, is_claimable, claimed_rows, holds_id, touch, touch_claimed, returned,
  claim_unpublished,
}

module _ {A : Type 0} (p : A → Bool) where
  any-insert_by :
      (le : A → A → Bool) (x : A) (xs : List A) → any p (insert_by le x xs) ≡ (p x || any p xs)
  any-insert_by le x [] = refl
  any-insert_by le x (y ∷ ys) = ground (arith, any-insert_by le x ys)

  any-sort_by : (le : A → A → Bool) (xs : List A) → any p (sort_by le xs) ≡ any p xs
  any-sort_by le [] = refl
  any-sort_by le (x ∷ xs) =
      any-insert_by le x (sort_by le xs) ∙ ap (λ b. p x || b) (any-sort_by le xs)

  any-take : (n : ℕ) (xs : List A) → any p (take n xs) ≡ true → any p xs ≡ true
  any-take zero xs h = cc
  any-take (suc n) [] h = cc
  any-take (suc n) (x ∷ xs) h = ground (arith, any-take n xs)

  any-filter : (q : A → Bool) (xs : List A) → any p (filter q xs) ≡ any (λ x. q x && p x) xs
  any-filter q [] = refl
  any-filter q (x ∷ xs) = ground (arith, any-filter q xs)

module _ (c : Conn) (limit timeout threshold : ℕ) (db : Db) where
  -- A row that the claim takes is in the table, due, and not locked.
  pub any-claimed_rows :
      (p : OutboxRow → Bool)
      → any p (claimed_rows c limit timeout threshold db) ≡ true
      → any
          (λ r. is_claimable c timeout threshold r && (not (c.is_locked r.event_id) && p r))
          db.outbox_events
        ≡ true
  unfolding claimed_rows
  any-claimed_rows p h =
      let due = filter (is_claimable c timeout threshold) db.outbox_events in
      let older = λ (a b : OutboxRow). leb a.created_at b.created_at in
      let free = λ (r : OutboxRow). not (c.is_locked r.event_id) in
      let taken = any-take p limit (filter free (sort_by older due)) h in
      let unlocked = sym (any-filter p free (sort_by older due)) ∙ taken in
      let sorted = sym (any-sort_by (λ r. free r && p r) older due) ∙ unlocked in
      sym (any-filter (λ r. free r && p r) (is_claimable c timeout threshold) db.outbox_events)
      ∙ sorted

  pub length-claimed_rows : length (claimed_rows c limit timeout threshold db) ≤ limit
  unfolding claimed_rows
  length-claimed_rows = length-take-le limit _

abbrev pub ids : List ClaimedOutboxEvent → String → Bool
ids evs id = any (λ e. e.event_id == id) evs

ids-returned :
    (c : Conn) (rows : List OutboxRow) (id : String)
    → ids (map (returned c) rows) id ≡ holds_id c rows id
ids-returned c [] id = refl
ids-returned c (r ∷ rows) id = ground (arith, ids-returned c rows id)

length-map-returned :
    (c : Conn) (rows : List OutboxRow) → length (map (returned c) rows) ≡ length rows
length-map-returned c [] = refl
length-map-returned c (r ∷ rows) = ap suc (length-map-returned c rows)

module _ (c : Conn) (limit timeout threshold : ℕ) (db : Db) {evs : List ClaimedOutboxEvent} where
  pub claim-eq-ok :
      (claim_unpublished c limit timeout threshold db).0 ≡ ok evs
      → (evs ≡ map (returned c) (claimed_rows c limit timeout threshold db))
        × ((claim_unpublished c limit timeout threshold db).1
            ≡ touch_claimed c (claimed_rows c limit timeout threshold db) db)
  unfolding claim_unpublished
  claim-eq-ok h = ground arith

not_due :
    (c c' : Conn) (timeout threshold : ℕ) (r : OutboxRow)
    → c'.now claim_outbox_events ≤ c.now claim_outbox_events + visibility_interval timeout
    → is_claimable c' timeout threshold (touch c r) ≡ false
unfolding is_claimable
not_due c c' timeout threshold r t = ground arith

-- A row that was just claimed is not due again before the timeout has passed.
any-touched :
    (c c' : Conn) (timeout threshold : ℕ) (claimed : String → Bool) (id : String)
    → claimed id ≡ true
    → c'.now claim_outbox_events ≤ c.now claim_outbox_events + visibility_interval timeout
    → (rows : List OutboxRow)
    → any
        (λ r.
          is_claimable c' timeout threshold r
          && (not (c'.is_locked r.event_id) && r.event_id == id))
        (map (λ r. if claimed r.event_id then touch c r else r) rows)
      ≡ false
any-touched c c' timeout threshold claimed id h t [] = refl
any-touched c c' timeout threshold claimed id h t (r ∷ rows) =
    let ih = any-touched c c' timeout threshold claimed id h t rows in
    elim (Bool-cases (r.event_id == id)) [
      | inl e ↦
          rw (ap claimed ((eq_iff r.event_id id).0 e) ∙ h, not_due c c' timeout threshold r t) ih
      | inr e ↦ ground (arith, ih)
    ]

overlap :
    (p : OutboxRow → Bool) {rows rows' : List OutboxRow}
    → rows ≡ rows'
    → any p rows ≡ true
    → any p rows' ≡ false
    → ⊥
overlap p e h k = cc (ap (any p) e)

-- Two claims overlap in no event, if the second is made, in the state that the first left, not later
-- than the visibility timeout in whole milliseconds after the first. The workers' limits and
-- thresholds may differ.
pub claims_disjoint :
    (c c' : Conn) (limit limit' timeout threshold threshold' : ℕ) (db : Db)
    {evs evs' : List ClaimedOutboxEvent}
    → (claim_unpublished c limit timeout threshold db).0 ≡ ok evs
    → (claim_unpublished c' limit' timeout threshold'
        (claim_unpublished c limit timeout threshold db).1).0
      ≡ ok evs'
    → c'.now claim_outbox_events ≤ c.now claim_outbox_events + visibility_interval timeout
    → (id : String) → ids evs id ≡ true
    → ids evs' id ≡ false
unfolding touch_claimed
claims_disjoint c c' limit limit' timeout threshold threshold' db {evs} {evs'} h h' t id m =
    let rows = claimed_rows c limit timeout threshold db in
    let (evs_are, after) = claim-eq-ok c limit timeout threshold db h in
    let db' = (claim_unpublished c limit timeout threshold db).1 in
    let (evs'_are, _) = claim-eq-ok c' limit' timeout threshold' db' h' in
    let rows' = claimed_rows c' limit' timeout threshold' db' in
    let held : holds_id c rows id ≡ true = sym (ids-returned c rows id) ∙ (rw (← evs_are) m) in
    rw (evs'_are, ids-returned c' rows' id)
      (elim (Bool-cases (holds_id c' rows' id)) [
        | inl e ↦
            let due = any-claimed_rows c' limit' timeout threshold' db' (λ r. r.event_id == id) e in
            let hidden =
              any-touched c c' timeout threshold' (holds_id c rows) id held t db.outbox_events in
            absurd (
              overlap
                (λ r.
                  is_claimable c' timeout threshold' r
                  && (not (c'.is_locked r.event_id) && r.event_id == id))
                (ap (λ (d : Db). d.outbox_events) after) due hidden)
        | inr e ↦ e
      ])

any-found :
    (p : OutboxRow → Bool) (rows : List OutboxRow)
    → any p rows ≡ true
    → (r : OutboxRow) × Memᴰ r rows × (p r ≡ true)
any-found p [] h = cc
any-found p (r ∷ rows) h = elim (Bool-cases (p r)) [
  | inl e ↦ (r, Memᴰ.head refl, e)
  | inr e ↦ let (found, m, holds) = any-found p rows (rw e at h) in (found, Memᴰ.tail m, holds)
]

-- A row that a worker may claim at the time `now`: it is unpublished, has failed less often than
-- `threshold`, and was not attempted since `timeout` nanoseconds, in whole milliseconds, ago.
pub record IsDue (now timeout threshold : ℕ) (r : OutboxRow) : Type 0 where
  pub unpublished : r.published_at ≡ none
  pub below_threshold : r.failure_count < threshold
  pub unattempted : (at : ℕ) → r.last_attempted_at ≡ some at → at + timeout / 1000000 * 1000 < now

is_claimable-IsDue :
    (c : Conn) (timeout threshold : ℕ) (r : OutboxRow)
    → is_claimable c timeout threshold r ≡ true
    → IsDue (c.now claim_outbox_events) timeout threshold r
unfolding is_claimable
is_claimable-IsDue c timeout threshold r h = record {
  unpublished = ground arith;
  below_threshold = ground arith;
  unattempted = λ at e. ground arith;
}

claimed_row :
    (c : Conn) (timeout threshold : ℕ) (id : String) (r : OutboxRow)
    → (is_claimable c timeout threshold r && (not (c.is_locked r.event_id) && r.event_id == id))
      ≡ true
    → (is_claimable c timeout threshold r ≡ true) × (c.is_locked id ≡ false) × (r.event_id ≡ id)
claimed_row c timeout threshold id r h =
    let named : r.event_id ≡ id = (eq_iff r.event_id id).0 (ground arith) in
    (ground arith, rw (← named) ground arith, named)

-- A claim returns at most `limit` events, and the id of each is that of a row of the outbox that was
-- unpublished, had failed less often than the threshold, was not locked, and was not attempted
-- within the visibility timeout in whole milliseconds.
pub claim_bounds :
    (c : Conn) (limit timeout threshold : ℕ) (db : Db) {evs : List ClaimedOutboxEvent}
    → (claim_unpublished c limit timeout threshold db).0 ≡ ok evs
    → (length evs ≤ limit)
      × ((id : String)
          → ids evs id ≡ true
          → (r : OutboxRow) × Memᴰ r db.outbox_events
            × (r.event_id ≡ id)
            × (c.is_locked id ≡ false)
            × IsDue (c.now claim_outbox_events) timeout threshold r)
claim_bounds c limit timeout threshold db {evs} h =
    let (evs_are, _) = claim-eq-ok c limit timeout threshold db h in
    let rows = claimed_rows c limit timeout threshold db in
    (
      rw (evs_are, length-map-returned) (length-claimed_rows c limit timeout threshold db),
      λ id m.
          let claimed =
            any-claimed_rows c limit timeout threshold db (λ r. r.event_id == id)
              (sym (ids-returned c rows id) ∙ (rw (← evs_are) m)) in
          let (r, member, due) = any-found _ db.outbox_events claimed in
          let (claimable, free, named) = claimed_row c timeout threshold id r due in
          (r, member, named, free, is_claimable-IsDue c timeout threshold r claimable),
    )
