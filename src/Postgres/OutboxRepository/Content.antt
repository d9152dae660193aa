-- ===== src/Postgres/OutboxRepository/Content.antt =====
-- What the outbox repository never changes: the events of the outbox and their order, and every other
-- table.
use overload_party_scenario.Common.{
  ℕ, String, ◌==◌, ◌≡◌, refl, ◌∙◌, Bool, List, [], ◌∷◌, map, Bool-cases, Option-cases, inl, inr,
  if◌then◌else◌,
}
use overload_party_scenario.Errors.{Result, ok}
use overload_party_scenario.Port.{OutboxEvent}
use overload_party_scenario.Postgres.{
  Conn, Statement, claim_outbox_events, update_published, update_failure, exec, tables_after,
}
use overload_party_scenario.Postgres.Tables.{Db, OutboxRow}
use overload_party_scenario.Postgres.OutboxRepository.{
  claimed_rows, touch, touch_claimed, holds_id, claim_unpublished, set_published, mark_published,
  set_failed, update_row, overflows, add_failure, record_failure,
}

-- The event that a row was written with.
abbrev pub event_of : OutboxRow → OutboxEvent
event_of r = record { event_id = r.event_id; event_type = r.event_type; payload = r.payload }

-- The tables but for the delivery state of the outbox.
pub record Content (db db' : Db) : Type 0 where
  pub events : map event_of db.outbox_events ≡ map event_of db'.outbox_events
  pub onboarding : db.player_onboarding ≡ db'.player_onboarding
  pub progress : db.player_story_progress ≡ db'.player_story_progress
  pub episodes : db.scenario_episodes ≡ db'.scenario_episodes
  pub factions : db.episode_required_factions ≡ db'.episode_required_factions

events-update :
    (b : OutboxRow → Bool) (f : OutboxRow → OutboxRow)
    → ((r : OutboxRow) → event_of (f r) ≡ event_of r)
    → (rows : List OutboxRow)
    → map event_of (map (λ r. if b r then f r else r) rows) ≡ map event_of rows
events-update b f h [] = refl
events-update b f h (r ∷ rows) = elim (Bool-cases (b r)) [
  | inl e ↦ rw (e, h r, events-update b f h rows)
  | inr e ↦ rw (e, events-update b f h rows)
]

update-Content :
    (db db₀ : Db) (b : OutboxRow → Bool) (f : OutboxRow → OutboxRow)
    → ((r : OutboxRow) → event_of (f r) ≡ event_of r)
    → Content db db₀
    → Content (record db { outbox_events = map (λ r. if b r then f r else r) db.outbox_events }) db₀
update-Content db db₀ b f h k = record {
  events = events-update b f h db.outbox_events ∙ k.events;
  onboarding = k.onboarding;
  progress = k.progress;
  episodes = k.episodes;
  factions = k.factions;
}

-- One statement keeps a property of the tables, if its effect does.
pub exec-keeps :
    (c : Conn) (P : Db → Type 0) (st : Statement) (run : Db → Result Db) (db : Db)
    → P db
    → P (tables_after (run db) db)
    → P (exec c st run db).1
exec-keeps c P st run db h k = elim (Option-cases (c.fault st)) [
  | inl e ↦ rw (e, exec) k
  | inr (f, e) ↦ elim (Bool-cases f.took_effect) [
    | inl t ↦ rw (e, t, exec) k
    | inr t ↦ rw (e, t, exec) h
  ]
]

-- So does the claim, which is one statement that reads and writes.
pub claim_effect-keeps :
    (c : Conn) (P : Db → Type 0) (limit timeout threshold : ℕ) (db : Db)
    → P db
    → P (record db {
      outbox_events =
          map
            (λ r.
              if holds_id c (claimed_rows c limit timeout threshold db) r.event_id
              then touch c r
              else r)
            db.outbox_events;
    })
    → P (claim_unpublished c limit timeout threshold db).1
unfolding claim_unpublished touch_claimed
claim_effect-keeps c P limit timeout threshold db h k =
    elim (Option-cases (c.fault claim_outbox_events)) [
      | inl e ↦ rw (e, claim_unpublished) k
      | inr (f, e) ↦ elim (Bool-cases f.took_effect) [
        | inl t ↦ rw (e, t, claim_unpublished) k
        | inr t ↦ rw (e, t, claim_unpublished) h
      ]
    ]

module _ (c : Conn) (db₀ : Db) where
  pub claim-Content :
      (limit timeout threshold : ℕ) (db : Db)
      → Content db db₀
      → Content (claim_unpublished c limit timeout threshold db).1 db₀
  claim-Content limit timeout threshold db k =
      claim_effect-keeps c (λ d. Content d db₀) limit timeout threshold db k
        (update-Content db db₀
          (λ r. holds_id c (claimed_rows c limit timeout threshold db) r.event_id) (touch c)
          (λ r. refl) k)

  pub mark-Content :
      (id : String) (db : Db) → Content db db₀ → Content (mark_published c id db).1 db₀
  unfolding mark_published
  mark-Content id db k =
      exec-keeps c (λ d. Content d db₀) (update_published id)
        (λ d. ok (update_row c id (set_published c id) d)) db k
        (update-Content db db₀ (λ r. r.event_id == id) (set_published c id) (λ r. refl) k)

  pub fail-Content :
      (id m : String) (db : Db) → Content db db₀ → Content (record_failure c id m db).1 db₀
  unfolding record_failure add_failure
  fail-Content id m db k =
      exec-keeps c (λ d. Content d db₀) (update_failure id) (add_failure c id m) db k
        (elim (Bool-cases (overflows c id db)) [
          | inl e ↦ rw (e, add_failure) k
          | inr e ↦
              rw (e, add_failure)
                (update-Content db db₀ (λ r. r.event_id == id) (set_failed c id m) (λ r. refl) k)
        ])
