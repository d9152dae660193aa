-- ===== src/System/Invariant.antt =====
-- What holds of the tables and the messages in every reachable world.
use overload_party_scenario.Common.{
  String, ◌==◌, ◌≡◌, refl, ap, inl, inr, List, [], ◌∷◌, map, ◌&&◌, All-append, count_if, arith,
}
use overload_party_scenario.Port.{OutboxEvent}
use overload_party_scenario.Postgres.{Conn}
use overload_party_scenario.Postgres.Tables.{Db, OutboxRow}
use overload_party_scenario.Postgres.OutboxRepository.Content.{Content, event_of}
use overload_party_scenario.Postgres.OutboxRepository.Published.{Keyed}
use overload_party_scenario.Postgres.OnboardingRepository.{new_outbox_row}
use overload_party_scenario.Postgres.OnboardingRepository.Additions.{MayAdd, Keyed-append}
use overload_party_scenario.Story.Tables.{
  IsOrdered, complete_episode-IsOrdered, complete_episode-others,
}
use overload_party_scenario.Onboarding.Pairing.{
  announces, IsPaired, complete-IsPaired, update_name-IsPaired, select_faction-IsPaired,
}
use overload_party_scenario.Onboarding.Additions.{
  complete-MayAdd, update_name-MayAdd, select_faction-MayAdd,
}
use overload_party_scenario.ApiScenario.{event_type_player_onboarded}
use overload_party_scenario.Onboarding.Payloads.{names}
use overload_party_scenario.World.{World}
use overload_party_scenario.Adapter.Publisher.{Publisher}
use overload_party_scenario.Outbox.Events.{run_once-Content}
use overload_party_scenario.Outbox.AtLeastOnce.{IsSent, IsDelivered, run_once-IsDelivered}
use overload_party_scenario.System.{
  Step, episode_completion, name_step, faction_step, onboarding_completion, relay_run, Reach, here,
  later,
}

module _ (p : Publisher) where
  -- Completions follow the episodes' order, players are onboarded once and with one announcement,
  -- events have ids of their own, and what is marked as published has been delivered.
  pub record IsSound (w : World) : Type 0 where
    pub ordered : IsOrdered w.db
    pub paired : IsPaired w.db
    pub keyed : Keyed (map event_of w.db.outbox_events)
    pub delivered : IsDelivered p w

  events_apart :
      (x y : OutboxRow) (xs ys : List OutboxRow)
      → map event_of (x ∷ xs) ≡ map event_of (y ∷ ys)
      → (event_of x ≡ event_of y) × (map event_of xs ≡ map event_of ys)
  events_apart x y xs ys h = (cc, cc)

  same_announcement :
      (q : String) (x y : OutboxRow) → event_of x ≡ event_of y → announces q x ≡ announces q y
  same_announcement q x y h =
      ap (λ (e : OutboxEvent). e.event_type == event_type_player_onboarded && names q e.payload) h

  announcements-events :
      (q : String) (rows rows' : List OutboxRow)
      → map event_of rows ≡ map event_of rows'
      → count_if (announces q) rows ≡ count_if (announces q) rows'
  announcements-events q [] [] h = refl
  announcements-events q [] (x ∷ xs) h = cc
  announcements-events q (x ∷ xs) [] h = cc
  announcements-events q (x ∷ xs) (y ∷ ys) h =
      let (same, rest) = events_apart x y xs ys h in
      let ih = announcements-events q xs ys rest in ground (arith, same_announcement q x y same)

  -- A relay run changes the delivery state of the outbox only.
  Content-IsPaired : (db db' : Db) → Content db' db → IsPaired db → IsPaired db'
  Content-IsPaired db db' k paired q =
      rw (announcements-events q db'.outbox_events db.outbox_events k.events, k.onboarding)
        (paired q)

  Content-IsOrdered : (db db' : Db) → Content db' db → IsOrdered db → IsOrdered db'
  Content-IsOrdered db db' k ordered = rw (k.progress, k.episodes) ordered

  -- A step that may add an event keeps all but the pairing.
  MayAdd-IsSound :
      (c : Conn) (w : World) (db' : Db)
      → MayAdd c w.db db'
      → IsPaired db'
      → IsSound w
      → IsSound (record w { db = db' })
  MayAdd-IsSound c w db' (inl same) paired k = rw same k
  MayAdd-IsSound c w db' (inr a) paired k = record {
    ordered = rw (a.progress, a.episodes) k.ordered;
    paired = paired;
    keyed =
        rw a.outbox (Keyed-append w.db.outbox_events (new_outbox_row c a.event) a.is_new k.keyed);
    delivered = rw a.outbox (
        All-append (IsSent p w.delivered) w.db.outbox_events (new_outbox_row c a.event ∷ [])
          k.delivered ((λ at e. cc), tt));
  }

  pub Step-IsSound : {w v : World} → Step p w v → IsSound w → IsSound v
  Step-IsSound (episode_completion c store account player id w) k =
      let (outbox, onboarding) = complete_episode-others c store account player id w.db in
      record {
        ordered = complete_episode-IsOrdered c store account player id w.db k.ordered;
        paired = rw (outbox, onboarding) k.paired;
        keyed = rw outbox k.keyed;
        delivered = rw outbox k.delivered;
      }
  Step-IsSound (name_step c e player name w) k =
      MayAdd-IsSound c w _
        (update_name-MayAdd c e.script_store e.name_validator e.player_reader e.selectable_factions
          e.fresh player w.db name)
        (update_name-IsPaired c e.script_store e.name_validator e.player_reader
          e.selectable_factions e.fresh player name w.db k.paired)
        k
  Step-IsSound (faction_step c e player faction w) k =
      MayAdd-IsSound c w _
        (select_faction-MayAdd c e.script_store e.name_validator e.player_reader
          e.selectable_factions e.fresh player w.db faction)
        (select_faction-IsPaired c e.script_store e.name_validator e.player_reader
          e.selectable_factions e.fresh player faction w.db k.paired)
        k
  Step-IsSound (onboarding_completion c e player w) k =
      MayAdd-IsSound c w _
        (complete-MayAdd c e.script_store e.name_validator e.player_reader e.selectable_factions
          e.fresh player w.db)
        (complete-IsPaired c e.script_store e.name_validator e.player_reader e.selectable_factions
          e.fresh player w.db k.paired)
        k
  Step-IsSound (relay_run render c send batch_size failure_threshold visibility_timeout w) k =
      let kept =
        run_once-Content render c send p batch_size failure_threshold visibility_timeout w in
      record {
        ordered = Content-IsOrdered w.db _ kept k.ordered;
        paired = Content-IsPaired w.db _ kept k.paired;
        keyed = rw (kept.events) k.keyed;
        delivered =
            run_once-IsDelivered render c send p batch_size failure_threshold visibility_timeout w
              k.keyed k.delivered;
      }

  -- From a world where each completed episode has its required episodes completed, each player has
  -- as many onboarding rows as announcing events and at most one, no two events share an id, and
  -- each event marked as published has its payload on the topic of its type, every sequence of
  -- requests and relay runs, with any outcomes, leads to such a world.
  pub Reach-IsSound : {w v : World} → Reach p w v → IsSound w → IsSound v
  Reach-IsSound here k = k
  Reach-IsSound (later r s) k = Step-IsSound s (Reach-IsSound r k)
