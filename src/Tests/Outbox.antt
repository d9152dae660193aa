-- ===== src/Tests/Outbox.antt =====
-- The relay and the outbox at concrete inputs.
use overload_party_scenario.Common.{
  ◌≤◌, Memᴰ, String, eq_iff, ◌≡◌, refl, true, false, some, List, [], ◌∷◌, ◌++◌, map, length, All,
  arith,
}
use overload_party_scenario.Errors.{Error, Result, ok}
use overload_party_scenario.Port.{ClaimedOutboxEvent}
use overload_party_scenario.Postgres.{claim_outbox_events}
use overload_party_scenario.Postgres.Tables.{OutboxRow}
use overload_party_scenario.Postgres.OutboxRepository.{
  claim_unpublished, claimed_rows, is_claimable, touch_claimed, returned,
}
use overload_party_scenario.Postgres.OutboxRepository.Claim.{
  ids, IsDue, claims_disjoint, claim_bounds,
}
use overload_party_scenario.Postgres.OutboxRepository.Content.{Content, event_of}
use overload_party_scenario.Postgres.OutboxRepository.Published.{Keyed}
use overload_party_scenario.World.{World, Message}
use overload_party_scenario.Outbox.{run_once, LogLine}
use overload_party_scenario.Adapter.Publisher.{topic_of}
use overload_party_scenario.Outbox.Run.{relay}
use overload_party_scenario.Outbox.Events.{run_once-Content}
use overload_party_scenario.Outbox.AtLeastOnce.{IsDelivered, run_once-IsDelivered}
use overload_party_scenario.Outbox.Healthy.{IsMarked, run_once_publishes}
use overload_party_scenario.Tests.{
  healthy, outbox_row, sample_db, sample_world, publisher, all_delivered,
}

abbrev render : Error → String
render e = "error"

-- A run with a batch of 10, a threshold of 5 failures and a timeout of one second.
abbrev after_run : Result (List LogLine) × World
after_run = run_once render (relay healthy all_delivered publisher 10 5 1000000000) sample_world

sample_db-Keyed : Keyed (map event_of sample_db.outbox_events)
sample_db-Keyed = (((λ e. apart ((eq_iff "e2" "e1").1 e)), tt), (tt, tt))
  where
    apart : false ≡ true → ⊥
    apart h = cc

sample_world-IsDelivered : IsDelivered publisher sample_world
sample_world-IsDelivered = ((λ at e. cc), ((λ at e. cc), tt))

run_once-IsDelivered_example : IsDelivered publisher after_run.1
run_once-IsDelivered_example =
    run_once-IsDelivered render healthy all_delivered publisher 10 5 1000000000 sample_world
      sample_db-Keyed sample_world-IsDelivered

run_once-Content_example : Content after_run.1.db sample_db
run_once-Content_example =
    run_once-Content render healthy all_delivered publisher 10 5 1000000000 sample_world

abbrev both : List ClaimedOutboxEvent
both = returned healthy (outbox_row "e1") ∷ returned healthy (outbox_row "e2") ∷ []

abbrev claimed : List ClaimedOutboxEvent
claimed = map (returned healthy) (claimed_rows healthy 10 1000000000 5 sample_db)

claimed-eq : claimed ≡ both
unfolding claimed_rows is_claimable
claimed-eq = refl

abbrev onboarded : String → String
onboarded event_type = "onboarded"

abbrev message_of : ClaimedOutboxEvent → Message
message_of ev = record { topic = "onboarded"; payload = ev.payload }

claimed-routed :
    All
      (λ ev. topic_of publisher.by_event_type ev.event_type ≡ some (onboarded ev.event_type))
      claimed
claimed-routed = rw claimed-eq (refl, (refl, tt))

run_once_publishes_example :
    (after_run.0 ≡ ok [])
    × (after_run.1.delivered ≡ sample_world.delivered ++ map message_of claimed)
    × All (λ ev. IsMarked ev.event_id after_run.1.db) claimed
run_once_publishes_example =
    run_once_publishes healthy render all_delivered publisher onboarded 10 5 1000000000 (λ st. refl)
      (λ m. refl) sample_world claimed-routed

first_claim :
    (claim_unpublished healthy 1 1000000000 5 sample_db).0
    ≡ ok (returned healthy (outbox_row "e1") ∷ [])
unfolding claim_unpublished claimed_rows is_claimable
first_claim = refl

second_claim :
    (claim_unpublished healthy 10 1000000000 5
      (claim_unpublished healthy 1 1000000000 5 sample_db).1).0
    ≡ ok (returned healthy (outbox_row "e2") ∷ [])
unfolding claim_unpublished claimed_rows is_claimable touch_claimed
second_claim = refl

claims_disjoint_example : ids (returned healthy (outbox_row "e2") ∷ []) "e1" ≡ false
claims_disjoint_example =
    claims_disjoint healthy healthy 1 10 1000000000 5 5 sample_db first_claim second_claim
      (omega arith) "e1" refl

claim_bounds_example :
    (length (returned healthy (outbox_row "e1") ∷ []) ≤ 1)
    × ((id : String)
        → ids (returned healthy (outbox_row "e1") ∷ []) id ≡ true
        → (r : OutboxRow) × Memᴰ r sample_db.outbox_events
          × (r.event_id ≡ id)
          × (healthy.is_locked id ≡ false)
          × IsDue (healthy.now claim_outbox_events) 1000000000 5 r)
claim_bounds_example = claim_bounds healthy 1 1000000000 5 sample_db first_claim
