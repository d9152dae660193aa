-- ===== src/Outbox/Events.antt =====
-- The relay loses, alters and reorders no event of the outbox, and touches no other table.
use overload_party_scenario.Common.{ℕ, String, refl}
use overload_party_scenario.Errors.{Error}
use overload_party_scenario.Postgres.{Conn}
use overload_party_scenario.Postgres.OutboxRepository.Content.{
  Content, claim-Content, mark-Content, fail-Content,
}
use overload_party_scenario.World.{World, Message}
use overload_party_scenario.Adapter.Publisher.{Publisher, Fate}
use overload_party_scenario.Adapter.Publisher.Delivery.{publish-db}
use overload_party_scenario.Outbox.{run_once}
use overload_party_scenario.Outbox.Run.{relay, run_once-keeps}

module _ (render : Error → String) (c : Conn) (send : Message → Fate) (p : Publisher)
    (batch_size failure_threshold visibility_timeout : ℕ) where
  -- Whatever fails, a run changes no event of the outbox and not their order, and no other table.
  pub run_once-Content :
      (w : World)
      → Content
          (run_once render (relay c send p batch_size failure_threshold visibility_timeout) w).1.db
          w.db
  run_once-Content w =
      run_once-keeps render (relay c send p batch_size failure_threshold visibility_timeout)
        (λ v. Content v.db w.db)
        (λ v k. claim-Content c w.db batch_size visibility_timeout failure_threshold v.db k)
        (λ t b v k. rw publish-db k) (λ id v k. mark-Content c w.db id v.db k)
        (λ id m v k. fail-Content c w.db id m v.db k) w
        (record {
          events = refl;
          onboarding = refl;
          progress = refl;
          episodes = refl;
          factions = refl;
        })
