-- ===== src/Adapter/Publisher/Delivery.antt =====
-- What a publish leaves behind: never a change of the tables, a delivery whenever it succeeds.
use overload_party_scenario.Common.{
  String, ◌≡◌, refl, ◌⊎◌, inl, inr, some, List, [], ◌∷◌, ◌++◌, arith, Option-cases, subst, sym,
}
use overload_party_scenario.Errors.{Error, Result, ok, err}
use overload_party_scenario.ApiScenario.{Payload}
use overload_party_scenario.World.{World, Message}
use overload_party_scenario.Adapter.Publisher.{
  Publisher, Fate, acknowledged, topic_of, send_to, publish,
}

-- A message among those delivered.
abbrev pub Delivered : Message → List Message → Type 0
Delivered m [] = ⊥
Delivered m (x ∷ xs) = (x ≡ m) ⊎ Delivered m xs

pub Delivered-last : (m : Message) (ms : List Message) → Delivered m (ms ++ m ∷ [])
Delivered-last m [] = inl refl
Delivered-last m (x ∷ ms) = inr (Delivered-last m ms)

pub Delivered-append :
    (m : Message) (ms ns : List Message) → Delivered m ms → Delivered m (ms ++ ns)
Delivered-append m [] ns h = absurd h
Delivered-append m (x ∷ ms) ns (inl e) = inl e
Delivered-append m (x ∷ ms) ns (inr h) = inr (Delivered-append m ms ns h)

module _ (send : Message → Fate) (p : Publisher) (event_type : String) (payload : Payload)
    (w : World) where
  pub publish-db : (publish send p event_type payload w).1.db ≡ w.db
  unfolding publish
  publish-db = ground arith

  abbrev message_on : String → Message
  message_on t = record { topic = t; payload = payload }

  send_to_cases :
      (m : Message)
      → ((send_to send p event_type m w).1.delivered ≡ w.delivered)
        ⊎ ((send_to send p event_type m w).1.delivered ≡ w.delivered ++ m ∷ [])
  send_to_cases m = ground arith

  send_to-eq-ok :
      (m : Message)
      → (send_to send p event_type m w).0 ≡ ok tt
      → (send_to send p event_type m w).1.delivered ≡ w.delivered ++ m ∷ []
  send_to-eq-ok m h = ground arith

  -- Messages once delivered stay delivered.
  pub publish_grows :
      (m : Message)
      → Delivered m w.delivered
      → Delivered m (publish send p event_type payload w).1.delivered
  unfolding publish
  publish_grows m h = elim (Option-cases (topic_of p.by_event_type event_type)) [
    | inl e ↦ rw (e, publish) h
    | inr (t, e) ↦ elim (send_to_cases (message_on t)) [
      | inl same ↦ rw (e, publish) (subst (Delivered m) (sym same) h)
      | inr more ↦
          rw (e, publish) (subst (Delivered m) (sym more) (Delivered-append m w.delivered _ h))
    ]
  ]

  -- A publish that reports no error has put the payload on the topic of its event type.
  pub publish_delivers :
      (publish send p event_type payload w).0 ≡ ok tt
      → (t : String) × (topic_of p.by_event_type event_type ≡ some t)
        × Delivered
            (record { topic = t; payload = payload })
            (publish send p event_type payload w).1.delivered
  unfolding publish
  publish_delivers h = elim (Option-cases (topic_of p.by_event_type event_type)) [
    | inl e ↦ absurd (not_ok (rw (e, publish) at h))
    | inr (t, e) ↦
        let sent = send_to-eq-ok (message_on t) (rw (e, publish) at h) in
        (
          t,
          e,
          rw (e, publish)
              (subst (Delivered (message_on t)) (sym sent)
                (Delivered-last (message_on t) w.delivered)),
        )
  ]
    where
      not_ok : {x : Error} → ◌≡◌ {A = Result (Unit {0})} (err x) (ok tt) → ⊥
      not_ok q = cc

  -- Pub/Sub acknowledges the message on the topic of the event type.
  pub publish-acknowledged :
      (t : String)
      → topic_of p.by_event_type event_type ≡ some t
      → send (message_on t) ≡ acknowledged
      → publish send p event_type payload w
        ≡ (ok tt, record w { delivered = w.delivered ++ message_on t ∷ [] })
  unfolding publish
  publish-acknowledged t known sent = rw (publish, known, send_to, sent) refl
