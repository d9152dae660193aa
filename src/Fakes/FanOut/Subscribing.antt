-- ===== src/Fakes/FanOut/Subscribing.antt =====
-- A new channel of a topic.
use overload_party_scenario.Common.{
  String, ℕ, ◌<◌, ◌==◌, ◌≡◌, refl, ◌∙◌, true, false, Bool-cases, inl, inr, List, [], ◌∷◌, ◌++◌,
  length, length-append, All, All-append, eqb, eq_refl, arith, ◌+◌,
}
use overload_party_scenario.Fakes.{Broker, channels_of, subscribe}
use overload_party_scenario.Fakes.Store.{get_queue, get_queue-append, get_queue-outside}
use overload_party_scenario.Fakes.FanOut.{mem, Distinct, IsWellFormed, HasRoom}

mem-outside : (n : ℕ) (xs : List ℕ) → All (λ x. x < n) xs → mem n xs ≡ false
mem-outside n [] h = refl
mem-outside n (x ∷ xs) h = ground (arith, mem-outside n xs h.1)

mem-snoc :
    (n m : ℕ) (xs : List ℕ) → mem n xs ≡ false → eqb n m ≡ false → mem n (xs ++ (m ∷ [])) ≡ false
mem-snoc n m [] h e = rw e refl
mem-snoc n m (x ∷ xs) h e = ground (arith, mem-snoc n m xs)

mem-last : (n : ℕ) (xs : List ℕ) → mem n (xs ++ (n ∷ [])) ≡ true
mem-last n [] = ground arith
mem-last n (x ∷ xs) = ground (arith, mem-last n xs)

Distinct-snoc :
    (n : ℕ) (xs : List ℕ) → All (λ x. x < n) xs → Distinct xs → Distinct (xs ++ (n ∷ []))
Distinct-snoc n [] h d = (refl, tt)
Distinct-snoc n (x ∷ xs) h d = (mem-snoc x n xs d.0 (ground arith), Distinct-snoc n xs h.1 d.1)

below_more : (n : ℕ) (xs : List ℕ) → All (λ x. x < n) xs → All (λ x. x < n + 1) xs
below_more n [] h = tt
below_more n (x ∷ xs) h = (omega arith, below_more n xs h.1)

module _ (topic : String) (b : Broker) where
  -- The broker stays well-formed, and the new channel is an empty one of its topic; the messages of the
  -- others are kept.
  pub subscribe_adds :
      IsWellFormed b
      → IsWellFormed (subscribe topic b).1
        × (get_queue (subscribe topic b).0 (subscribe topic b).1.queues ≡ [])
        × (mem (subscribe topic b).0 (channels_of (subscribe topic b).1.by_topic topic) ≡ true)
        × ((ch : ℕ) → get_queue ch (subscribe topic b).1.queues ≡ get_queue ch b.queues)
  unfolding subscribe
  subscribe_adds formed = (
    λ t. elim (Bool-cases (topic == t)) [
      | inl e ↦
          let (distinct, inside) = formed topic in
          rw e (
            Distinct-snoc (length b.queues) (channels_of b.by_topic topic) inside distinct,
            All-append (λ ch. ch < length (b.queues ++ ([] ∷ []))) (channels_of b.by_topic topic) _
                (longer (channels_of b.by_topic topic) inside)
                (rw (length-append b.queues ([] ∷ [])) omega arith, tt),
          )
      | inr e ↦ rw e ((formed t).0, longer (channels_of b.by_topic t) (formed t).1)
    ],
    get_queue-append (length b.queues) b.queues
        ∙ get_queue-outside (length b.queues) b.queues (omega arith),
    rw (eq_refl topic) (mem-last (length b.queues) (channels_of b.by_topic topic)),
    λ ch. get_queue-append ch b.queues,
  )
    where
      longer :
          (ids : List ℕ)
          → All (λ ch. ch < length b.queues) ids
          → All (λ ch. ch < length (b.queues ++ ([] ∷ []))) ids
      longer ids h = rw (length-append b.queues ([] ∷ [])) (below_more (length b.queues) ids h)

  -- Where the channels of the topic have room, so they have with the new one.
  pub subscribe-HasRoom :
      All (HasRoom b.queues) (channels_of b.by_topic topic)
      → All
          (HasRoom (subscribe topic b).1.queues)
          (channels_of (subscribe topic b).1.by_topic topic)
  unfolding subscribe
  subscribe-HasRoom rooms = rw (eq_refl topic) (
      All-append (HasRoom (b.queues ++ ([] ∷ []))) (channels_of b.by_topic topic) _
        (kept (channels_of b.by_topic topic) rooms)
        (
          rw
              (
                get_queue-append (length b.queues) b.queues,
                get_queue-outside (length b.queues) b.queues (omega arith),
              )
              refl,
          tt,
        ))
    where
      kept : (ids : List ℕ) → All (HasRoom b.queues) ids → All (HasRoom (b.queues ++ ([] ∷ []))) ids
      kept [] h = tt
      kept (ch ∷ ids) h = (rw (get_queue-append ch b.queues) h.0, kept ids h.1)
