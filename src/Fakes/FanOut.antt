-- ===== src/Fakes/FanOut.antt =====
-- What a published message does to the channels.
pub mod Subscribing
use overload_party_scenario.Common.{
  String, ℕ, zero, suc, ◌<◌, ◌≡◌, ◌≢◌, refl, sym, ap, ◌∙◌, subst, Bool, true, false, Bool-cases,
  inl, inr, Option, none, some, Option-cases, List, [], ◌∷◌, ◌++◌, length, length-append, All,
  All-append, any, eqb, ltb, arith, if◌then◌else◌, ◌||◌,
}
use overload_party_scenario.ApiScenario.{Payload}
use overload_party_scenario.Fakes.{
  Broker, TopicMap, channels_of, default_subscribe_buffer, subscribe, send, send_all, publish_to,
}
use overload_party_scenario.Fakes.Store.{
  Queue, get_queue, set_queue, length-set_queue, get-set_queue_same, get-set_queue_other,
}

abbrev pub mem : ℕ → List ℕ → Bool
mem n = any (eqb n)

abbrev pub Distinct : List ℕ → Type 0
Distinct [] = Unit
Distinct (x ∷ xs) = (mem x xs ≡ false) × Distinct xs

-- The channels of each topic are distinct and in the store.
abbrev pub IsWellFormed : Broker → Type 0
IsWellFormed b =
    (topic : String)
    → Distinct (channels_of b.by_topic topic)
      × All (λ ch. ch < length b.queues) (channels_of b.by_topic topic)

-- A queue after a message, by whether its channel gets it.
abbrev pub Gets : Payload → Bool → Queue → Queue → Type 0
Gets payload receives before after = after ≡ (if receives then before ++ (payload ∷ []) else before)

send-eq-some :
    (ch : ℕ) (payload : Payload) (queues : List Queue) {queues' : List Queue}
    → send ch payload queues ≡ some queues'
    → set_queue ch (get_queue ch queues ++ (payload ∷ [])) queues ≡ queues'
unfolding send
send-eq-some ch payload queues e =
    elim (Bool-cases (ltb (length (get_queue ch queues)) default_subscribe_buffer)) [
      | inl room ↦ let same = rw room at e in cc
      | inr full ↦ let same = rw full at e in absurd cc
    ]

set_queue-Gets :
    (ch : ℕ) (payload : Payload) (queues : List Queue)
    → ch < length queues
    → (m : ℕ)
    → Gets payload
        (eqb m ch)
        (get_queue m queues)
        (get_queue m (set_queue ch (get_queue ch queues ++ (payload ∷ [])) queues))
set_queue-Gets ch payload queues inside m = elim (Bool-cases (eqb m ch)) [
  | inl e ↦ let same : m ≡ ch = ground arith in rw (e, same) (get-set_queue_same ch _ queues inside)
  | inr e ↦ rw e (get-set_queue_other ch m _ queues (λ same. ground arith))
]

send-Gets :
    (ch : ℕ) (payload : Payload) (queues : List Queue) {queues' : List Queue}
    → ch < length queues
    → send ch payload queues ≡ some queues'
    → (length queues' ≡ length queues)
      × ((m : ℕ) → Gets payload (eqb m ch) (get_queue m queues) (get_queue m queues'))
send-Gets ch payload queues inside e =
    rw⁻¹ (send-eq-some ch payload queues e)
      (length-set_queue ch _ queues, set_queue-Gets ch payload queues inside)

some-injective : {a b : List Queue} → some a ≡ some b → a ≡ b
some-injective h = cc

-- One channel of a topic, and then the rest of them.
Gets-then :
    (payload : Payload) (first rest : Bool) (before between after : Queue)
    → (first ≡ true → rest ≡ false)
    → Gets payload first before between
    → Gets payload rest between after
    → Gets payload (first || rest) before after
Gets-then payload true true before between after h g k = absurd (let x = h refl in cc)
Gets-then payload true false before between after h g k = k ∙ g
Gets-then payload false true before between after h g k = rw g at k
Gets-then payload false false before between after h g k = k ∙ g

send_all-Gets :
    (ids : List ℕ) (payload : Payload) (queues : List Queue) {queues' : List Queue}
    → Distinct ids
    → All (λ ch. ch < length queues) ids
    → send_all ids payload queues ≡ some queues'
    → (length queues' ≡ length queues)
      × ((m : ℕ) → Gets payload (mem m ids) (get_queue m queues) (get_queue m queues'))
send_all-Gets [] payload queues distinct inside e =
    subst
      (λ after.
        (length after ≡ length queues)
        × ((m : ℕ) → Gets payload false (get_queue m queues) (get_queue m after)))
      (some-injective e) (refl, λ m. refl)
send_all-Gets (ch ∷ subs) payload queues (apart, distinct) (here, inside) e =
    elim (Option-cases (send ch payload queues)) [
      | inl full ↦ let h = rw (send_all, full) at e in absurd cc
      | inr (between, sent) ↦
          let (len, gets) = send-Gets ch payload queues here sent in
          let (len', gets') =
            send_all-Gets subs payload between distinct (rw len inside)
              (rw (send_all, sent) at e) in
          (
            len' ∙ len,
            λ m.
                Gets-then payload (eqb m ch) (mem m subs) _ _ _
                  (λ is_ch. let same : m ≡ ch = ground arith in rw same apart) (gets m) (gets' m),
          )
    ]

module _ (topic : String) (payload : Payload) (b : Broker) where
  -- A published message is put, once, behind the messages of each channel of its topic, and no other
  -- channel changes.
  pub publish_to_fans_out :
      {b' : Broker}
      → IsWellFormed b
      → publish_to topic payload b ≡ some b'
      → IsWellFormed b'
        × ((ch : ℕ)
            → get_queue ch b'.queues ≡ (
                if mem ch (channels_of b.by_topic topic)
                then get_queue ch b.queues ++ (payload ∷ [])
                else get_queue ch b.queues))
  unfolding publish_to
  publish_to_fans_out {b'} formed e =
      elim (Option-cases (send_all (channels_of b.by_topic topic) payload b.queues)) [
        | inl full ↦ let h = rw (publish_to, full) at e in absurd cc
        | inr (queues, sent) ↦
            let (distinct, inside) = formed topic in
            let (len, gets) =
              send_all-Gets (channels_of b.by_topic topic) payload b.queues distinct inside sent in
            let same : record b { queues = queues } ≡ b' =
              let h = rw (publish_to, sent) at e in cc in
            rw⁻¹ same (λ t. rw len (formed t), gets)
      ]

-- A channel of the topic that has room takes the message.
abbrev pub HasRoom : List Queue → ℕ → Type 0
HasRoom queues ch = ltb (length (get_queue ch queues)) default_subscribe_buffer ≡ true

-- The room of the other channels is left.
rooms_kept :
    (subs : List ℕ) (queues queues' : List Queue)
    → ((m : ℕ) → mem m subs ≡ true → get_queue m queues' ≡ get_queue m queues)
    → All (HasRoom queues) subs
    → All (HasRoom queues') subs
rooms_kept [] queues queues' same h = tt
rooms_kept (ch ∷ subs) queues queues' same h = (
  rw (same ch (ground arith)) h.0,
  rooms_kept subs queues queues' (λ m e. same m (ground arith)) h.1,
)

send_all_returns :
    (ids : List ℕ) (payload : Payload) (queues : List Queue)
    → Distinct ids
    → All (λ ch. ch < length queues) ids
    → All (HasRoom queues) ids
    → (queues' : List Queue) × (send_all ids payload queues ≡ some queues')
unfolding send
send_all_returns [] payload queues distinct inside rooms = (queues, refl)
send_all_returns (ch ∷ subs) payload queues (apart, distinct) (here, inside) (room, rooms) =
    let between = set_queue ch (get_queue ch queues ++ (payload ∷ [])) queues in
    let sent : send ch payload queues ≡ some between = rw (send, room) refl in
    let kept : (m : ℕ) → mem m subs ≡ true → get_queue m between ≡ get_queue m queues =
      λ m is_sub. get-set_queue_other ch m _ queues (λ same. let x = rw same at apart in cc) in
    let (queues', e) =
      send_all_returns subs payload between distinct
        (rw (length-set_queue ch (get_queue ch queues ++ (payload ∷ [])) queues) inside)
        (rooms_kept subs queues between kept rooms) in
    (queues', rw (send_all, sent) e)

-- A message returns from a broker whose channels of the topic have room.
pub publish_to_returns :
    (topic : String) (payload : Payload) (b : Broker)
    → IsWellFormed b
    → All (HasRoom b.queues) (channels_of b.by_topic topic)
    → (b' : Broker) × (publish_to topic payload b ≡ some b')
unfolding publish_to
publish_to_returns topic payload b formed rooms =
    let (distinct, inside) = formed topic in
    let (queues, e) =
      send_all_returns (channels_of b.by_topic topic) payload b.queues distinct inside rooms in
    (record b { queues = queues }, rw (publish_to, e) refl)
