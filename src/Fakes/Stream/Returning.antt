-- ===== src/Fakes/Stream/Returning.antt =====
-- The return of Consume after its context is cancelled.
use overload_party_scenario.Common.{
  ℕ, suc, ◌≤◌, ◌≡◌, refl, true, false, Bool-cases, inl, inr, none, some, Option-cases, List, [],
  ◌∷◌, ◌++◌, length, ltb, arith,
}
use overload_party_scenario.Fakes.Stream.{
  Outcome, Handler, Stream, handled_buffer_size, new_stream, put_result, return_nil, expect_handled,
  Reach,
}
use overload_party_scenario.Fakes.Stream.Order.{Reach-IsInOrder}

-- Steps of the loop of Consume that take no message, with this many returns of ExpectHandled among
-- them.
pub data Drains : ℕ → Stream → Stream → Type 0 where
  drained : {s : Stream} → Drains 0 s s
  puts : {n : ℕ} {s t u : Stream} → put_result s ≡ some t → Drains n t u → Drains n s u
  returns : {n : ℕ} {s t u : Stream} → return_nil s ≡ some t → Drains n t u → Drains n s u
  expects : {n : ℕ} {s t u : Stream} → expect_handled s ≡ some t → Drains n t u → Drains (suc n) s u

-- Such steps, with at most one ExpectHandled, lead to the return of Consume.
abbrev pub Returns : Stream → Type 0
Returns s = (n : ℕ) × (t : Stream) × (n ≤ 1) × Drains n s t × (t.returned ≡ true)

idle-Drains :
    (s : Stream)
    → s.returned ≡ false
    → s.cancelled ≡ true
    → s.sending ≡ none
    → Drains 0 s (record s { returned = true })
unfolding return_nil
idle-Drains s running cancelled idle =
    returns (rw (return_nil, running, idle, cancelled) refl) drained

room-Drains :
    (s : Stream) {outcome : Outcome}
    → s.returned ≡ false
    → s.cancelled ≡ true
    → s.sending ≡ some outcome
    → ltb (length s.handled) handled_buffer_size ≡ true
    → (t : Stream) × Drains 0 s t × (t.returned ≡ true)
unfolding put_result
room-Drains s {outcome} running cancelled sends room =
    let t : Stream = record s { handled = s.handled ++ (outcome ∷ []); sending = none } in
    (
      record t { returned = true },
      puts (rw (put_result, sends, room) refl) (idle-Drains t running cancelled refl),
      refl,
    )

sending-Returns :
    (s : Stream) (handled : List Outcome) {outcome : Outcome}
    → s.handled ≡ handled
    → s.returned ≡ false
    → s.cancelled ≡ true
    → s.sending ≡ some outcome
    → length s.handled ≤ handled_buffer_size
    → Returns s
unfolding expect_handled
sending-Returns s [] same running cancelled sends bound =
    let (t, steps, returned) = room-Drains s running cancelled sends (rw same refl) in
    (0, t, omega arith, steps, returned)
sending-Returns s (first ∷ rest) same running cancelled sends bound =
    let t : Stream = record s { handled = rest; expected = s.expected ++ (first ∷ []) } in
    let (u, steps, returned) =
      room-Drains t running cancelled sends (let b = rw same at bound in ground arith) in
    (1, u, omega arith, expects (rw (expect_handled, same) refl) steps, returned)

module _ (handler : Handler) where
  -- In every state that a new stream reaches, once the context is cancelled, Consume has returned, or
  -- can return by steps of its loop that take no message and by at most one return of ExpectHandled.
  pub cancelled-Returns : {s : Stream} → Reach handler new_stream s → s.cancelled ≡ true → Returns s
  cancelled-Returns {s} r cancelled = elim (Bool-cases s.returned) [
    | inl returned ↦ (0, s, omega arith, drained, returned)
    | inr running ↦ elim (Option-cases s.sending) [
      | inl idle ↦
          (0, record s { returned = true }, omega arith, idle-Drains s running cancelled idle, refl)
      | inr (outcome, sends) ↦
          sending-Returns s s.handled refl running cancelled sends
            (Reach-IsInOrder handler r).handled_bound
    ]
  ]
