-- ===== src/Fakes/Stream/Order.antt =====
-- The order of the results, and the bounds of the channels.
use overload_party_scenario.Common.{
  ℕ, ◌+◌, ◌≤◌, ◌≡◌, refl, sym, ap, ◌∙◌, subst, Bool, true, false, not, ◌&&◌, Bool-cases, inl, inr,
  Option, none, some, List, [], ◌∷◌, ◌++◌, length, length-append, ltb, arith, if◌then◌else◌,
}
use mathlib.Core.List.{append_assoc}
use overload_party_scenario.ApiScenario.{Payload}
use overload_party_scenario.Fakes.{default_subscribe_buffer}
use overload_party_scenario.Fakes.Stream.{
  Outcome, Handler, Stream, handled_buffer_size, new_stream, is_selecting, taken, put, expected_of,
  is_none, publish, take_message, put_result, return_nil, expect_handled, Step, publishing, taking,
  putting, returning, expecting, cancelling, Reach, here, later,
}

abbrev pub in_flight : Option Outcome → List Outcome
in_flight none = []
in_flight (some outcome) = outcome ∷ []

-- The outcomes of the calls for these messages, of which the first call has the number `n`.
abbrev pub outcomes : Handler → ℕ → List Payload → List Outcome
outcomes handler n [] = []
outcomes handler n (payload ∷ payloads) = handler n payload ∷ outcomes handler (n + 1) payloads

-- Every message is handled once, in the order of their publication: the results that were expected,
-- those that wait, the one being sent, and those that the messages still in the channel will have, are
-- the outcomes of the calls for all published messages. Neither buffer exceeds its size.
pub record IsInOrder (handler : Handler) (s : Stream) : Type 0 where
  pub results :
      s.expected ++ (s.handled ++ (in_flight s.sending ++ outcomes handler s.calls s.ch))
      ≡ outcomes handler 0 s.published
  pub calls_count : s.calls + length s.ch ≡ length s.published
  pub ch_bound : length s.ch ≤ default_subscribe_buffer
  pub handled_bound : length s.handled ≤ handled_buffer_size

from_zero : (n : ℕ) → 0 + n ≡ n
from_zero n = omega arith

some-injective : {s t : Stream} → some s ≡ some t → s ≡ t
some-injective h = cc

pub guarded-eq-some :
    (b : Bool) (x : Option Stream) {t : Stream}
    → (if b then x else none) ≡ some t
    → (b ≡ true) × (x ≡ some t)
guarded-eq-some true x h = (refl, h)
guarded-eq-some false x h = cc

idle :
    (returned : Bool) (sending : Option Outcome)
    → not returned && is_none sending ≡ true
    → sending ≡ none
idle returned none h = refl
idle true (some outcome) h = cc
idle false (some outcome) h = cc

module _ (handler : Handler) where
  outcomes-snoc :
      (n : ℕ) (payload : Payload) (xs : List Payload)
      → outcomes handler n (xs ++ (payload ∷ []))
        ≡ outcomes handler n xs ++ (handler (n + length xs) payload ∷ [])
  outcomes-snoc n payload [] = ap (λ k. handler k payload ∷ []) (omega arith)
  outcomes-snoc n payload (x ∷ xs) = ap (◌∷◌ (handler n x)) (
      outcomes-snoc (n + 1) payload xs
      ∙ ap (λ k. outcomes handler (n + 1) xs ++ (handler k payload ∷ [])) (omega arith))

  publish-eq-some :
      (payload : Payload) (s : Stream) {t : Stream}
      → publish payload s ≡ some t
      → (ltb (length s.ch) default_subscribe_buffer ≡ true)
        × (record s { ch = s.ch ++ (payload ∷ []); published = s.published ++ (payload ∷ []) } ≡ t)
  unfolding publish
  publish-eq-some payload s e = elim (Bool-cases (ltb (length s.ch) default_subscribe_buffer)) [
    | inl room ↦ (room, let e' = rw (publish, room) at e in cc)
    | inr full ↦ let e' = rw (publish, full) at e in absurd cc
  ]

  publish-IsInOrder :
      (payload : Payload) (s : Stream) {t : Stream}
      → IsInOrder handler s
      → publish payload s ≡ some t
      → IsInOrder handler t
  publish-IsInOrder payload s h e =
      let (room, same) = publish-eq-some payload s e in
      let kept : IsInOrder handler
          (record s { ch = s.ch ++ (payload ∷ []); published = s.published ++ (payload ∷ []) }) =
        record {
          results =
              rw
                (
                  outcomes-snoc s.calls payload s.ch,
                  outcomes-snoc 0 payload s.published,
                  sym h.results,
                  h.calls_count,
                  from_zero (length s.published),
                )
                simp (append_assoc) refl;
          calls_count =
              rw (length-append s.ch (payload ∷ []), length-append s.published (payload ∷ []))
                (let count = h.calls_count in omega arith);
          ch_bound = rw (length-append s.ch (payload ∷ [])) ground arith;
          handled_bound = h.handled_bound;
        } in
      subst (IsInOrder handler) same kept

  taken-IsInOrder :
      (s : Stream) (ch : List Payload) {t : Stream}
      → s.ch ≡ ch
      → s.sending ≡ none
      → IsInOrder handler s
      → taken handler s ch ≡ some t
      → IsInOrder handler t
  taken-IsInOrder s [] same idle h e = absurd cc
  taken-IsInOrder s (payload ∷ rest) same idle h e =
      let kept : IsInOrder handler
          (record s { ch = rest; sending = some (handler s.calls payload); calls = s.calls + 1 }) =
        record {
          results = rw (same, idle) at h.results;
          calls_count = let count = rw same at h.calls_count in omega arith;
          ch_bound = let bound = rw same at h.ch_bound in omega arith;
          handled_bound = h.handled_bound;
        } in
      subst (IsInOrder handler) (some-injective e) kept

  put-IsInOrder :
      (s : Stream) (sending : Option Outcome) {t : Stream}
      → s.sending ≡ sending
      → IsInOrder handler s
      → put s sending ≡ some t
      → IsInOrder handler t
  put-IsInOrder s none same h e = absurd cc
  put-IsInOrder s (some outcome) same h e =
      elim (Bool-cases (ltb (length s.handled) handled_buffer_size)) [
        | inl room ↦
            let kept : IsInOrder handler
                (record s { handled = s.handled ++ (outcome ∷ []); sending = none }) =
              record {
                results = simp (append_assoc) (rw same at h.results);
                calls_count = h.calls_count;
                ch_bound = h.ch_bound;
                handled_bound = rw (length-append s.handled (outcome ∷ [])) ground arith;
              } in
            subst (IsInOrder handler) (some-injective (rw (put, room) at e)) kept
        | inr full ↦ let e' = rw (put, full) at e in absurd cc
      ]

  expected-IsInOrder :
      (s : Stream) (handled : List Outcome) {t : Stream}
      → s.handled ≡ handled
      → IsInOrder handler s
      → expected_of s handled ≡ some t
      → IsInOrder handler t
  expected-IsInOrder s [] same h e = absurd cc
  expected-IsInOrder s (outcome ∷ rest) same h e =
      let kept : IsInOrder handler
          (record s { handled = rest; expected = s.expected ++ (outcome ∷ []) }) =
        record {
          results = simp (append_assoc) (rw same at h.results);
          calls_count = h.calls_count;
          ch_bound = h.ch_bound;
          handled_bound = let bound = rw same at h.handled_bound in omega arith;
        } in
      subst (IsInOrder handler) (some-injective e) kept

  Step-IsInOrder : {s t : Stream} → Step handler s t → IsInOrder handler s → IsInOrder handler t
  unfolding take_message put_result return_nil expect_handled
  Step-IsInOrder {s} (publishing payload e) h = publish-IsInOrder payload s h e
  Step-IsInOrder {s} (taking e) h =
      let (selects, e') = guarded-eq-some (is_selecting s) (taken handler s s.ch) e in
      taken-IsInOrder s s.ch refl (idle s.returned s.sending selects) h e'
  Step-IsInOrder {s} (putting e) h = put-IsInOrder s s.sending refl h e
  Step-IsInOrder {s} (returning e) h =
      let (_, e') = guarded-eq-some _ (some (record s { returned = true })) e in
      let kept : IsInOrder handler (record s { returned = true }) = record {
        results = h.results;
        calls_count = h.calls_count;
        ch_bound = h.ch_bound;
        handled_bound = h.handled_bound;
      } in
      subst (IsInOrder handler) (some-injective e') kept
  Step-IsInOrder {s} (expecting e) h = expected-IsInOrder s s.handled refl h e
  Step-IsInOrder {s} cancelling h = record {
    results = h.results;
    calls_count = h.calls_count;
    ch_bound = h.ch_bound;
    handled_bound = h.handled_bound;
  }

  -- However the publishers, the loop of Consume and ExpectHandled come between each other, and
  -- wherever the context is cancelled: the results that ExpectHandled has returned, those that wait in
  -- the buffer, the one being sent and those that the messages in the channel will have are, in this
  -- order, the handler's results for all published messages, each called for once and in the order of
  -- their publication, and neither buffer exceeds its size.
  pub Reach-IsInOrder : {s : Stream} → Reach handler new_stream s → IsInOrder handler s
  Reach-IsInOrder here = record {
    results = refl;
    calls_count = refl;
    ch_bound = omega arith;
    handled_bound = omega arith;
  }
  Reach-IsInOrder (later r step) = Step-IsInOrder step (Reach-IsInOrder r)
