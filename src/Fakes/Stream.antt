-- ===== src/Fakes/Stream.antt =====
-- packages/api-scenario/apiscenariofake/stream.go: the loop of Consume between the channel of the broker and
-- the channel of the handler's results, as steps that other goroutines can come between.
use overload_party_scenario.Common.{
  ℕ, ◌+◌, String, Bool, true, false, ◌≡◌, not, ◌&&◌, ◌||◌, eqb, Option, none, some, List, [], ◌∷◌,
  ◌++◌, length, ltb, if◌then◌else◌,
}
use overload_party_scenario.Errors.{Error}
use overload_party_scenario.ApiScenario.{Payload}
use overload_party_scenario.Fakes.{default_subscribe_buffer}
pub mod Order
pub mod Returning

abbrev pub handled_buffer_size : ℕ
handled_buffer_size = 16

-- What a handler returns; a nil error is `none`.
abbrev pub Outcome : Type 0
Outcome = Option Error

-- What a handler returns to a message in each of its calls, which are numbered from 0.
abbrev pub Handler : Type 0
Handler = ℕ → Payload → Outcome

-- A Stream and its loop. `ch` and `handled` are the buffers of the channels; `sending` is the result
-- that the loop is sending; `calls` counts the calls of the handler; `expected` is what ExpectHandled
-- has returned so far, `published` is what the channel has been sent.
pub record Stream : Type 0 where
  pub ch : List Payload
  pub closed : Bool
  pub cancelled : Bool
  pub sending : Option Outcome
  pub handled : List Outcome
  pub returned : Bool
  pub calls : ℕ
  pub published : List Payload
  pub expected : List Outcome

-- NewStream, with Consume called on it.
abbrev pub new_stream : Stream
new_stream = record {
  ch = [];
  closed = false;
  cancelled = false;
  sending = none;
  handled = [];
  returned = false;
  calls = 0;
  published = [];
  expected = [];
}

-- A send of the broker: none where it blocks.
unfoldable pub publish : Payload → Stream → Option Stream
publish payload s =
    if ltb (length s.ch) default_subscribe_buffer
    then some (record s { ch = s.ch ++ (payload ∷ []); published = s.published ++ (payload ∷ []) })
    else none

abbrev pub is_none : Option Outcome → Bool
is_none none = true
is_none (some _) = false

-- Whether the loop is at its `select`.
abbrev pub is_selecting : Stream → Bool
is_selecting s = not s.returned && is_none s.sending

-- `case data, ok := <-s.ch` with a message, up to the handler's return.
abbrev pub taken : Handler → Stream → List Payload → Option Stream
taken handler s [] = none
taken handler s (payload ∷ rest) =
    some (record s { ch = rest; sending = some (handler s.calls payload); calls = s.calls + 1 })

unfoldable pub take_message : Handler → Stream → Option Stream
take_message handler s = if is_selecting s then taken handler s s.ch else none

-- `s.handled <- …`: none where the buffer is full, or no result is being sent.
abbrev pub put : Stream → Option Outcome → Option Stream
put s none = none
put s (some outcome) =
    if ltb (length s.handled) handled_buffer_size
    then some (record s { handled = s.handled ++ (outcome ∷ []); sending = none })
    else none

unfoldable pub put_result : Stream → Option Stream
put_result s = put s s.sending

-- `return nil`: the context is cancelled, or the channel is closed and empty.
unfoldable pub return_nil : Stream → Option Stream
return_nil s =
    if is_selecting s && (s.cancelled || (s.closed && eqb (length s.ch) 0))
    then some (record s { returned = true })
    else none

-- ExpectHandled: none where it waits.
abbrev pub expected_of : Stream → List Outcome → Option Stream
expected_of s [] = none
expected_of s (outcome ∷ rest) =
    some (record s { handled = rest; expected = s.expected ++ (outcome ∷ []) })

unfoldable pub expect_handled : Stream → Option Stream
expect_handled s = expected_of s s.handled

abbrev pub cancel : Stream → Stream
cancel s = record s { cancelled = true }

-- The steps of the loop and of the goroutines beside it.
module _ (handler : Handler) where
  pub data Step : Stream → Stream → Type 0 where
    publishing : (payload : Payload) {s t : Stream} → publish payload s ≡ some t → Step s t
    taking : {s t : Stream} → take_message handler s ≡ some t → Step s t
    putting : {s t : Stream} → put_result s ≡ some t → Step s t
    returning : {s t : Stream} → return_nil s ≡ some t → Step s t
    expecting : {s t : Stream} → expect_handled s ≡ some t → Step s t
    cancelling : {s : Stream} → Step s (cancel s)

  pub data Reach (s : Stream) : Stream → Type 0 where
    here : Reach s s
    later : {t u : Stream} → Reach s t → Step t u → Reach s u
