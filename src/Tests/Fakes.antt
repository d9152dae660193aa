-- ===== src/Tests/Fakes.antt =====
-- The in-memory broker and its stream at concrete inputs.
use overload_party_scenario.Common.{zero, suc, ◌≡◌, refl, none, some, [], ◌∷◌}
use overload_party_scenario.Errors.{Result, ok, err, opaque}
use overload_party_scenario.ApiScenario.{
  OnboardingNameSetEvent, Payload, text, time, name_set_members, event_type_onboarding_name_set,
}
use overload_party_scenario.Fakes.{Publisher, new_broker, new_publisher}
use overload_party_scenario.Fakes.FanOut.{IsWellFormed}
use overload_party_scenario.Fakes.Typed.{
  Moment, fill_onboarding_name_set_defaults, publish_onboarding_name_set,
  expect_onboarding_name_set, wait_onboarding_name_set, receive,
}
use overload_party_scenario.Fakes.RoundTrip.{publish_onboarding_name_set_received}
use overload_party_scenario.Fakes.Stream.{
  Handler, Stream, new_stream, cancel, publish, take_message, put_result, Reach, here, later,
  publishing, taking, putting, cancelling,
}
use overload_party_scenario.Fakes.Stream.Order.{IsInOrder, Reach-IsInOrder}
use overload_party_scenario.Fakes.Stream.Returning.{Returns, cancelled-Returns}

new_broker-IsWellFormed : IsWellFormed new_broker
new_broker-IsWellFormed topic = (tt, tt)

abbrev moment : Moment
moment = record { render = λ e. "error"; random = ok []; now = 7 }

abbrev unfilled : OnboardingNameSetEvent
unfilled = record {
  event_type = "";
  event_id = "e1";
  timestamp = 0;
  player_id = "p1";
  name = "Alice";
}

abbrev filled : OnboardingNameSetEvent
filled = record {
  event_type = event_type_onboarding_name_set;
  event_id = "e1";
  timestamp = 7;
  player_id = "p1";
  name = "Alice";
}

-- The members of a name event, in the order of its fields.
abbrev decode : Payload → Result OnboardingNameSetEvent
decode
      ((_, text event_type)
        ∷ (_, text id)
        ∷ (_, time at)
        ∷ (_, text player)
        ∷ (_, text name)
        ∷ []) =
    ok (record {
      event_type = event_type;
      event_id = id;
      timestamp = at;
      player_id = player;
      name = name;
    })
decode _ = err (opaque "json: another document")

publish_onboarding_name_set_received_example :
    (p : Publisher) × (publish_onboarding_name_set moment unfilled
        (expect_onboarding_name_set (new_publisher new_broker)).1
      ≡ ok (some p))
    × (wait_onboarding_name_set
          (λ t. t)
          "1s"
          decode
          (receive (expect_onboarding_name_set (new_publisher new_broker)).0 p.broker).0
        ≡ ok filled)
    × (p.published
        ≡ record { topic = "onboarding-name-set"; payload = name_set_members filled } ∷ [])
unfolding fill_onboarding_name_set_defaults
publish_onboarding_name_set_received_example =
    publish_onboarding_name_set_received moment (λ t. t) "1s" (new_publisher new_broker)
      new_broker-IsWellFormed decode unfilled tt refl refl refl

abbrev payload : Payload
payload = name_set_members filled

-- A handler that fails from its second call on.
abbrev handler : Handler
handler zero _ = none
handler (suc n) _ = some (opaque "failed")

-- A message is published, handled, and its result is put in the buffer; then the context is cancelled.
abbrev handled_stream : Stream
handled_stream = record new_stream { handled = none ∷ []; calls = 1; published = payload ∷ [] }

handled_stream-Reach : Reach handler new_stream handled_stream
unfolding publish take_message put_result
handled_stream-Reach =
    later (later (later here (publishing payload refl)) (taking refl)) (putting refl)

Reach-IsInOrder_example : IsInOrder handler handled_stream
Reach-IsInOrder_example = Reach-IsInOrder handler handled_stream-Reach

cancelled-Returns_example : Returns (cancel handled_stream)
cancelled-Returns_example = cancelled-Returns handler (later handled_stream-Reach cancelling) refl
