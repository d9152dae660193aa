-- ===== src/Presenter.antt =====
-- internal/presenter: domain values into wire values (episode.go, event.go).
pub mod Episodes
use Prim.Native.String
use overload_party_scenario.Common.{ℕ, String, Bool, Option, none, some, List, [], ◌∷◌, length, eqb}
use overload_party_scenario.Errors.{Result, ok, err, panic, ◌>>=◌, rewrite_error, wrap}
use overload_party_scenario.Domain
use overload_party_scenario.Domain.{Episode, UnlockContext, index, title}
use overload_party_scenario.ApiScenario
use overload_party_scenario.ApiScenario.{
  EpisodeWithStatus, Payload, json_marshal, name_set_members, faction_set_members,
  player_onboarded_members, event_type_onboarding_name_set, event_type_onboarding_faction_set,
  event_type_player_onboarded,
}

-- The text of the panic has the type without the quotes of the verb %q.
reason_of_type : Domain.LockReasonType → Domain.LockReason → Result ApiScenario.LockReason
reason_of_type Domain.LockReasonType.level r = ok (record {
  current_level = some r.current_level;
  required_episode = none;
  required_faction = none;
  required_level = some r.required_level;
  type = ApiScenario.LockReasonType.level;
})
reason_of_type Domain.LockReasonType.faction r = ok (record {
  current_level = none;
  required_episode = none;
  required_faction = some r.required_faction;
  required_level = none;
  type = ApiScenario.LockReasonType.faction;
})
reason_of_type Domain.LockReasonType.episode r = ok (record {
  current_level = none;
  required_episode = some r.required_episode;
  required_faction = none;
  required_level = none;
  type = ApiScenario.LockReasonType.episode;
})
reason_of_type (Domain.LockReasonType.other t) r =
    panic (String.◌++◌ "presenter: 未知の LockReasonType " t)

unfoldable pub to_lock_reason : Domain.LockReason → Result ApiScenario.LockReason
unfolding reason_of_type
to_lock_reason r = reason_of_type r.type r

unfoldable pub to_lock_reasons : List Domain.LockReason → Result (List ApiScenario.LockReason)
to_lock_reasons [] = ok []
to_lock_reasons (r ∷ rs) = do wire ← to_lock_reason r; rest ← to_lock_reasons rs; ok (wire ∷ rest)

unfoldable pub build_episode_with_status :
    Episode → UnlockContext → String → Result EpisodeWithStatus
build_episode_with_status ep uc lang =
    let reasons = Domain.lock_reasons ep uc in
    do
      wire_reasons ← to_lock_reasons reasons
      ok (record {
        episode_id = ep.episode_id;
        episode_number = ep.episode_number;
        faction = ep.faction;
        is_completed = index uc.completed_episodes ep.episode_id;
        is_unlocked = eqb (length reasons) 0;
        lock_reasons = wire_reasons;
        thumbnail_url = ep.thumbnail_path;
        title = title ep lang;
      })

unfoldable pub build_episodes_with_status :
    List Episode → UnlockContext → String → Result (List EpisodeWithStatus)
build_episodes_with_status [] uc lang = ok []
build_episodes_with_status (ep ∷ eps) uc lang = do
  row ← build_episode_with_status ep uc lang
  rest ← build_episodes_with_status eps uc lang
  ok (row ∷ rest)

unfoldable pub to_onboarding_name_set_wire :
    Domain.OnboardingNameSetEvent → Result (String × Payload)
to_onboarding_name_set_wire ev =
    let wire : ApiScenario.OnboardingNameSetEvent = record {
      event_type = event_type_onboarding_name_set;
      event_id = ev.event_id;
      timestamp = ev.timestamp;
      player_id = ev.player_id;
      name = ev.name;
    } in
    do
      payload ←
          rewrite_error (wrap "marshal OnboardingNameSetEvent")
            (json_marshal (name_set_members wire))
      ok (event_type_onboarding_name_set, payload)

unfoldable pub to_onboarding_faction_set_wire :
    Domain.OnboardingFactionSetEvent → Result (String × Payload)
to_onboarding_faction_set_wire ev =
    let wire : ApiScenario.OnboardingFactionSetEvent = record {
      event_type = event_type_onboarding_faction_set;
      event_id = ev.event_id;
      timestamp = ev.timestamp;
      player_id = ev.player_id;
      initial_faction_id = ev.initial_faction_id;
    } in
    do
      payload ←
          rewrite_error (wrap "marshal OnboardingFactionSetEvent")
            (json_marshal (faction_set_members wire))
      ok (event_type_onboarding_faction_set, payload)

unfoldable pub to_player_onboarded_wire : Domain.PlayerOnboardedEvent → Result (String × Payload)
to_player_onboarded_wire ev =
    let wire : ApiScenario.PlayerOnboardedEvent = record {
      event_type = event_type_player_onboarded;
      event_id = ev.event_id;
      timestamp = ev.timestamp;
      player_id = ev.player_id;
      initial_faction_id = ev.initial_faction_id;
    } in
    do
      payload ←
          rewrite_error (wrap "marshal PlayerOnboardedEvent")
            (json_marshal (player_onboarded_members wire))
      ok (event_type_player_onboarded, payload)
