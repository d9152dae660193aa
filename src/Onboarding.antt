-- ===== src/Onboarding.antt =====
-- internal/usecase/onboarding: the use case of the onboarding steps, over the ports (service.go).
pub mod Events
pub mod Payloads
pub mod Pairing
pub mod Completion
pub mod Additions
pub mod Repetition
use Prim.Native.String
use overload_party_scenario.Common.{
  String, ◌==◌, not, Option, none, some, List, [], ◌∷◌, contains, if◌then◌else◌,
}
use overload_party_scenario.Errors.{
  Error, Result, ok, err, wrap, sentinel, port, onboarding, PortError, OnboardingError, is,
  rewrite_error,
}
use overload_party_scenario.Errors.Action.{Action, lift, on_error, ◌>>=◌, ◌>>◌}
use overload_party_scenario.Port.{
  OnboardingRepo, ScriptStore, OnboardingNameValidator, OnboardingPlayerReader, AccountPlayer,
}
use Events.{
  Fresh, build_onboarding_name_set_event, build_onboarding_faction_set_event,
  build_player_onboarded_event,
}

abbrev pub onboarding_error : OnboardingError → Error
onboarding_error e = sentinel (onboarding e)

-- gamedesign.SelectableFactions is a list of another repository.
unfoldable pub validate_faction : List String → String → Result (Unit {0})
validate_faction selectable_factions faction_id =
    if not (contains selectable_factions faction_id)
    then err (onboarding_error OnboardingError.invalid_faction)
    else ok tt

abbrev pub script_error : Error → Error
script_error e =
    if is e (port PortError.script_not_found)
    then onboarding_error OnboardingError.script_not_found
    else wrap "read onboarding script" e

abbrev pub name_error : Error → Error
name_error e =
    if is e (port PortError.invalid_name)
    then onboarding_error OnboardingError.invalid_name
    else if is e (port PortError.player_not_found)
    then onboarding_error OnboardingError.player_not_found
    else wrap "validate onboarding name" e

abbrev pub player_error : Error → Error
player_error e =
    if is e (port PortError.player_not_found)
    then onboarding_error OnboardingError.player_not_found
    else wrap "get onboarding player" e

abbrev pub complete_error : Error → Error
complete_error e =
    if is e (port PortError.already_onboarded)
    then onboarding_error OnboardingError.already_onboarded
    else wrap "mark complete" e

-- `player.InitialFaction == nil || *player.InitialFaction == ""`
abbrev pub selected_faction : Option String → Result String
selected_faction none = err (onboarding_error OnboardingError.faction_not_selected)
selected_faction (some f) =
    if f == "" then err (onboarding_error OnboardingError.faction_not_selected) else ok f

module _ {S : Type 0} (repo : OnboardingRepo S) (script_store : ScriptStore)
    (name_validator : OnboardingNameValidator) (player_reader : OnboardingPlayerReader)
    (selectable_factions : List String) (fresh : Fresh) where
  pub get_script : String → String → Result String
  get_script player_id lang =
      rewrite_error script_error
        (script_store.read_script (String.◌++◌ "scripts/onboarding/" (String.◌++◌ lang ".ks")))

  unfoldable pub update_name : String → String → Action S (Unit {0})
  update_name player_id name = do
    on_error name_error (lift (name_validator.validate_onboarding_name name))
    ev ←
        on_error (wrap "build onboarding-name-set")
          (lift (build_onboarding_name_set_event fresh player_id name))
    on_error (wrap "publish onboarding-name-set") (repo.publish_events (ev ∷ []))

  unfoldable pub select_faction : String → String → Action S (Unit {0})
  unfolding validate_faction
  select_faction player_id initial_faction_id = do
    lift (validate_faction selectable_factions initial_faction_id)
    ev ←
        on_error (wrap "build onboarding-faction-set")
          (lift (build_onboarding_faction_set_event fresh player_id initial_faction_id))
    on_error (wrap "publish onboarding-faction-set") (repo.publish_events (ev ∷ []))

  unfoldable pub complete : String → Action S (Unit {0})
  complete player_id = do
    player ← on_error player_error (lift player_reader.get_onboarding_player)
    faction ← lift (selected_faction player.initial_faction)
    ev ←
        on_error (wrap "build player-onboarded")
          (lift (build_player_onboarded_event fresh player_id faction))
    on_error complete_error (repo.mark_complete player_id (ev ∷ []))
