-- ===== src/Errors/Messages.antt =====
-- The texts of the error values: `Error()`.
use Prim.Native.String
use overload_party_scenario.Common.{String}
use overload_party_scenario.Errors.{
  PortError, StoryError, OnboardingError, LibraryError, ClientError, Sentinel, port, story,
  onboarding, library, client, unauthorized, forbidden, bad_request, conflict, internal_server,
  Error, sentinel, wrapf, pg_error, opaque,
}

abbrev port_text : PortError → String
port_text PortError.not_found = "not found"
port_text PortError.script_not_found = "story script not found"
port_text PortError.script_infra = "story script infrastructure error"
port_text PortError.invalid_name = "account: invalid name"
port_text PortError.player_not_found = "account: player not found"
port_text PortError.faction_not_selected = "account: initial faction not selected"
port_text PortError.already_onboarded = "onboarding: already completed"

abbrev story_text : StoryError → String
story_text StoryError.episode_not_found = "episode not found"
story_text StoryError.episode_locked = "episode is locked"

abbrev onboarding_text : OnboardingError → String
onboarding_text OnboardingError.already_onboarded = "onboarding: already completed"
onboarding_text OnboardingError.script_not_found = "onboarding: script not found"
onboarding_text OnboardingError.invalid_faction = "onboarding: invalid initial faction"
onboarding_text OnboardingError.invalid_name = "onboarding: invalid name"
onboarding_text OnboardingError.player_not_found = "onboarding: player not found"
onboarding_text OnboardingError.faction_not_selected = "onboarding: initial faction not selected"

abbrev client_text : ClientError → String
client_text ClientError.not_found = "apiscenarioclient: not found"
client_text unauthorized = "apiscenarioclient: unauthorized"
client_text forbidden = "apiscenarioclient: forbidden"
client_text bad_request = "apiscenarioclient: bad request"
client_text conflict = "apiscenarioclient: conflict"
client_text internal_server = "apiscenarioclient: internal server error"

-- The texts of other packages' sentinels are a parameter.
module _ (library_text : LibraryError → String) where
  abbrev pub sentinel_text : Sentinel → String
  sentinel_text (port e) = port_text e
  sentinel_text (story e) = story_text e
  sentinel_text (onboarding e) = onboarding_text e
  sentinel_text (library e) = library_text e
  sentinel_text (client e) = client_text e

  abbrev pub error_text : Error → String
  error_text (sentinel s) = sentinel_text s
  error_text (wrapf before e after) = String.◌++◌ before (String.◌++◌ (error_text e) after)
  error_text (pg_error code text) = text
  error_text (opaque text) = text
