-- ===== src/Rest.antt =====
-- internal/handler/rest: what the handlers share (errors.go), and how they turn a use case's result
-- into a reply. A reply holds the status, the JSON body and the log line that the handler writes.
pub mod StoryHandler
pub mod OnboardingHandler
pub mod Statuses
pub mod AccountErrors
use overload_party_scenario.Common.{
  ℕ, String, Bool, true, false, Option, none, some, List, ◌||◌, if◌then◌else◌,
}
use overload_party_scenario.Errors.{
  Error, Result, ok, err, panic, port, story, PortError, StoryError, is,
}
use overload_party_scenario.Errors.Action.{Action}
use overload_party_scenario.ApiScenario.{EpisodeWithStatus}

-- The JSON bodies: gin.H{"error": …} and the response types of openapi_gen.go.
pub data Body : Type 0 where
  empty : Body
  error_message : String → Body
  episodes_list : List EpisodeWithStatus → Body
  scenario_script : String → String → Body
  scenario_complete : String → String → Body
  onboarding_script : String → Body
  onboarding_complete : String → String → Body
  health : String → Body

pub data LogLevel : Type 0 where
  info error : LogLevel

pub record LogLine : Type 0 where
  pub level : LogLevel
  pub message : String

pub record Reply : Type 0 where
  pub status : ℕ
  pub body : Body
  pub log : Option LogLine

abbrev pub status_ok : ℕ
status_ok = 200

abbrev pub status_no_content : ℕ
status_no_content = 204

abbrev pub status_bad_request : ℕ
status_bad_request = 400

abbrev pub status_unauthorized : ℕ
status_unauthorized = 401

abbrev pub status_forbidden : ℕ
status_forbidden = 403

abbrev pub status_not_found : ℕ
status_not_found = 404

abbrev pub status_conflict : ℕ
status_conflict = 409

abbrev pub status_internal_server_error : ℕ
status_internal_server_error = 500

abbrev pub is_not_found : Error → Bool
is_not_found e = is e (story StoryError.episode_not_found) || is e (port PortError.script_not_found)

abbrev pub is_locked : Error → Bool
is_locked e = is e (story StoryError.episode_locked)

abbrev pub is_infra : Error → Bool
is_infra e = is e (port PortError.script_infra)

unfoldable pub resolve_error_status : Error → ℕ
resolve_error_status e =
    if is_not_found e
    then status_not_found
    else if is_locked e
    then status_forbidden
    else if is_infra e
    then status_internal_server_error
    else status_internal_server_error

-- c.DefaultQuery("lang", "ja")
abbrev pub default_lang : Option String → String
default_lang none = "ja"
default_lang (some lang) = lang

abbrev pub log : LogLevel → String → Option LogLine
log level message = some (record { level = level; message = message })

module _ {A : Type 0} where
  -- A handler after its call of the service: a reply to the value, or to the error.
  abbrev pub answer : (A → Reply) → (Error → Reply) → Result A → Result Reply
  answer f g (ok a) = ok (f a)
  answer f g (err e) = ok (g e)
  answer f g (panic p) = panic p

  abbrev pub reply_to : {S : Type 0} → (A → Reply) → (Error → Reply) → Action S A → Action S Reply
  reply_to f g m s = let (r, s') = m s in (answer f g r, s')
