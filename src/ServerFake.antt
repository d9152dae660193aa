-- ===== src/ServerFake.antt =====
-- packages/api-scenario/apiscenarioserverfake/server.go. The bodies that the callbacks return are
-- documents of the API here, and `empty` is a nil body; as in a handler's reply, the Content-Type that a
-- body has is left to how the reply arrives. What http.ServeMux does is a parameter.
use overload_party_scenario.Common.{ℕ, String, Option, none, some, List, []}
use overload_party_scenario.Errors.{ok}
use overload_party_scenario.Rest.{
  Reply, Body, empty, episodes_list, scenario_script, status_ok, status_no_content,
}
use overload_party_scenario.ApiClient.{Request, Response, Doer}
pub mod Defaults

-- A nil callback is `none`.
pub record Server : Type 0 where
  pub list_episodes_fn : Option (String → ℕ × Body)
  pub get_script_fn : Option (String → String → ℕ × Body)
  pub complete_episode_fn : Option (String → ℕ × Body)

-- The callbacks of NewServer's server.
abbrev pub new_server : Server
new_server = record { list_episodes_fn = none; get_script_fn = none; complete_episode_fn = none }

abbrev pub write_json : ℕ × Body → Reply
write_json (status, body) = record { status = status; body = body; log = none }

module _ (s : Server) where
  unfoldable pub handle_list_episodes : String → Reply
  handle_list_episodes lang = elim s.list_episodes_fn [
    | none ↦ write_json (status_ok, episodes_list [])
    | some fn ↦ write_json (fn lang)
  ]

  unfoldable pub handle_get_script : String → String → Reply
  handle_get_script episode_id lang = elim s.get_script_fn [
    | none ↦ write_json (status_ok, scenario_script episode_id "")
    | some fn ↦ write_json (fn episode_id lang)
  ]

  unfoldable pub handle_complete_episode : String → Reply
  handle_complete_episode episode_id = elim s.complete_episode_fn [
    | none ↦ write_json (status_no_content, empty)
    | some fn ↦ write_json (fn episode_id)
  ]

-- The handlers that NewServer registers, with the path value and the value of `lang`.
pub data Handled : Type 0 where
  list_episodes : String → Handled
  get_script : String → String → Handled
  complete_episode : String → Handled

-- `mux` takes a request to its handler; `not_found` is its reply to any other.
unfoldable pub handle : Server → (Request → Option Handled) → Reply → Request → Reply
handle s mux not_found req = elim (mux req) [
  | none ↦ not_found
  | some (list_episodes lang) ↦ handle_list_episodes s lang
  | some (get_script episode_id lang) ↦ handle_get_script s episode_id lang
  | some (complete_episode episode_id) ↦ handle_complete_episode s episode_id
]

-- A doer that has every request handled.
unfoldable pub faked :
    {S D : Type 0} → (Reply → Response D) → Server → (Request → Option Handled) → Reply → Doer S D
faked respond s mux not_found req state = (ok (respond (handle s mux not_found req)), state)
