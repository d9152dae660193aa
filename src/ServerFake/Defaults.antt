-- ===== src/ServerFake/Defaults.antt =====
-- The fake server without callbacks, as a client of the API meets it.
use overload_party_scenario.Common.{String, ◌≡◌, refl, false, Option, some, []}
use overload_party_scenario.Errors.{Result, ok, err, is, client, ClientError}
use overload_party_scenario.Rest.{Reply, status_no_content}
use overload_party_scenario.ApiClient.{Libraries, Request, Response, Unmarshal}
use overload_party_scenario.ApiClient.Requests.{
  new_get_episode_script_request, new_complete_episode_request,
}
use overload_party_scenario.ApiClient.Generated
use overload_party_scenario.ApiClient.Generated.{apply_editors, send}
use overload_party_scenario.ApiClient.Wrapper.{
  Client, resolve_status_error, get_episode_script, complete_episode as client_complete_episode,
}
use overload_party_scenario.Remote.{NetworkLaws}
use overload_party_scenario.Remote.Exchange.{answered_call, refused_call}
use overload_party_scenario.ServerFake.{
  Handled, get_script, complete_episode, new_server, handle, faked, handle_get_script,
  handle_complete_episode,
}

-- A request that the client makes leaves its editors as one that the mux takes to `handled`.
pub record Reaches {S D : Type 0} (c : Generated.Client S D) (mux : Request → Option Handled)
    (made : Result Request) (handled : Handled) (s : S) : Type 0 where
  pub request : Request
  pub sent : Request
  pub is_made : made ≡ ok request
  pub is_edited : apply_editors c request [] s ≡ (ok sent, s)
  pub is_routed : mux sent ≡ some handled

module _ {S U D : Type 0} (lib : Libraries U) {unmarshal : Unmarshal D}
    (respond : Reply → Response D) (laws : NetworkLaws respond unmarshal)
    (mux : Request → Option Handled) (not_found : Reply) (c : Client S D)
    (serves : c.api.client.client ≡ some (faked respond new_server mux not_found)) (s : S) where
  send-Reaches :
      {made : Result Request} {handled : Handled} (reply : Reply)
      (r : Reaches c.api.client mux made handled s)
      → handle new_server mux not_found r.sent ≡ reply
      → send c.api.client made [] s ≡ (ok (respond reply), s)
  unfolding send faked
  send-Reaches reply r e = rw (r.is_made, r.is_edited, serves, faked, e) refl

  -- The fake server without callbacks answers a completion 204: the client returns an error that
  -- is none of its sentinels.
  pub default_completion_unexpected :
      (id : String)
      → Reaches c.api.client mux
          (new_complete_episode_request lib c.api.client.server id)
          (complete_episode id)
          s
      → (client_complete_episode lib c unmarshal id s
          ≡ (err (resolve_status_error lib.decimal "CompleteEpisode" status_no_content), s))
        × ((e : ClientError)
            → is (resolve_status_error lib.decimal "CompleteEpisode" status_no_content) (client e)
              ≡ false)
  unfolding client_complete_episode handle handle_complete_episode resolve_status_error
  default_completion_unexpected id r = (
    refused_call lib "apiscenarioclient: CompleteEpisode" "CompleteEpisode" respond laws
        (send c.api.client (new_complete_episode_request lib c.api.client.server id) [])
        unmarshal.scenario_complete (handle_complete_episode new_server id)
        (send-Reaches _ r (rw (handle, r.is_routed) refl)) refl,
    λ e. refl,
  )

  -- It answers a script's request with the identifier and an empty text, which the client returns.
  pub default_script :
      (id lang : String)
      → Reaches c.api.client mux
          (new_get_episode_script_request lib c.api.client.server id
            (some (record { lang = some lang })))
          (get_script id lang)
          s
      → get_episode_script lib c unmarshal id lang s
        ≡ (ok (record { episode_id = id; script = "" }), s)
  unfolding get_episode_script handle handle_get_script
  default_script id lang r =
      answered_call lib "apiscenarioclient: GetEpisodeScript" "GetEpisodeScript" respond laws
        (send c.api.client
          (new_get_episode_script_request lib c.api.client.server id
            (some (record { lang = some lang })))
          [])
        unmarshal.scenario_script (handle_get_script new_server id lang)
        (send-Reaches _ r (rw (handle, r.is_routed) refl)) refl (laws.carries_script _ refl)
