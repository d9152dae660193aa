-- ===== src/Remote/Story.antt =====
-- The story operations of the client, against the use case.
use overload_party_scenario.Common.{String, ◌≡◌, refl, some, [], ◌∷◌}
use overload_party_scenario.Story
use overload_party_scenario.Rest.{Reply, resolve_error_status, status_internal_server_error}
use overload_party_scenario.Rest.StoryHandler
use overload_party_scenario.Rest.Statuses.{resolve_error_status-refused}
use overload_party_scenario.Router.{
  Gin, Handlers, api_route, list_episodes, get_script, complete_episode, handler,
}
use overload_party_scenario.ApiClient.{Libraries, Request, Response, Unmarshal}
use overload_party_scenario.ApiClient.Requests.{
  new_list_episodes_request, new_get_episode_script_request, new_complete_episode_request,
}
use overload_party_scenario.ApiClient.Wrapper.{
  Client, resolve_status_error, list_episodes as client_list_episodes, get_episode_script,
  complete_episode as client_complete_episode,
}
use overload_party_scenario.Remote.{served, Arrives, NetworkLaws, remote}
use overload_party_scenario.Remote.Exchange.{remote-document}

module _ {S U D : Type 0} (lib : Libraries U) {unmarshal : Unmarshal D}
    (respond : Reply → Response D) (laws : NetworkLaws respond unmarshal) (gin : Gin Request)
    (recovered_status : gin.recovered.status ≡ status_internal_server_error) (h : Handlers S)
    (c : Client S D) (serves : c.api.client.client ≡ some (served respond gin h)) (player : String)
    (s : S) {sent : Request} where
  -- A script that is asked for through the client and the router is what the use case returns to the
  -- player, and the state is the use case's: an error is the client's error for its status.
  pub get_episode_script-remote :
      (id lang : String)
      → Arrives c.api.client gin
          (new_get_episode_script_request lib c.api.client.server id
            (some (record { lang = some lang })))
          (api_route "GET" "/api/v1/scenarios/episodes/:episodeId/script" get_script)
          (("episodeId", id) ∷ [])
          player
          s
          sent
      → gin.query sent "lang" ≡ some lang
      → get_episode_script lib c unmarshal id lang s
        ≡ remote
            (resolve_status_error lib.decimal "GetEpisodeScript")
            resolve_error_status
            (λ text. record { episode_id = id; script = text })
            (Story.get_script h.story_repo h.script_store h.account player id lang s)
  unfolding get_episode_script handler StoryHandler.get_script
  get_episode_script-remote id lang arrives has_lang =
      remote-document lib respond laws gin recovered_status h c.api.client serves arrives
        "apiscenarioclient: GetEpisodeScript" "GetEpisodeScript" (StoryHandler.script_reply id)
        (StoryHandler.respond_error h.render (StoryHandler.log_get_script_error h.render))
        resolve_error_status
        (Story.get_script h.story_repo h.script_store h.account player id lang s)
        (rw (handler, StoryHandler.get_script, has_lang) refl) unmarshal.scenario_script _
        (λ text. (refl, laws.carries_script _ refl)) (λ e. (refl, resolve_error_status-refused e))

  -- The list that the client returns, in the language asked for, is the use case's for the player, and
  -- so is the state: an error is the client's error for its status.
  pub list_episodes-remote :
      (lang : String)
      → Arrives c.api.client gin
          (new_list_episodes_request lib c.api.client.server (some (record { lang = some lang })))
          (api_route "GET" "/api/v1/scenarios/episodes" list_episodes)
          []
          player
          s
          sent
      → gin.query sent "lang" ≡ some lang
      → client_list_episodes lib c unmarshal lang s
        ≡ remote
            (resolve_status_error lib.decimal "ListEpisodes")
            resolve_error_status
            (λ episodes. record { episodes = episodes })
            (Story.list_episodes h.story_repo h.script_store h.account player lang s)
  unfolding client_list_episodes handler StoryHandler.list_episodes
  list_episodes-remote lang arrives has_lang =
      remote-document lib respond laws gin recovered_status h c.api.client serves arrives
        "apiscenarioclient: ListEpisodes" "ListEpisodes" StoryHandler.episodes_reply
        (StoryHandler.respond_error h.render (StoryHandler.log_list_episodes_error h.render))
        resolve_error_status
        (Story.list_episodes h.story_repo h.script_store h.account player lang s)
        (rw (handler, StoryHandler.list_episodes, has_lang) refl) unmarshal.episodes_list _
        (λ episodes. (refl, laws.carries_episodes _ refl))
        (λ e. (refl, resolve_error_status-refused e))

  -- A completion that the client asks for has the effect of the use case's, and is reported with the
  -- episode's identifier: an error is the client's error for its status.
  pub complete_episode-remote :
      (id : String)
      → Arrives c.api.client gin
          (new_complete_episode_request lib c.api.client.server id)
          (api_route "POST" "/api/v1/scenarios/episodes/:episodeId/complete" complete_episode)
          (("episodeId", id) ∷ [])
          player
          s
          sent
      → client_complete_episode lib c unmarshal id s
        ≡ remote
            (resolve_status_error lib.decimal "CompleteEpisode")
            resolve_error_status
            (λ _. record { episode_id = id; message = "episode completed" })
            (Story.complete_episode h.story_repo h.script_store h.account player id s)
  unfolding client_complete_episode handler StoryHandler.complete_episode
  complete_episode-remote id arrives =
      remote-document lib respond laws gin recovered_status h c.api.client serves arrives
        "apiscenarioclient: CompleteEpisode" "CompleteEpisode" (StoryHandler.completion_reply id)
        (StoryHandler.respond_error h.render (StoryHandler.log_complete_episode_error h.render))
        resolve_error_status
        (Story.complete_episode h.story_repo h.script_store h.account player id s) refl
        unmarshal.scenario_complete _ (λ done. (refl, laws.carries_completion _ refl))
        (λ e. (refl, resolve_error_status-refused e))
