-- ===== src/Remote/Answers.antt =====
-- Calls of the client whose requests find their routes by their paths.
use overload_party_scenario.Common.{
  String, ◌==◌, ◌≡◌, refl, sym, ap, ◌∙◌, true, false, Option, some, List, ◌∷◌,
}
use overload_party_scenario.Errors.{ok, >>=-eq-ok}
use overload_party_scenario.Story
use overload_party_scenario.Onboarding
use overload_party_scenario.Rest.{Reply, resolve_error_status, status_internal_server_error}
use overload_party_scenario.Rest.OnboardingHandler.{resolve_onboarding_error_status}
use overload_party_scenario.Router.{Gin, Handlers, Route, Params, routes}
use overload_party_scenario.ApiClient.{Libraries, Request, Response, Unmarshal}
use overload_party_scenario.ApiClient.Requests.{
  operation_url, new_get_episode_script_request, new_complete_onboarding_request,
}
use overload_party_scenario.ApiClient.Requests.Paths.{parts_of, is_plain, is_plain_path, path-plain}
use overload_party_scenario.ApiClient.Wrapper.{
  Client, resolve_status_error, get_episode_script,
  complete_onboarding as client_complete_onboarding,
}
use overload_party_scenario.Remote.{served, NetworkLaws, remote}
use overload_party_scenario.Remote.Routing.{match_routes, RoutingLaws, Sends}
use overload_party_scenario.Remote.Story.{get_episode_script-remote}
use overload_party_scenario.Remote.Onboarding.{complete_onboarding-remote}
use overload_party_scenario.Remote.Making.{
  script_path, complete_onboarding_made, get_episode_script_made, with_lang_made, script_parts,
  script_route, completion_parts, completion_route, no_query,
}

module _ {S U D : Type 0} (lib : Libraries U) {unmarshal : Unmarshal D}
    (respond : Reply → Response D) (laws : NetworkLaws respond unmarshal) (gin : Gin Request)
    (recovered_status : gin.recovered.status ≡ status_internal_server_error) (h : Handlers S)
    (c : Client S D) (serves : c.api.client.client ≡ some (served respond gin h))
    (path_of : String → String) (routing : RoutingLaws lib gin c.api.client.server path_of)
    (player : String) (s : S) {sent : Request} where
  -- A request that is made for the URL `u` of an operation's path is served by the path's route.
  routed :
      (path method : String) {u url : U} {first : String} {rest : List String}
      {found : Option (Route × Params)}
      → is_plain_path path ≡ true
      → parts_of path ≡ "" ∷ (first ∷ rest)
      → (first == "") ≡ false
      → operation_url lib c.api.client.server path ≡ ok u
      → path_of (lib.url_text url) ≡ path_of (lib.url_text u)
      → sent.method ≡ method
      → sent.url ≡ lib.url_text url
      → match_routes routes method path ≡ found
      → gin.find_route routes sent ≡ found
  unfolding operation_url
  routed path method plain parts named located queried is_method is_url found =
      let (base, parsed, resolved) = >>=-eq-ok _ _ located in
      let (is_path, _) = routing.resolves path plain parts named parsed resolved in
      let at_path = ap path_of is_url ∙ (queried ∙ is_path) in
      routing.matches sent (rw at_path plain) ∙ rw (at_path, is_method) found

  -- Let the client send to the router over a network that keeps NetworkLaws, from a server for which
  -- RoutingLaws hold, let the router's recovery answer 500, and let the request that the client makes
  -- keep its method and URL under the editors and be authenticated as the player. Then a call for the
  -- end of the onboarding finds its route, and returns what the use case returns for the player, in
  -- the use case's state: a success as a document, an error as the client's error for its status, and
  -- a panic as the one for the status 500.
  pub complete_onboarding_answered :
      Sends c.api.client gin (new_complete_onboarding_request lib c.api.client.server) player s sent
      → client_complete_onboarding lib c unmarshal s
        ≡ remote
            (resolve_status_error lib.decimal "CompleteOnboarding")
            resolve_onboarding_error_status
            (λ _. record { message = "onboarding completed"; player_id = player })
            (Onboarding.complete h.onboarding_repo h.script_store h.name_validator h.player_reader
              h.selectable_factions h.fresh player s)
  complete_onboarding_answered sends =
      let (u, located, is_method, is_url) =
        complete_onboarding_made lib c.api.client.server sends.is_made in
      complete_onboarding-remote lib respond laws gin recovered_status h c serves player s (record {
        request = sends.request;
        is_made = sends.is_made;
        is_edited = sends.is_edited;
        is_routed =
            routed "/api/v1/scenarios/onboarding/complete" "POST" refl completion_parts refl located
              refl (sends.keeps_method ∙ is_method) (sends.keeps_url ∙ is_url) completion_route;
        is_internal = refl;
        is_player = sends.is_player;
      })

  -- Under the same conditions on the network, the routing, the recovery, the editors and the
  -- authentication (NetworkLaws, RoutingLaws, 500, Sends), and for an id of letters, digits, '-' and '_'
  -- that is not empty, a call for an episode's script in a language finds its route with that id and
  -- that language, and returns what the use case returns for the player, in the use case's state: a
  -- script as a document, an error as the client's error for its status, and a panic as the one for the
  -- status 500.
  pub get_episode_script_answered :
      (id lang : String)
      → is_plain id ≡ true
      → (id == "") ≡ false
      → Sends c.api.client gin
          (new_get_episode_script_request lib c.api.client.server id
            (some (record { lang = some lang })))
          player
          s
          sent
      → get_episode_script lib c unmarshal id lang s
        ≡ remote
            (resolve_status_error lib.decimal "GetEpisodeScript")
            resolve_error_status
            (λ text. record { episode_id = id; script = text })
            (Story.get_script h.story_repo h.script_store h.account player id lang s)
  get_episode_script_answered id lang plain named sends =
      let (styled, u, url, is_styled, located_styled, has_lang, is_method, is_url) =
        get_episode_script_made lib c.api.client.server id lang sends.is_made in
      let located =
        ap (λ name. operation_url lib c.api.client.server (script_path name))
          (sym (routing.styled "episodeId" id plain is_styled))
        ∙ located_styled in
      let is_plain_script = path-plain "/api/v1/scenarios/episodes/" id "/script" plain refl refl in
      let (fragment, is_fragment, is_url_of) =
        with_lang_made lib c.api.client.server lang u
          (no_query lib gin c.api.client.server path_of routing (script_path id) is_plain_script
            (script_parts id plain) refl located)
          has_lang in
      let same_path = ap (λ v. path_of (lib.url_text v)) is_url_of ∙ routing.queried u fragment in
      let sent_url = sends.keeps_url ∙ is_url in
      get_episode_script-remote lib respond laws gin recovered_status h c serves player s id lang
        (record {
          request = sends.request;
          is_made = sends.is_made;
          is_edited = sends.is_edited;
          is_routed =
              routed (script_path id) "GET" is_plain_script (script_parts id plain) refl located
                same_path (sends.keeps_method ∙ is_method) sent_url (script_route id plain named);
          is_internal = refl;
          is_player = sends.is_player;
        })
        (routing.reads_lang u lang sent is_fragment (sent_url ∙ ap lib.url_text is_url_of))
