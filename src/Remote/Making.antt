-- ===== src/Remote/Making.antt =====
-- What the requests of the client are made of, and the routes that their paths match.
use Prim.Native.String
use Prim.Native.String.append
use overload_party_scenario.Common.{
  String, ◌==◌, ◌≡◌, refl, sym, ap, ◌∙◌, true, false, none, some, List, [], ◌∷◌,
}
use overload_party_scenario.Errors.{ok, >>=-eq-ok, ok-injective}
use overload_party_scenario.Router.{Gin, routes, api_route, get_script, complete_onboarding}
use overload_party_scenario.ApiClient.{Libraries, Request}
use overload_party_scenario.ApiClient.Requests.{
  new_request, operation_url, with_lang, query_fragments, new_get_episode_script_request,
  new_complete_onboarding_request,
}
use overload_party_scenario.ApiClient.Requests.Query.{with_lang-eq}
use overload_party_scenario.ApiClient.Requests.Paths.{parts_of, is_plain, is_plain_path, path-parts}
use overload_party_scenario.Remote.Routing.{match_routes, RoutingLaws}

append_empty : (s : String) → String.◌++◌ s "" ≡ s
append_empty String.[] = append.nil ""
append_empty (String.◌∷◌ c s) = append.cons c s "" ∙ ap (String.◌∷◌ c) (append_empty s)

abbrev pub script_path : String → String
script_path id = String.◌++◌ "/api/v1/scenarios/episodes/" (String.◌++◌ id "/script")

module _ {U : Type 0} (lib : Libraries U) (server : String) where
  new_request-eq-ok :
      (method : String) (url : U) {request : Request}
      → new_request lib method url none ≡ ok request
      → (request.method ≡ method) × (request.url ≡ lib.url_text url)
  new_request-eq-ok method url {request} h =
      let made : Request = record {
        method = method;
        url = lib.url_text url;
        header = [];
        body = none;
      } in
      let (_, accepted, made_is) =
        >>=-eq-ok (lib.new_request method (lib.url_text url)) (λ _. ok made) h in
      let is_made : request ≡ made = sym (ok-injective made_is) in
      (ap (λ (q : Request). q.method) is_made, ap (λ (q : Request). q.url) is_made)

  -- What a request for the end of the onboarding is made of.
  pub complete_onboarding_made :
      {request : Request}
      → new_complete_onboarding_request lib server ≡ ok request
      → (u : U) × (operation_url lib server "/api/v1/scenarios/onboarding/complete" ≡ ok u)
        × (request.method ≡ "POST")
        × (request.url ≡ lib.url_text u)
  unfolding new_complete_onboarding_request
  complete_onboarding_made h =
      let (u, located, r1) = >>=-eq-ok _ _ h in
      let (is_method, is_url) = new_request-eq-ok "POST" u r1 in (u, located, is_method, is_url)

  -- What a request for an episode's script in a language is made of.
  pub get_episode_script_made :
      (id lang : String) {request : Request}
      → new_get_episode_script_request lib server id (some (record { lang = some lang }))
        ≡ ok request
      → (styled : String) × (u : U) × (url : U) × (lib.style_path_param "episodeId" id ≡ ok styled)
        × (operation_url lib server (script_path styled) ≡ ok u)
        × (with_lang lib (some (some lang)) u ≡ ok url)
        × (request.method ≡ "GET")
        × (request.url ≡ lib.url_text url)
  unfolding new_get_episode_script_request
  get_episode_script_made id lang h =
      let (styled, is_styled, r1) = >>=-eq-ok _ _ h in
      let (u, located, r2) = >>=-eq-ok _ _ r1 in
      let (url, queried, r3) = >>=-eq-ok _ _ r2 in
      let (is_method, is_url) = new_request-eq-ok "GET" url r3 in
      (styled, u, url, is_styled, located, queried, is_method, is_url)

  -- The query of an operation whose URL has none is the styled language.
  pub with_lang_made :
      (lang : String) (u : U) {url : U}
      → lib.encoded_query u ≡ ""
      → with_lang lib (some (some lang)) u ≡ ok url
      → (fragment : String) × (lib.style_query_param "lang" lang ≡ ok fragment)
        × (url ≡ lib.with_raw_query u fragment)
  unfolding with_lang query_fragments
  with_lang_made lang u none_before h =
      let (fragments, are, _) = >>=-eq-ok _ _ h in
      let (fragment, is_styled, _) = >>=-eq-ok _ _ are in
      (
        fragment,
        is_styled,
        ok-injective (sym h ∙ (with_lang-eq lib u lang is_styled ∙ rw none_before refl)),
      )

-- The parts of the path of a script.
pub script_parts :
    (id : String)
    → is_plain id ≡ true
    → parts_of (String.◌++◌ "/api/v1/scenarios/episodes/" (String.◌++◌ id "/script"))
      ≡ "" ∷ "api" ∷ "v1" ∷ "scenarios" ∷ "episodes" ∷ id ∷ "script" ∷ []
script_parts id plain =
    path-parts "/api/v1/scenarios/episodes/" id "/script" plain
    ∙ ap (λ part. "" ∷ "api" ∷ "v1" ∷ "scenarios" ∷ "episodes" ∷ part ∷ "script" ∷ [])
        (append.nil (String.◌++◌ id "") ∙ append_empty id)

-- The router has one route for the method and the path of a script.
pub script_route :
    (id : String)
    → is_plain id ≡ true
    → (id == "") ≡ false
    → match_routes routes "GET"
        (String.◌++◌ "/api/v1/scenarios/episodes/" (String.◌++◌ id "/script"))
      ≡ some (
        api_route "GET" "/api/v1/scenarios/episodes/:episodeId/script" get_script,
        ("episodeId", id) ∷ [],
      )
script_route id plain named = rw (script_parts id plain, named) refl

pub completion_parts :
    parts_of "/api/v1/scenarios/onboarding/complete"
    ≡ "" ∷ ("api" ∷ "v1" ∷ "scenarios" ∷ "onboarding" ∷ "complete" ∷ [])
completion_parts = refl

pub completion_route :
    match_routes routes "POST" "/api/v1/scenarios/onboarding/complete"
    ≡ some (api_route "POST" "/api/v1/scenarios/onboarding/complete" complete_onboarding, [])
completion_route = refl

module _ {U : Type 0} (lib : Libraries U) (gin : Gin Request) (server : String)
    (path_of : String → String) (routing : RoutingLaws lib gin server path_of) where
  pub no_query :
      (path : String) {u : U} {first : String} {rest : List String}
      → is_plain_path path ≡ true
      → parts_of path ≡ "" ∷ (first ∷ rest)
      → (first == "") ≡ false
      → operation_url lib server path ≡ ok u
      → lib.encoded_query u ≡ ""
  unfolding operation_url
  no_query path plain parts named located =
      let (base, parsed, resolved) = >>=-eq-ok _ _ located in
      (routing.resolves path plain parts named parsed resolved).1
