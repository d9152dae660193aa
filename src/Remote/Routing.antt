-- ===== src/Remote/Routing.antt =====
-- How a request of the client finds the route that is registered for its operation: the path that it
-- is made with is matched with the patterns of the router.
use Prim.Native.String.{len, slice}
use package.text.Mathlib.Text.{starts_with}
use overload_party_scenario.Common.{
  String, ◌==◌, ◌≡◌, true, false, Option, none, some, List, [], ◌∷◌, if◌then◌else◌, inr,
}
use overload_party_scenario.Errors.{Result, ok}
use overload_party_scenario.Router.{Gin, Route, Params, routes}
use overload_party_scenario.ApiClient.{Libraries, Request}
use overload_party_scenario.ApiClient.Generated.{Client, apply_editors}
use overload_party_scenario.ApiClient.Requests.{relative}
use overload_party_scenario.ApiClient.Requests.Paths.{parts_of, is_plain, is_plain_path}

-- The parameters of a pattern's parts that a path's parts match. A part that starts with a colon
-- takes one that is not empty.
abbrev take_param : String → String → Option Params → Option Params
take_param name value none = none
take_param name value (some params) =
    if value == "" then none else some ((slice name 1 (len name), value) ∷ params)

abbrev pub match_parts : List String → List String → Option Params
match_parts [] [] = some []
match_parts [] (value ∷ values) = none
match_parts (part ∷ parts) [] = none
match_parts (part ∷ parts) (value ∷ values) =
    let rest = match_parts parts values in
    if starts_with part ":"
    then take_param part value rest
    else if part == value
    then rest
    else none

abbrev or_later : Route → Option (Route × Params) → Option Params → Option (Route × Params)
or_later route later none = later
or_later route later (some params) = some (route, params)

-- The route of a method and a path, among routes of which no two match one path.
abbrev pub match_routes : List Route → String → String → Option (Route × Params)
match_routes [] method path = none
match_routes (route ∷ rest) method path =
    let later = match_routes rest method path in
    or_later route later (
      if route.method == method then match_parts (parts_of route.pattern) (parts_of path) else none)

-- What gin, net/url and the runtime of oapi-codegen do for plain paths, where `path_of` is the path that
-- the server reads of a request's URL, and where the client's server is the root of a host, without
-- a query: a request goes to the route that its method and path match; a path that is resolved
-- against the server is the URL's; a query changes no path; a plain parameter needs no escape; and
-- the language is read as it was styled.
pub record RoutingLaws {U : Type 0} (lib : Libraries U) (gin : Gin Request) (server : String)
    (path_of : String → String) : Type 0 where
  pub matches :
      (req : Request)
      → is_plain_path (path_of req.url) ≡ true
      → gin.find_route routes req ≡ match_routes routes req.method (path_of req.url)
  pub resolves :
      {base u : U} (path : String) {first : String} {rest : List String}
      → is_plain_path path ≡ true
      → parts_of path ≡ "" ∷ (first ∷ rest)
      → (first == "") ≡ false
      → lib.parse_url server ≡ ok base
      → lib.resolve base (relative path) ≡ ok u
      → (path_of (lib.url_text u) ≡ path) × (lib.encoded_query u ≡ "")
  pub queried :
      (u : U) (query : String)
      → path_of (lib.url_text (lib.with_raw_query u query)) ≡ path_of (lib.url_text u)
  pub styled :
      (name value : String) {styled : String}
      → is_plain value ≡ true
      → lib.style_path_param name value ≡ ok styled
      → styled ≡ value
  pub reads_lang :
      (u : U) (lang : String) {fragment : String} (req : Request)
      → lib.style_query_param "lang" lang ≡ ok fragment
      → req.url ≡ lib.url_text (lib.with_raw_query u fragment)
      → gin.query req "lang" ≡ some lang

-- A request that the client makes, and that its editors send as `sent`, with its method and URL, and
-- which is authenticated as `player`.
pub record Sends {S D : Type 0} (c : Client S D) (gin : Gin Request) (made : Result Request)
    (player : String) (s : S) (sent : Request) : Type 0 where
  pub request : Request
  pub is_made : made ≡ ok request
  pub is_edited : apply_editors c request [] s ≡ (ok sent, s)
  pub keeps_method : sent.method ≡ request.method
  pub keeps_url : sent.url ≡ request.url
  pub is_player : gin.verify_internal_auth sent ≡ inr player
