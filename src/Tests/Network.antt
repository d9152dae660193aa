-- ===== src/Tests/Network.antt =====
-- A network that keeps what it carries, and a client of the router over it.
use Prim.Native.String
use Prim.Native.Char.{code}
use Prim.Native.String.append
use package.text.Mathlib.Text.{starts_with}
use overload_party_scenario.Common.{
  ℕ, zero, suc, String, ◌==◌, ◌≡◌, eq_iff, refl, sym, ap, ◌∙◌, true, false, Bool, not, ◌&&◌,
  Bool-cases, none, some, [], ◌∷◌, inl, inr, eqb, if◌then◌else◌, arith,
}
use overload_party_scenario.Errors.{Result, ok, err, opaque, ok-injective}
use overload_party_scenario.Postgres.Tables.{Db}
use overload_party_scenario.Postgres.StoryRepository.{story_repository}
use overload_party_scenario.Postgres.OnboardingRepository.{onboarding_repository}
use overload_party_scenario.Rest.{
  Reply, Body, empty, episodes_list, scenario_script, scenario_complete, onboarding_script,
  onboarding_complete, health,
}
use overload_party_scenario.Router.{Gin, Handlers}
use overload_party_scenario.ApiClient.{Libraries, Request, Response, Unmarshal}
use overload_party_scenario.ApiClient.Wrapper.{Client}
use overload_party_scenario.ApiClient.Requests.{relative}
use overload_party_scenario.ApiClient.Requests.Paths.{is_plain_path}
use overload_party_scenario.Remote.{NetworkLaws, served}
use overload_party_scenario.Remote.Routing.{match_routes, RoutingLaws}
use overload_party_scenario.Tests.{
  healthy, script_store, account, name_validator, player_reader, fresh,
}

-- URLs as texts, whose path is what stands behind the host, up to the query.
abbrev cut : String → String
cut String.[] = ""
cut (String.◌∷◌ c s) = let rest = cut s in if eqb (code c) 63 then "" else String.◌∷◌ c rest

abbrev drop : ℕ → String → String
drop zero s = s
drop (suc n) String.[] = ""
drop (suc n) (String.◌∷◌ c s) = drop n s

abbrev pub path_of : String → String
path_of url = drop 15 (cut url)

-- A relative path without its leading dot.
abbrev rooted : String → String
rooted String.[] = ""
rooted (String.◌∷◌ c s) = if eqb (code c) 46 then s else String.◌∷◌ c s

abbrev style_query_param : String → String → Result String
style_query_param name value =
    if value == "en"
    then ok (String.◌++◌ name (String.◌++◌ "=" value))
    else err (opaque "another language")

-- Paths that need no escape, and the language of the test.
abbrev pub lib : Libraries String
lib = record {
  parse_url = λ url. ok url;
  resolve = λ base path. ok (String.◌++◌ "http://scenario" (rooted path));
  encoded_query = λ url. "";
  with_raw_query = λ url query. String.◌++◌ url (String.◌∷◌ "?" query);
  url_text = λ url. url;
  style_path_param = λ name value. ok value;
  style_query_param = style_query_param;
  new_request = λ method url. ok tt;
  decimal = λ n. "a number";
}

abbrev pub other_document : {A : Type 0} → Result A
other_document = err (opaque "json: another document")

-- Documents that keep what they encode.
abbrev pub unmarshal : Unmarshal Body
unmarshal = record {
  episodes_list = λ b. elim b [
    | episodes_list episodes ↦ ok (record { episodes = episodes })
    | _ ↦ other_document
  ];
  scenario_script = λ b. elim b [
    | scenario_script id text ↦ ok (record { episode_id = id; script = text })
    | _ ↦ other_document
  ];
  scenario_complete = λ b. elim b [
    | scenario_complete message id ↦ ok (record { episode_id = id; message = message })
    | _ ↦ other_document
  ];
  onboarding_script =
      λ b. elim b [ onboarding_script text ↦ ok (record { script = text }) | _ ↦ other_document ];
  onboarding_complete = λ b. elim b [
    | onboarding_complete message player ↦ ok (record { message = message; player_id = player })
    | _ ↦ other_document
  ];
  health = λ b. elim b [ health status ↦ ok (record { status = status }) | _ ↦ other_document ];
}

abbrev pub respond : Reply → Response Body
respond reply = record {
  status_code = reply.status;
  content_type = "application/json; charset=utf-8";
  body = ok reply.body;
}

pub network_laws : NetworkLaws respond unmarshal
network_laws = record {
  status_arrives = λ reply. refl;
  body_arrives = λ reply. (reply.body, refl);
  carries_episodes = λ reply e. (reply.body, refl, refl, rw e refl);
  carries_script = λ reply e. (reply.body, refl, refl, rw e refl);
  carries_completion = λ reply e. (reply.body, refl, refl, rw e refl);
  carries_onboarding_script = λ reply e. (reply.body, refl, refl, rw e refl);
  carries_onboarding_completion = λ reply e. (reply.body, refl, refl, rw e refl);
}

abbrev pub reply_of : ℕ → Reply
reply_of status = record { status = status; body = empty; log = none }

-- Requests go to the route of their method and path, and every request is the player's.
abbrev pub gin : Gin Request
gin = record {
  find_route = λ registered req. match_routes registered req.method (path_of req.url);
  query = λ req name. some "en";
  bind_name = λ req. ok "Alice";
  bind_faction = λ req. ok "red";
  verify_internal_auth = λ req. inr "p1";
  no_route = reply_of 404;
  recovered = reply_of 500;
}

cut-append : (s query : String) → cut (String.◌++◌ s (String.◌∷◌ "?" query)) ≡ cut s
cut-append String.[] query = ap cut (append.nil (String.◌∷◌ "?" query))
cut-append (String.◌∷◌ c s) query =
    ap cut (append.cons c s (String.◌∷◌ "?" query))
    ∙ ap (λ rest. if eqb (code c) 63 then "" else String.◌∷◌ c rest) (cut-append s query)

cut-plain : (s : String) → is_plain_path s ≡ true → cut s ≡ s
cut-plain String.[] h = refl
cut-plain (String.◌∷◌ c s) h =
    let rest = cut-plain s (ground arith) in
    let other : eqb (code c) 63 ≡ false = ground arith in rw (other, rest) refl

rooted-relative : (path : String) → is_plain_path path ≡ true → rooted (relative path) ≡ path
rooted-relative path h = elim (Bool-cases (starts_with path "/")) [
  | inl e ↦ rw e (ap rooted (append.cons "." "" path) ∙ append.nil path)
  | inr e ↦ rw e (kept path h)
]
  where
    kept : (p : String) → is_plain_path p ≡ true → rooted p ≡ p
    kept String.[] k = refl
    kept (String.◌∷◌ c s) k = let other : eqb (code c) 46 ≡ false = ground arith in rw other refl

abbrev has_no_query : String → Bool
has_no_query String.[] = true
has_no_query (String.◌∷◌ c s) = not (eqb (code c) 63) && has_no_query s

cut-behind : (s t : String) → has_no_query s ≡ true → cut (String.◌++◌ s t) ≡ String.◌++◌ s (cut t)
cut-behind String.[] t h = ap cut (append.nil t) ∙ sym (append.nil (cut t))
cut-behind (String.◌∷◌ c s) t h =
    let rest = cut-behind s t (ground arith) in
    let other : eqb (code c) 63 ≡ false = ground arith in
    ap cut (append.cons c s t) ∙ (rw (other, rest) refl ∙ sym (append.cons c s (cut t)))

abbrev size : String → ℕ
size String.[] = 0
size (String.◌∷◌ c s) = suc (size s)

drop-size : (s t : String) → drop (size s) (String.◌++◌ s t) ≡ t
drop-size String.[] t = append.nil t
drop-size (String.◌∷◌ c s) t = ap (drop (suc (size s))) (append.cons c s t) ∙ drop-size s t

path_of-host :
    (path : String)
    → is_plain_path path ≡ true
    → path_of (String.◌++◌ "http://scenario" path) ≡ path
path_of-host path h =
    ap (drop 15) (cut-behind "http://scenario" path refl)
    ∙ (ap (λ p. drop 15 (String.◌++◌ "http://scenario" p)) (cut-plain path h)
        ∙ drop-size "http://scenario" path)

pub routing_laws : RoutingLaws lib gin "http://scenario/" path_of
routing_laws = record {
  matches = λ req plain. refl;
  resolves = λ path plain parts named parsed resolved. (
    ap path_of (sym (ok-injective resolved))
        ∙ (ap (λ p. path_of (String.◌++◌ "http://scenario" p)) (rooted-relative path plain)
            ∙ path_of-host path plain),
    refl,
  );
  queried = λ u query. ap (drop 15) (cut-append u query);
  styled = λ name value plain e. sym (ok-injective e);
  reads_lang = λ u lang req e url. ap some (sym ((eq_iff lang "en").0 ground arith));
}

abbrev pub handlers : Handlers Db
handlers = record {
  render = λ e. "error";
  story_repo = story_repository healthy;
  script_store = script_store;
  account = account;
  onboarding_repo = onboarding_repository healthy;
  name_validator = name_validator;
  player_reader = player_reader;
  selectable_factions = "red" ∷ [];
  fresh = fresh;
}

abbrev pub api_client : Client Db Body
api_client = record {
  api = record {
    client = record {
      server = "http://scenario/";
      client = some (served respond gin handlers);
      request_editors = [];
    };
  };
}
