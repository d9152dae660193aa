-- ===== src/Remote/Exchange.antt =====
-- One call of the client, from the request to its result.
use overload_party_scenario.Common.{
  ℕ, String, ◌≡◌, refl, ◌∙◌, true, false, none, some, [], eqb, inl, inr, Bool-cases, if◌then◌else◌,
}
use overload_party_scenario.Errors.{Error, Result, ok, err, panic, wrap}
use overload_party_scenario.Errors.Action.{Action, lift, on_error, ◌>>=◌}
use overload_party_scenario.Rest.{
  Reply, answer, status_ok, status_internal_server_error, status_no_content,
}
use overload_party_scenario.Router.{Gin, Handlers, Route, Params, recover, handler, guarded, serve}
use overload_party_scenario.ApiClient.{Libraries, Request, Response, Unmarshal}
use overload_party_scenario.ApiClient.Responses.{Parsed, parse, mentions_json, parse_plain}
use overload_party_scenario.ApiClient.Generated.{Client, send}
use overload_party_scenario.ApiClient.Wrapper.{document, no_content, resolve_status_error}
use overload_party_scenario.Remote.{served, deliver, Carries, NetworkLaws, Arrives, remote}

-- A request that arrives is served by its route's handler.
module _ {S D : Type 0} (respond : Reply → Response D) (gin : Gin Request) (h : Handlers S)
    (c : Client S D) (serves : c.client ≡ some (served respond gin h)) where
  send-Arrives :
      {made : Result Request} {route : Route} {params : Params} {player : String} {s : S}
      {sent : Request}
      → Arrives c gin made route params player s sent
      → send c made [] s
        ≡ deliver respond
            (recover gin.recovered (handler gin h route.endpoint sent params player s))
  unfolding send served serve guarded
  send-Arrives a =
      rw
        (
          a.is_made, a.is_edited, serves, served, serve, a.is_routed, guarded, a.is_internal,
          a.is_player,
        )
        refl

module _ {S D P B : Type 0} (text : String) (m : Action S (Response D))
    (read : Response D → Result P) (use_parsed : P → Result B) where
  -- The steps of a method of the wrapper.
  abbrev pub call : Action S B
  call = do
    resp ← on_error (wrap text) do rsp ← m; lift (read rsp)
    lift (use_parsed resp)

  call-ok :
      {rsp : Response D} {parsed : P} {s s' : S}
      → m s ≡ (ok rsp, s')
      → read rsp ≡ ok parsed
      → call s ≡ (use_parsed parsed, s')
  call-ok e r = rw (e, r) refl

module _ {U D A : Type 0} (lib : Libraries U) (op : String) (decode : D → Result A)
    (rsp : Response D) where
  parse-document :
      {value : A} {bytes : D}
      → rsp.status_code ≡ status_ok
      → rsp.body ≡ ok bytes
      → mentions_json rsp.content_type ≡ true
      → decode bytes ≡ ok value
      → (parsed : Parsed D A) × (parse decode rsp ≡ ok parsed) × (document lib op parsed ≡ ok value)
  unfolding parse document
  parse-document {value} {bytes} status body json decoded = (
    record { body = bytes; http_response = some rsp; json200 = some value },
    rw (parse, body, json, status, decoded) refl,
    refl,
  )

  parse-refused :
      {bytes : D}
      → eqb rsp.status_code status_ok ≡ false
      → rsp.body ≡ ok bytes
      → (parsed : Parsed D A) × (parse decode rsp ≡ ok parsed)
        × (document lib op parsed ≡ err (resolve_status_error lib.decimal op rsp.status_code))
  unfolding parse document
  parse-refused {bytes} status body = (
    record { body = bytes; http_response = some rsp; json200 = none },
    elim (Bool-cases (mentions_json rsp.content_type)) [
      | inl json ↦ rw (parse, body, json, status) refl
      | inr plain ↦ rw (parse, body, plain) refl
    ],
    refl,
  )

abbrev pub answered :
    {S A : Type 0} → (A → Reply) → (Error → Reply) → Result A × S → Result Reply × S
answered f g (r, s) = (answer f g r, s)

module _ {S U D B : Type 0} (lib : Libraries U) (text op : String) {unmarshal : Unmarshal D}
    (respond : Reply → Response D) (laws : NetworkLaws respond unmarshal)
    (m : Action S (Response D)) (decode : D → Result B) where
  pub refused_call :
      (reply : Reply) {s s' : S}
      → m s ≡ (ok (respond reply), s')
      → eqb reply.status status_ok ≡ false
      → call text m (parse decode) (document lib op) s
        ≡ (err (resolve_status_error lib.decimal op reply.status), s')
  refused_call reply {s} {s'} e status =
      let (bytes, body) = laws.body_arrives reply in
      let arrives = laws.status_arrives reply in
      let (parsed, is_parsed, refused) =
        parse-refused lib op decode (respond reply) (rw arrives status) body in
      call-ok text m (parse decode) (document lib op) e is_parsed ∙ rw (refused, arrives) refl

  pub answered_call :
      (reply : Reply) {value : B} {s s' : S}
      → m s ≡ (ok (respond reply), s')
      → reply.status ≡ status_ok
      → Carries respond decode reply value
      → call text m (parse decode) (document lib op) s ≡ (ok value, s')
  answered_call reply e status (bytes, body, json, decoded) =
      let (parsed, is_parsed, is_value) =
        parse-document lib op decode (respond reply) (laws.status_arrives reply ∙ status) body json
          decoded in
      call-ok text m (parse decode) (document lib op) e is_parsed ∙ rw is_value refl

module _ {S U D A B : Type 0} (lib : Libraries U) (text op : String) {unmarshal : Unmarshal D}
    (respond : Reply → Response D) (laws : NetworkLaws respond unmarshal) (recovered : Reply)
    (recovered_status : recovered.status ≡ status_internal_server_error) (m : Action S (Response D))
    (decode : D → Result B) (f : A → Reply) (g : Error → Reply) (k : A → B)
    (status_of : Error → ℕ) where
  -- A call of an operation with a document, whose request is answered from an outcome.
  exchange_document :
      (outcome : Result A × S) {s : S}
      → m s ≡ deliver respond (recover recovered (answered f g outcome))
      → ((a : A) → ((f a).status ≡ status_ok) × Carries respond decode (f a) (k a))
      → ((e : Error) → ((g e).status ≡ status_of e) × (eqb (status_of e) status_ok ≡ false))
      → call text m (parse decode) (document lib op) s
        ≡ remote (resolve_status_error lib.decimal op) status_of k outcome
  exchange_document (ok a, s') e good bad =
      let (status, carries) = good a in
      answered_call lib text op respond laws m decode (f a) e status carries
  exchange_document (err x, s') e good bad =
      let (status, refused) = bad x in
      refused_call lib text op respond laws m decode (g x) e (rw status refused) ∙ rw status refl
  exchange_document (panic p, s') e good bad =
      refused_call lib text op respond laws m decode recovered e (rw recovered_status refl)
      ∙ rw recovered_status refl

module _ {S U D A : Type 0} (lib : Libraries U) (text op : String) {unmarshal : Unmarshal D}
    (respond : Reply → Response D) (laws : NetworkLaws respond unmarshal) (recovered : Reply)
    (recovered_status : recovered.status ≡ status_internal_server_error) (m : Action S (Response D))
    (f : A → Reply) (g : Error → Reply) (status_of : Error → ℕ) where
  plain_call :
      (reply : Reply) {s s' : S}
      → m s ≡ (ok (respond reply), s')
      → call text m parse_plain (no_content lib op) s ≡ (
        if eqb reply.status status_no_content
            then ok tt
            else err (resolve_status_error lib.decimal op reply.status),
        s',
      )
  unfolding parse_plain no_content
  plain_call reply {s} {s'} e =
      let (bytes, body) = laws.body_arrives reply in
      call-ok text m parse_plain (no_content lib op)
        {parsed = record { body = bytes; http_response = some (respond reply) }} e
        (rw (parse_plain, body) refl)
      ∙ rw (laws.status_arrives reply) refl

  -- A call of an operation without a document, whose request is answered from an outcome.
  exchange_no_content :
      (outcome : Result A × S) {s : S}
      → m s ≡ deliver respond (recover recovered (answered f g outcome))
      → ((a : A) → (f a).status ≡ status_no_content)
      → ((e : Error) → ((g e).status ≡ status_of e) × (eqb (status_of e) status_no_content ≡ false))
      → call text m parse_plain (no_content lib op) s
        ≡ remote (resolve_status_error lib.decimal op) status_of (λ _. tt) outcome
  exchange_no_content (ok a, s') e good bad = plain_call (f a) e ∙ rw (good a) refl
  exchange_no_content (err x, s') e good bad =
      let (status, refused) = bad x in plain_call (g x) e ∙ rw (status, refused) refl
  exchange_no_content (panic p, s') e good bad = plain_call recovered e ∙ rw recovered_status refl

-- The two exchanges, for a request that arrives at a handler which replies to an outcome.
module _ {S U D A : Type 0} (lib : Libraries U) {unmarshal : Unmarshal D}
    (respond : Reply → Response D) (laws : NetworkLaws respond unmarshal) (gin : Gin Request)
    (recovered_status : gin.recovered.status ≡ status_internal_server_error) (h : Handlers S)
    (c : Client S D) (serves : c.client ≡ some (served respond gin h)) {made : Result Request}
    {route : Route} {params : Params} {player : String} {s : S} {sent : Request}
    (arrives : Arrives c gin made route params player s sent) (text op : String) (f : A → Reply)
    (g : Error → Reply) (status_of : Error → ℕ) (outcome : Result A × S)
    (replies : handler gin h route.endpoint sent params player s ≡ answered f g outcome) where
  answer_arrives : send c made [] s ≡ deliver respond (recover gin.recovered (answered f g outcome))
  answer_arrives = send-Arrives respond gin h c serves arrives ∙ rw replies refl

  pub remote-document :
      {B : Type 0} (decode : D → Result B) (k : A → B)
      → ((a : A) → ((f a).status ≡ status_ok) × Carries respond decode (f a) (k a))
      → ((e : Error) → ((g e).status ≡ status_of e) × (eqb (status_of e) status_ok ≡ false))
      → call text (send c made []) (parse decode) (document lib op) s
        ≡ remote (resolve_status_error lib.decimal op) status_of k outcome
  remote-document decode k =
      exchange_document lib text op respond laws gin.recovered recovered_status (send c made [])
        decode f g k status_of outcome answer_arrives

  pub remote-no_content :
      ((a : A) → (f a).status ≡ status_no_content)
      → ((e : Error) → ((g e).status ≡ status_of e) × (eqb (status_of e) status_no_content ≡ false))
      → call text (send c made []) parse_plain (no_content lib op) s
        ≡ remote (resolve_status_error lib.decimal op) status_of (λ _. tt) outcome
  remote-no_content =
      exchange_no_content lib text op respond laws gin.recovered recovered_status (send c made []) f
        g status_of outcome answer_arrives
