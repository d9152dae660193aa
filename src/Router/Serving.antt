-- ===== src/Router/Serving.antt =====
-- Every request is answered.
use overload_party_scenario.Common.{
  String, ◌≡◌, ◌≢◌, ◌⊎◌, refl, Bool, true, false, Option-cases, inl, inr,
}
use overload_party_scenario.Errors.{Error, Result, ok, err, panic}
use overload_party_scenario.Errors.Action.{Action}
use overload_party_scenario.Rest.{Reply, answer}
use overload_party_scenario.Rest.StoryHandler
use overload_party_scenario.Rest.OnboardingHandler
use overload_party_scenario.Router.{
  Gin, Handlers, Route, Params, Endpoint, get_health, list_episodes, get_script, complete_episode,
  onboarding_script, update_name, select_faction, complete_onboarding, routes, recover, behind_auth,
  handler, guarded, serve,
}

-- A handler replies or panics: it has no error to return.
abbrev IsReply : Result Reply → Type 0
IsReply r = (e : Error) → r ≢ err e

answer-IsReply :
    {A : Type 0} (f : A → Reply) (g : Error → Reply) (r : Result A) → IsReply (answer f g r)
answer-IsReply f g (ok a) e = λ h. cc
answer-IsReply f g (err x) e = λ h. cc
answer-IsReply f g (panic p) e = λ h. cc

with_body-IsReply :
    {S : Type 0} (render : Error → String) (message : String) (k : String → Action S Reply)
    (bound : Result String) (s : S)
    → ((text : String) → IsReply (k text s).0)
    → IsReply (OnboardingHandler.with_body render message k bound s).0
with_body-IsReply render message k (ok text) s h = h text
with_body-IsReply render message k (err x) s h = λ e same. cc
with_body-IsReply render message k (panic p) s h = λ e same. cc

behind_auth-IsReply :
    {S : Type 0} (internal : Bool) (verdict : Reply ⊎ String) (k : String → Action S Reply) (s : S)
    → ((player : String) → IsReply (k player s).0)
    → IsReply (behind_auth internal verdict k s).0
behind_auth-IsReply false verdict k s h = h ""
behind_auth-IsReply true (inl reply) k s h = λ e same. cc
behind_auth-IsReply true (inr player) k s h = h player

module _ {S Q : Type 0} (gin : Gin Q) (h : Handlers S) where
  handler-IsReply :
      (endpoint : Endpoint) (req : Q) (params : Params) (player : String) (s : S)
      → IsReply (handler gin h endpoint req params player s).0
  unfolding handler StoryHandler.list_episodes StoryHandler.get_script StoryHandler.complete_episode
      OnboardingHandler.get_script OnboardingHandler.update_name OnboardingHandler.select_faction
      OnboardingHandler.complete
  handler-IsReply get_health req params player s = λ e same. cc
  handler-IsReply list_episodes req params player s = answer-IsReply _ _ _
  handler-IsReply get_script req params player s = answer-IsReply _ _ _
  handler-IsReply complete_episode req params player s = answer-IsReply _ _ _
  handler-IsReply onboarding_script req params player s = answer-IsReply _ _ _
  handler-IsReply update_name req params player s =
      with_body-IsReply h.render _ _ (gin.bind_name req) s (λ name. answer-IsReply _ _ _)
  handler-IsReply select_faction req params player s =
      with_body-IsReply h.render _ _ (gin.bind_faction req) s (λ faction. answer-IsReply _ _ _)
  handler-IsReply complete_onboarding req params player s = answer-IsReply _ _ _

  guarded-IsReply :
      (route : Route) (req : Q) (params : Params) (s : S)
      → IsReply (guarded gin h route req params s).0
  unfolding guarded
  guarded-IsReply route req params s =
      behind_auth-IsReply route.is_internal (gin.verify_internal_auth req) _ s
        (λ player. handler-IsReply route.endpoint req params player s)

recover_answers :
    {S : Type 0} (recovered : Reply) (outcome : Result Reply × S)
    → IsReply outcome.0
    → (reply : Reply) × ((recover recovered outcome).0 ≡ ok reply)
recover_answers recovered (ok reply, s) h = (reply, refl)
recover_answers recovered (err e, s) h = absurd (h e refl)
recover_answers recovered (panic p, s) h = (recovered, refl)

module _ {S Q : Type 0} (gin : Gin Q) (h : Handlers S) where
  -- Every request is answered by a reply, also where its handler panics.
  pub serve_answers : (req : Q) (s : S) → (reply : Reply) × ((serve gin h req s).0 ≡ ok reply)
  unfolding serve
  serve_answers req s = elim (Option-cases (gin.find_route routes req)) [
    | inl unrouted ↦ (gin.no_route, rw (serve, unrouted) refl)
    | inr ((route, params), found) ↦
        let (reply, e) =
          recover_answers gin.recovered (guarded gin h route req params s)
            (guarded-IsReply gin h route req params s) in
        (reply, rw (serve, found) e)
  ]
