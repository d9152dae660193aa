-- ===== src/Router/Authentication.antt =====
-- The routes that VerifyInternalAuth guards.
use overload_party_scenario.Common.{
  ◌≡◌, refl, none, some, Memᴰ, All, All-lookup, Option-cases, true, ◌⊎◌, inl, inr,
}
use overload_party_scenario.Errors.{ok}
use overload_party_scenario.Rest.{Reply, health, status_ok}
use overload_party_scenario.Router.{
  Gin, Handlers, Route, Params, routes, health_route, handler, guarded, serve,
}

abbrev pub healthy_reply : Reply
healthy_reply = record { status = status_ok; body = health "ok"; log = none }

-- The reply to a request that VerifyInternalAuth would abort with `refusal`.
abbrev pub UnauthenticatedReply : {Q : Type 0} → Gin Q → Q → Reply → Reply → Type 0
UnauthenticatedReply gin req refusal reply =
    ((gin.find_route routes req ≡ none) × (reply ≡ gin.no_route))
    ⊎ ((reply ≡ refusal)
        ⊎ ((params : Params) × (gin.find_route routes req ≡ some (health_route, params))
            × (reply ≡ healthy_reply)))

-- A registered route is that of the health check, or it is guarded.
routes_guarded : All (λ route. (route ≡ health_route) ⊎ (route.is_internal ≡ true)) routes
routes_guarded = (
  inl refl,
  (inr refl, (inr refl, (inr refl, (inr refl, (inr refl, (inr refl, (inr refl, tt))))))),
)

module _ {S Q : Type 0} (gin : Gin Q) (h : Handlers S) where
  guarded_refused :
      (route : Route) (req : Q) (params : Params) {refusal : Reply} (s : S)
      → route.is_internal ≡ true
      → gin.verify_internal_auth req ≡ inl refusal
      → guarded gin h route req params s ≡ (ok refusal, s)
  unfolding guarded
  guarded_refused route req params s internal e = rw (guarded, internal, e) refl

  guarded_health :
      (req : Q) (params : Params) (s : S)
      → guarded gin h health_route req params s ≡ (ok healthy_reply, s)
  unfolding guarded handler
  guarded_health req params s = refl

  -- Where gin finds registered routes only, a request that VerifyInternalAuth refuses changes
  -- nothing: it is answered by the refusal, unless it has no route or goes to `GET /health`, which is
  -- answered 200.
  pub serve_unauthenticated :
      (req : Q) {refusal : Reply} (s : S)
      → ((route : Route) (params : Params)
          → gin.find_route routes req ≡ some (route, params)
          → Memᴰ route routes)
      → gin.verify_internal_auth req ≡ inl refusal
      → (reply : Reply) × (serve gin h req s ≡ (ok reply, s))
        × UnauthenticatedReply gin req refusal reply
  unfolding serve
  serve_unauthenticated req {refusal} s registered refused =
      elim (Option-cases (gin.find_route routes req)) [
        | inl unrouted ↦ (gin.no_route, rw (serve, unrouted) refl, inl (unrouted, refl))
        | inr ((route, params), found) ↦
            elim (All-lookup (λ r. (r ≡ health_route) ⊎ (r.is_internal ≡ true))
              (registered route params found) routes_guarded) [
                | inl is_health ↦ (
                  healthy_reply,
                  rw (serve, found, is_health, guarded_health req params s) refl,
                  inr (inr (params, rw is_health at found, refl)),
                )
                | inr internal ↦ (
                  refusal,
                  rw (serve, found, guarded_refused route req params s internal refused) refl,
                  inr (inl refl),
                )
              ]
      ]
