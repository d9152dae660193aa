-- ===== src/Remote/Onboarding.antt =====
-- The onboarding operations of the client, against the use case.
use overload_party_scenario.Common.{String, ◌≡◌, refl, some, []}
use overload_party_scenario.Errors.{ok}
use overload_party_scenario.Onboarding
use overload_party_scenario.Rest.{Reply, status_internal_server_error}
use overload_party_scenario.Rest.OnboardingHandler
use overload_party_scenario.Rest.OnboardingHandler.{resolve_onboarding_error_status}
use overload_party_scenario.Rest.Statuses.{resolve_onboarding_error_status-refused}
use overload_party_scenario.Router.{
  Gin, Handlers, api_route, onboarding_script, update_name, select_faction, complete_onboarding,
  handler,
}
use overload_party_scenario.ApiClient.{Libraries, Request, Response, Unmarshal}
use overload_party_scenario.ApiClient.Requests.{
  new_get_onboarding_script_request, new_update_onboarding_name_request,
  new_select_onboarding_faction_request, new_complete_onboarding_request,
}
use overload_party_scenario.ApiClient.Wrapper.{
  Client, resolve_status_error, get_onboarding_script, update_onboarding_name,
  select_onboarding_faction, complete_onboarding as client_complete_onboarding,
}
use overload_party_scenario.Remote.{served, Arrives, NetworkLaws, remote}
use overload_party_scenario.Remote.Exchange.{remote-document, remote-no_content}

module _ {S U D : Type 0} (lib : Libraries U) {unmarshal : Unmarshal D}
    (respond : Reply → Response D) (laws : NetworkLaws respond unmarshal) (gin : Gin Request)
    (recovered_status : gin.recovered.status ≡ status_internal_server_error) (h : Handlers S)
    (c : Client S D) (serves : c.api.client.client ≡ some (served respond gin h)) (player : String)
    (s : S) {sent : Request} where
  -- The onboarding's script that the client returns is the use case's for the player, and the state
  -- is unchanged: an error is the client's error for its status.
  pub get_onboarding_script-remote :
      (lang : String)
      → Arrives c.api.client gin
          (new_get_onboarding_script_request lib c.api.client.server
            (some (record { lang = some lang })))
          (api_route "GET" "/api/v1/scenarios/onboarding/script" onboarding_script)
          []
          player
          s
          sent
      → gin.query sent "lang" ≡ some lang
      → get_onboarding_script lib c unmarshal lang s
        ≡ remote
            (resolve_status_error lib.decimal "GetOnboardingScript")
            resolve_onboarding_error_status
            (λ text. record { script = text })
            (
              Onboarding.get_script h.onboarding_repo h.script_store h.name_validator
                  h.player_reader h.selectable_factions h.fresh player lang,
              s,
            )
  unfolding get_onboarding_script handler OnboardingHandler.get_script
  get_onboarding_script-remote lang arrives has_lang =
      remote-document lib respond laws gin recovered_status h c.api.client serves arrives
        "apiscenarioclient: GetOnboardingScript" "GetOnboardingScript"
        OnboardingHandler.script_reply
        (OnboardingHandler.respond_onboarding_error h.render (
          OnboardingHandler.log_rejection "get onboarding script rejected"
            "get onboarding script failed"))
        resolve_onboarding_error_status _
        (rw (handler, OnboardingHandler.get_script, has_lang) refl) unmarshal.onboarding_script _
        (λ text. (refl, laws.carries_onboarding_script _ refl))
        (λ e. (refl, (resolve_onboarding_error_status-refused e).0))

  -- The end of the onboarding, asked for through the client, is the use case's for the player, and so
  -- is the state: an error is the client's error for its status.
  pub complete_onboarding-remote :
      Arrives c.api.client gin
        (new_complete_onboarding_request lib c.api.client.server)
        (api_route "POST" "/api/v1/scenarios/onboarding/complete" complete_onboarding)
        []
        player
        s
        sent
      → client_complete_onboarding lib c unmarshal s
        ≡ remote
            (resolve_status_error lib.decimal "CompleteOnboarding")
            resolve_onboarding_error_status
            (λ _. record { message = "onboarding completed"; player_id = player })
            (Onboarding.complete h.onboarding_repo h.script_store h.name_validator h.player_reader
              h.selectable_factions h.fresh player s)
  unfolding client_complete_onboarding handler OnboardingHandler.complete
  complete_onboarding-remote arrives =
      remote-document lib respond laws gin recovered_status h c.api.client serves arrives
        "apiscenarioclient: CompleteOnboarding" "CompleteOnboarding"
        (OnboardingHandler.completion_reply player)
        (OnboardingHandler.respond_onboarding_error h.render (
          OnboardingHandler.log_rejection "complete onboarding rejected"
            "complete onboarding failed"))
        resolve_onboarding_error_status _ refl unmarshal.onboarding_complete _
        (λ done. (refl, laws.carries_onboarding_completion _ refl))
        (λ e. (refl, (resolve_onboarding_error_status-refused e).0))

  -- A name that the client sends, and that the handler binds, has the effect of the use case's step:
  -- an error is the client's error for its status.
  pub update_onboarding_name-remote :
      (name : String)
      → Arrives c.api.client gin
          (new_update_onboarding_name_request lib c.api.client.server (record { name = name }))
          (api_route "PUT" "/api/v1/scenarios/onboarding/name" update_name)
          []
          player
          s
          sent
      → gin.bind_name sent ≡ ok name
      → update_onboarding_name lib c (record { name = name }) s
        ≡ remote
            (resolve_status_error lib.decimal "UpdateOnboardingName")
            resolve_onboarding_error_status
            (λ _. tt)
            (Onboarding.update_name h.onboarding_repo h.script_store h.name_validator
              h.player_reader h.selectable_factions h.fresh player name s)
  unfolding update_onboarding_name handler OnboardingHandler.update_name
  update_onboarding_name-remote name arrives is_bound =
      remote-no_content lib respond laws gin recovered_status h c.api.client serves arrives
        "apiscenarioclient: UpdateOnboardingName" "UpdateOnboardingName"
        OnboardingHandler.no_content
        (OnboardingHandler.respond_onboarding_error h.render (
          OnboardingHandler.log_rejection "update onboarding name rejected"
            "update onboarding name failed"))
        resolve_onboarding_error_status _
        (rw (handler, OnboardingHandler.update_name, is_bound) refl) (λ _. refl)
        (λ e. (refl, (resolve_onboarding_error_status-refused e).1))

  -- A faction that the client sends, and that the handler binds, has the effect of the use case's
  -- step: an error is the client's error for its status.
  pub select_onboarding_faction-remote :
      (faction : String)
      → Arrives c.api.client gin
          (new_select_onboarding_faction_request lib c.api.client.server
            (record { initial_faction_id = faction }))
          (api_route "POST" "/api/v1/scenarios/onboarding/faction" select_faction)
          []
          player
          s
          sent
      → gin.bind_faction sent ≡ ok faction
      → select_onboarding_faction lib c (record { initial_faction_id = faction }) s
        ≡ remote
            (resolve_status_error lib.decimal "SelectOnboardingFaction")
            resolve_onboarding_error_status
            (λ _. tt)
            (Onboarding.select_faction h.onboarding_repo h.script_store h.name_validator
              h.player_reader h.selectable_factions h.fresh player faction s)
  unfolding select_onboarding_faction handler OnboardingHandler.select_faction
  select_onboarding_faction-remote faction arrives is_bound =
      remote-no_content lib respond laws gin recovered_status h c.api.client serves arrives
        "apiscenarioclient: SelectOnboardingFaction" "SelectOnboardingFaction"
        OnboardingHandler.no_content
        (OnboardingHandler.respond_onboarding_error h.render (
          OnboardingHandler.log_rejection "select onboarding faction rejected"
            "select onboarding faction failed"))
        resolve_onboarding_error_status _
        (rw (handler, OnboardingHandler.select_faction, is_bound) refl) (λ _. refl)
        (λ e. (refl, (resolve_onboarding_error_status-refused e).1))
