-- ===== src/Remote/Sentinels.antt =====
-- The sentinel that a caller of the client meets for an error of a use case.
use overload_party_scenario.Common.{ℕ, String, ◌≡◌, Bool, not, ◌||◌, ◌&&◌, arith, eqb, leb}
use overload_party_scenario.Errors.{
  Error, is, client, ClientError, onboarding, OnboardingError, story, StoryError, port, PortError,
}
use overload_party_scenario.Rest.{resolve_error_status}
use overload_party_scenario.Rest.OnboardingHandler.{
  resolve_onboarding_error_status, is_onboarding_rejected,
}
use overload_party_scenario.ApiClient.Wrapper.{resolve_status_error}

-- The status codes that the client's sentinels stand for.
abbrev has_status : ClientError → ℕ → Bool
has_status ClientError.not_found code = eqb code 404
has_status ClientError.unauthorized code = eqb code 401
has_status ClientError.forbidden code = eqb code 403
has_status ClientError.bad_request code = eqb code 400
has_status ClientError.conflict code = eqb code 409
has_status ClientError.internal_server code = leb 500 code

-- An error of the story that wraps ErrEpisodeNotFound or ErrScriptNotFound.
abbrev pub is_absent : Error → Bool
is_absent e = is e (story StoryError.episode_not_found) || is e (port PortError.script_not_found)

-- What an error of the onboarding can be, by the sentinels that it wraps.
abbrev is_missing : Error → Bool
is_missing e =
    is e (onboarding OnboardingError.script_not_found)
    || is e (onboarding OnboardingError.player_not_found)

abbrev is_conflict : Error → Bool
is_conflict e =
    is e (onboarding OnboardingError.already_onboarded)
    || is e (onboarding OnboardingError.faction_not_selected)

abbrev is_invalid : Error → Bool
is_invalid e =
    is e (onboarding OnboardingError.invalid_faction)
    || is e (onboarding OnboardingError.invalid_name)

module _ (decimal : ℕ → String) (op : String) where
  pub resolve_status_error-is :
      (e : ClientError) (code : ℕ)
      → is (resolve_status_error decimal op code) (client e) ≡ has_status e code
  unfolding resolve_status_error
  resolve_status_error-is ClientError.not_found code = ground arith
  resolve_status_error-is ClientError.unauthorized code = ground arith
  resolve_status_error-is ClientError.forbidden code = ground arith
  resolve_status_error-is ClientError.bad_request code = ground arith
  resolve_status_error-is ClientError.conflict code = ground arith
  resolve_status_error-is ClientError.internal_server code = ground arith

  -- The client's error for an error of the story is ErrNotFound exactly where the error wraps
  -- ErrEpisodeNotFound or ErrScriptNotFound, ErrForbidden exactly where it wraps neither of the two but
  -- ErrEpisodeLocked, and ErrInternalServer exactly where it wraps none of the three.
  pub resolve_status_error-story :
      (e : Error)
      → (is
            (resolve_status_error decimal op (resolve_error_status e))
            (client ClientError.not_found)
          ≡ is_absent e)
        × (is
              (resolve_status_error decimal op (resolve_error_status e))
              (client ClientError.forbidden)
            ≡ not (is_absent e) && is e (story StoryError.episode_locked))
        × (is
              (resolve_status_error decimal op (resolve_error_status e))
              (client ClientError.internal_server)
            ≡ not (is_absent e || is e (story StoryError.episode_locked)))
  resolve_status_error-story e =
      rw
        (
          resolve_status_error-is ClientError.not_found (resolve_error_status e),
          resolve_status_error-is ClientError.forbidden (resolve_error_status e),
          resolve_status_error-is ClientError.internal_server (resolve_error_status e),
        )
        (unfold resolve_error_status in (ground arith, ground arith, ground arith))

  -- The client's error for an error of the onboarding is ErrNotFound exactly for a missing script or
  -- player, ErrConflict exactly for any other error that is an onboarding completed before or without a
  -- faction, ErrBadRequest exactly for any other error that is a refused faction or name, and
  -- ErrInternalServer exactly for what is no foreseen rejection.
  pub resolve_status_error-onboarding :
      (e : Error)
      → (is
            (resolve_status_error decimal op (resolve_onboarding_error_status e))
            (client ClientError.not_found)
          ≡ is_missing e)
        × (is
              (resolve_status_error decimal op (resolve_onboarding_error_status e))
              (client ClientError.conflict)
            ≡ not (is_missing e) && is_conflict e)
        × (is
              (resolve_status_error decimal op (resolve_onboarding_error_status e))
              (client ClientError.bad_request)
            ≡ not (is_missing e) && (not (is_conflict e) && is_invalid e))
        × (is
              (resolve_status_error decimal op (resolve_onboarding_error_status e))
              (client ClientError.internal_server)
            ≡ not (is_onboarding_rejected e))
  unfolding resolve_onboarding_error_status is_onboarding_rejected
  resolve_status_error-onboarding e =
      rw
        (
          resolve_status_error-is ClientError.not_found (resolve_onboarding_error_status e),
          resolve_status_error-is ClientError.conflict (resolve_onboarding_error_status e),
          resolve_status_error-is ClientError.bad_request (resolve_onboarding_error_status e),
          resolve_status_error-is ClientError.internal_server (resolve_onboarding_error_status e),
        )
        (ground arith, ground arith, ground arith, ground arith)
