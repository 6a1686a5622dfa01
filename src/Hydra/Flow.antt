-- ===== src/Hydra/Flow.antt =====
-- server/hydra.go: the endpoints that hydra sends a browser to. hydra's admin calls are
-- parameters; an accepted request gives the address to redirect to.
pub mod Laws
use mokey.Base.{
  Bool, List, Option, String, [], if◌then◌else◌, nat_eq, none, not, some, string_eq, ◌++◌, ◌==◌,
  ◌||◌, ◌∷◌,
}
use mokey.Directory.{User, UserMethods, Response, Effect, audit, hydra, redirect, render, status}
use mokey.Hydra.{HydraConfig, client_allowed, client_groups_enforced}

-- What hydra asks consent for.
pub record ConsentRequest : Type 0 where
  pub subject : String
  pub client : String
  pub requested_scope : List String

pub record LoginRequest : Type 0 where
  pub skip : Bool
  pub subject : String

-- The claims of the id token are made of the user's record.
pub record FlowService : Type 0 where
  pub get_consent : String → Option ConsentRequest
  pub accept_consent : String → List String → User → Option String
  pub get_login : String → Option LoginRequest
  pub accept_skipped : String → String → Option String
  pub accept_login : String → String → Option String
  pub get_logout : String → Bool
  pub accept_logout : String → Option String
  pub user_show : String → Option User

module _ (equal_fold : String → String → Bool) (methods : UserMethods) (oauth : FlowService)
    (cfg : HydraConfig) (require_mfa : Bool) where
  -- Without `require_mfa`, or with a second factor.
  unfoldable pub passes_mfa : User → Bool
  passes_mfa user = not require_mfa || methods.otp_only user

  -- The end of ConsentGet: the scope is granted, and the browser sent back.
  unfoldable pub grant : String → ConsentRequest → User → List Effect × Response
  grant challenge consent user =
      elim (oauth.accept_consent challenge consent.requested_scope user) [
        | none ↦ ([], status 500 "hydra.failed_to_accept_consent")
        | some target ↦ (
          hydra "accept_consent" consent.subject challenge
              ∷ audit "AUDIT User logged in via Hydra OAuth2 successfully" consent.subject
              ∷ [],
          redirect target,
        )
      ]

  -- The client does not admit the user: the request is rejected at hydra, and consents that the
  -- user's groups no longer allow are revoked, where that is enforced.
  unfoldable pub deny_client : String → ConsentRequest → List Effect × Response
  unfolding client_groups_enforced
  deny_client challenge consent = (
    hydra "reject_consent" consent.subject challenge
          ∷ (if client_groups_enforced cfg
              then hydra "revoke_disallowed_consents" consent.subject "" ∷ []
              else [])
        ++ audit "AUDIT OAuth2 client denied, user not in an allowed group" consent.subject ∷ [],
    status 403 "hydra.client_not_allowed",
  )

  unfoldable pub consent_get : String → List Effect × Response
  unfolding grant deny_client passes_mfa client_allowed
  consent_get challenge =
      if challenge == ""
      then ([], status 400 "hydra.consent_without_challenge")
      else elim (oauth.get_consent challenge) [
        | none ↦ ([], status 500 "hydra.failed_to_validate_consent")
        | some consent ↦ elim (oauth.user_show consent.subject) [
          | none ↦ ([], status 500 "hydra.failed_to_validate_consent")
          | some user ↦
              if not (passes_mfa user)
              then ([], status 401 "hydra.access_denied")
              else if not (client_allowed equal_fold cfg consent.client user)
              then deny_client challenge consent
              else grant challenge consent user
        ]
      ]

  -- LoginOAuthPost, from the login page of a request.
  unfoldable pub post_login : String → String → Bool → List Effect × Response
  post_login username challenge htmx = elim (oauth.accept_login username challenge) [
    | none ↦ ([], status 500 "hydra.failed_to_accept_login")
    | some target ↦ (
      hydra "accept_login" username challenge ∷ [],
      (if htmx then status 204 target else redirect target),
    )
  ]

  -- hydra remembers the user.
  unfoldable pub skip_login : String → String → List Effect × Response
  unfolding passes_mfa
  skip_login subject challenge = elim (oauth.user_show subject) [
    | none ↦ ([], status 500 "hydra.failed_to_validate_login")
    | some user ↦
        if not (passes_mfa user)
        then ([], status 401 "hydra.access_denied")
        else elim (oauth.accept_skipped subject challenge) [
          | none ↦ ([], status 500 "hydra.failed_to_accept_login")
          | some target ↦ (hydra "accept_login" subject challenge ∷ [], redirect target)
        ]
  ]

  -- LoginOAuthGet; `current` is the user of a session that is logged in.
  unfoldable pub login_oauth_get : Option String → String → Bool → List Effect × Response
  unfolding skip_login post_login
  login_oauth_get current challenge htmx =
      if challenge == ""
      then ([], status 400 "hydra.login_without_challenge")
      else elim (oauth.get_login challenge) [
        | none ↦ ([], status 500 "hydra.failed_to_validate_login")
        | some login ↦ if login.skip then skip_login login.subject challenge else elim current [
          | none ↦ ([], render "login.html")
          | some username ↦ post_login username challenge htmx
        ]
      ]

  -- HydraLogout; `logout` is what logging out of mokey sets off.
  unfoldable pub hydra_logout : List Effect → String → List Effect × Response
  hydra_logout logout challenge =
      if oauth.get_logout challenge
      then (
        logout,
        elim (oauth.accept_logout challenge) [
          | none ↦ status 500 "hydra.failed_to_accept_logout"
          | some target ↦ redirect target
        ],
      )
      else ([], status 500 "hydra.failed_to_validate_logout")
