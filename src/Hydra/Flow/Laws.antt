-- ===== src/Hydra/Flow/Laws.antt =====
-- When the OAuth endpoints send a browser back to a client.
use mokey.Base.{
  Bool, Bool-cases, Option, Option-cases, String, [], arith, false, if◌then◌else◌, inl, inr, nat_eq,
  some, string_eq, true, ◌==◌, ◌∷◌, ◌≡◌, ◌⊎◌,
}
use mokey.Hydra.Flow.{
  FlowService, consent_get, ConsentRequest, LoginRequest, deny_client, grant, login_oauth_get,
  passes_mfa, post_login, skip_login,
}
use mokey.Directory.{UserMethods, User, audit, hydra, redirect, status}
use mokey.Hydra.{HydraConfig, client_allowed, client_groups_enforced}

module _ (equal_fold : String → String → Bool) (methods : UserMethods) (oauth : FlowService)
    (cfg : HydraConfig) (require_mfa : Bool) where
  -- A browser is redirected with consent only for a user that FreeIPA has, with a second factor
  -- where one is required, whom the configuration admits to the client, on the scope that was
  -- requested.
  pub consent_get_guarded :
      (challenge target : String)
      → (consent_get equal_fold methods oauth cfg require_mfa challenge).1 ≡ redirect target
      → (consent : ConsentRequest) × (user : User) × (oauth.get_consent challenge ≡ some consent)
        × (oauth.user_show consent.subject ≡ some user)
        × (passes_mfa equal_fold methods oauth cfg require_mfa user ≡ true)
        × (client_allowed equal_fold cfg consent.client user ≡ true)
        × (oauth.accept_consent challenge consent.requested_scope user ≡ some target)
  unfolding consent_get deny_client grant
  consent_get_guarded challenge target h = elim (Option-cases (oauth.get_consent challenge)) [
    | inl unknown ↦ absurd (ground arith)
    | inr (consent, asked) ↦ elim (Option-cases (oauth.user_show consent.subject)) [
      | inl gone ↦ absurd (ground arith)
      | inr (user, shown) ↦ (consent, user, asked, shown, ground arith, ground arith, ground arith)
    ]
  ]

  -- A client that does not admit the user gets no consent: the request is rejected, the user sees
  -- 403, and the consents that the user's groups no longer allow are looked at again exactly where
  -- restrictions are enforced.
  pub consent_get_denied :
      (challenge : String) (consent : ConsentRequest) (user : User)
      → (challenge == "") ≡ false
      → oauth.get_consent challenge ≡ some consent
      → oauth.user_show consent.subject ≡ some user
      → passes_mfa equal_fold methods oauth cfg require_mfa user ≡ true
      → client_allowed equal_fold cfg consent.client user ≡ false
      → consent_get equal_fold methods oauth cfg require_mfa challenge ≡ (
        hydra "reject_consent" consent.subject challenge
            ∷ (if client_groups_enforced cfg
                then hydra "revoke_disallowed_consents" consent.subject ""
                  ∷ audit "AUDIT OAuth2 client denied, user not in an allowed group" consent.subject
                  ∷ []
                else audit "AUDIT OAuth2 client denied, user not in an allowed group"
                    consent.subject
                  ∷ []),
        status 403 "hydra.client_not_allowed",
      )
  unfolding consent_get deny_client
  consent_get_denied challenge consent user named asked shown factor out =
      elim (Bool-cases (client_groups_enforced cfg)) [
        | inl on ↦ ground arith
        | inr off ↦ ground arith
      ]

  -- A browser is redirected from the login endpoint only for the subject that hydra remembers, whom
  -- FreeIPA has, with a second factor where one is required, or for the user of the session.
  pub login_oauth_get_guarded :
      (current : Option String) (challenge target : String) (htmx : Bool)
      → (login_oauth_get equal_fold methods oauth cfg require_mfa current challenge htmx).1
        ≡ redirect target
      → (login : LoginRequest) × (oauth.get_login challenge ≡ some login)
        × (((user : User) × (login.skip ≡ true)
              × (oauth.user_show login.subject ≡ some user)
              × (passes_mfa equal_fold methods oauth cfg require_mfa user ≡ true)
              × (oauth.accept_skipped login.subject challenge ≡ some target))
            ⊎ ((username : String) × (login.skip ≡ false)
                × (current ≡ some username)
                × (oauth.accept_login username challenge ≡ some target)))
  unfolding login_oauth_get skip_login post_login
  login_oauth_get_guarded current challenge target htmx h =
      elim (Option-cases (oauth.get_login challenge)) [
        | inl unknown ↦ absurd (ground arith)
        | inr (login, asked) ↦ elim (Bool-cases login.skip) [
          | inl remembered ↦ elim (Option-cases (oauth.user_show login.subject)) [
            | inl gone ↦ absurd (ground arith)
            | inr (user, shown) ↦
                (login, asked, inl (user, remembered, shown, ground arith, ground arith))
          ]
          | inr fresh ↦ elim (Option-cases current) [
            | inl nobody ↦ absurd (ground arith)
            | inr (username, session) ↦ (login, asked, inr (username, fresh, session, ground arith))
          ]
        ]
      ]
