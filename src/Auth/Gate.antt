-- ===== src/Auth/Gate.antt =====
-- server/auth.go: the middleware that lets a request through or answers it.
use mokey.Base.{Bool, List, Option, String, if◌then◌else◌, nat_eq, not, string_eq, ℕ}
use mokey.Storage.{Storage, Codec}
use mokey.Directory.{User, UserMethods, Response, redirect, status}
use mokey.Sessions.{SessionEntry}
use mokey.Auth.{is_logged_in, logged_in, rejected}
use mokey.Auth.SignIn.{AuthService, AuthConfig, Middleware, World, redirect_login}

pub data Gate : Type 0 where
  next : Gate
  answer : Response → Gate

-- RequireMFA, of `accounts.require_mfa`.
unfoldable pub require_mfa : UserMethods → Bool → User → Gate
require_mfa methods required user =
    if not required
    then next
    else if not (methods.otp_only user)
    then answer (status 401 "account.you_must_enable_two_factor_authentication_first")
    else next

module _ {Bytes : Type 0} (db : Storage Bytes) (json : Codec Bytes (List SessionEntry))
    (ints : Codec Bytes ℕ) (fiber : Middleware db.State) (show_as : String → String → Option User)
    (ipa : AuthService) (cfg : AuthConfig) (ad_trust_username : String → Bool) where
  unfoldable pub require_login : World db.State → ℕ → Bool → World db.State × Gate
  unfolding is_logged_in
  require_login w now htmx =
      elim (is_logged_in db ints show_as w.store now (fiber.load w.store now)) [
        | rejected reason ↦
            let (w', r) = redirect_login db json fiber ipa cfg ad_trust_username w now htmx in
            (w', answer r)
        | logged_in username user ↦ (w, next)
      ]

  unfoldable pub require_no_login : World db.State → ℕ → Bool → World db.State × Gate
  unfolding is_logged_in
  require_no_login w now htmx =
      elim (is_logged_in db ints show_as w.store now (fiber.load w.store now)) [
        | rejected reason ↦ (w, next)
        | logged_in username user ↦ (w, answer (if htmx then status 204 "/" else redirect "/"))
      ]
