-- ===== src/Auth/SignIn.antt =====
-- server/auth.go: the handlers that check a user name, sign in and sign out. What the session
-- middleware does is a parameter; r.session is `load`. `adTrustUsername` and `passwordElsewhere`
-- are in Password.antt and are arguments here.
use mokey.Base.{
  Bool, List, Option, String, [], concat, false, if◌then◌else◌, nat_eq, none, not, some, string_eq,
  true, ℕ, ◌&&◌, ◌++◌, ◌==◌, ◌∷◌,
}
use mokey.Storage.{Storage, Codec}
use mokey.Directory.{User, Response, Effect, audit, background, hydra, redirect, render, status}
use mokey.Sessions.{SessionEntry, record_user_session, drop_session_from_index}
use mokey.Auth.{
  Session, as_text, flag, int64, is_blocked, sess_get, sess_set, session_key_authenticated,
  session_key_login_time, session_key_sid, session_key_username, text,
}

-- gofiber's session middleware on the storage: `sess.Regenerate`, `sess.Save`, `sess.Destroy`.
pub record Middleware (State : Type 0) : Type 0 where
  pub load : State → ℕ → Option Session
  pub regenerate : State → ℕ → Session → Option (Session × State)
  pub save : State → ℕ → Session → Option State
  pub destroy : State → ℕ → Session → State

-- How FreeIPA takes a name and password: `newIPAClient` (unreachable), `RemoteLogin`, where every
-- error but an expired password is a denial, and the client's session id.
pub data RemoteLogin : Type 0 where
  unreachable expired_password denied : RemoteLogin
  accepted : String → RemoteLogin

-- What `UserShow` finds: IpaError 4001 is `absent`, any other error is `broken`.
pub data Shown : Type 0 where
  broken absent : Shown
  present : User → Shown

pub record AuthService : Type 0 where
  pub user_show : String → Shown
  pub remote_login : String → String → RemoteLogin
  pub ping : String → Bool
  pub locked_out : String → Bool
  -- AcceptOAuth2LoginRequest of a subject and a challenge: where to redirect to.
  pub accept_login : String → String → Option String

pub record AuthConfig : Type 0 where
  pub block_users : List String
  pub hide_invalid_username_error : Bool
  pub hydra_configured : Bool

pub record World (State : Type 0) : Type 0 where
  pub store : State
  pub effects : List Effect

abbrev pub emit : {State : Type 0} → World State → Effect → World State
emit w e = record w { effects = w.effects ++ e ∷ [] }

-- What the login form is rendered for: the record that was found, or one with the name alone.
pub data FormFor : Type 0 where
  name_only : String → FormFor
  whole : User → FormFor

pub data CheckAnswer : Type 0 where
  says : ℕ → String → CheckAnswer
  login_form : FormFor → String → CheckAnswer

module _ (ipa : AuthService) (cfg : AuthConfig) (ad_trust_username : String → Bool)
    (password_elsewhere : User → String) where
  -- CheckUser after the user was found.
  unfoldable pub check_found : String → User → String → List Effect × CheckAnswer
  check_found username user challenge =
      let message = password_elsewhere user in
      let lines =
        if user.locked then audit "AUDIT User account is locked in FreeIPA" username ∷ [] else [] in
      if user.locked && not cfg.hide_invalid_username_error
      then (lines, says 401 "account.user_account_is_locked")
      else if not cfg.hide_invalid_username_error && not (message == "")
      then (lines, says 401 message)
      else (lines, login_form (whole user) challenge)

  -- CheckUser. For a name that FreeIPA does not know there is a form only with hidden errors, where
  -- `password_elsewhere` is not asked.
  unfoldable pub check_user : String → String → List Effect × CheckAnswer
  unfolding check_found is_blocked
  check_user username challenge =
      let unknown =
        if cfg.hide_invalid_username_error
        then login_form (name_only username) challenge
        else says 401 "account.invalid_username" in
      if username == ""
      then ([], says 400 "account.please_provide_username")
      else if ad_trust_username username
      then ([], says 400 "password.managed_by_ad")
      else if is_blocked cfg.block_users username
      then (audit "AUDIT User account is blocked from logging in" username ∷ [], unknown)
      else elim (ipa.user_show username) [
        | broken ↦ ([], says 500 "account.fatal_system_error")
        | absent ↦ ([], unknown)
        | present user ↦ check_found username user challenge
      ]

-- The values that a signed-in session carries.
abbrev pub signed_in : Session → String → String → ℕ → Session
signed_in sess username sid now =
    sess_set
      (sess_set
        (sess_set (sess_set sess session_key_authenticated (flag true)) session_key_username
          (text username))
        session_key_sid (text sid))
      session_key_login_time (int64 now)

-- The values of a session that may only change an expired password.
abbrev pub pending : Session → String → Session
pending sess username =
    sess_set (sess_set sess session_key_authenticated (flag false)) session_key_username
      (text username)

module _ {Bytes : Type 0} (db : Storage Bytes) (json : Codec Bytes (List SessionEntry))
    (fiber : Middleware db.State) (ipa : AuthService) (cfg : AuthConfig)
    (ad_trust_username : String → Bool) where
  -- LoginOAuthPost
  unfoldable pub login_oauth_post :
      World db.State → String → String → Bool → World db.State × Response
  login_oauth_post w username challenge htmx = elim (ipa.accept_login username challenge) [
    | none ↦ (w, status 500 "hydra.failed_to_accept_login")
    | some target ↦ (
      emit w (hydra "accept_login" username challenge),
      (if htmx then status 204 target else redirect target),
    )
  ]

  -- The end of Authenticate and of PasswordExpired: the session is saved, listed and announced.
  unfoldable pub establish :
      World db.State → ℕ → String → Session → SessionEntry → Option (World db.State)
  establish w now username sess entry = elim (fiber.save w.store now sess) [
    | none ↦ none
    | some s ↦ some (
        emit
          (record w {
            store =
                record_user_session db json s now username
                  (record entry { sid = sess.id; login_time = now });
          })
          (background "notifyNewLogin" username ""))
  ]

  -- Authenticate once FreeIPA accepted the password; `entry` has the address and the browser.
  unfoldable pub sign_in :
      World db.State
      → ℕ
      → String
      → String
      → String
      → Bool
      → SessionEntry
      → World db.State × Response
  unfolding establish login_oauth_post
  sign_in w now username sid challenge htmx entry = elim (fiber.load w.store now) [
    | none ↦ (w, status 500 "")
    | some sess ↦ elim (fiber.regenerate w.store now sess) [
      | none ↦ (w, status 500 "")
      | some (fresh, s) ↦
          elim (establish (record w { store = s }) now username (signed_in fresh username sid now)
            entry) [
              | none ↦ (record w { store = s }, status 500 "")
              | some w' ↦
                  if cfg.hydra_configured && not (challenge == "")
                  then login_oauth_post w' username challenge htmx
                  else (
                    emit w' (audit "AUDIT User logged in successfully" username),
                    status 204 "/",
                  )
            ]
    ]
  ]

  -- Authenticate with an expired password: a session that is not authenticated, for the form.
  unfoldable pub force_change : World db.State → ℕ → String → World db.State × Response
  force_change w now username = elim (fiber.load w.store now) [
    | none ↦ (w, status 500 "")
    | some sess ↦ elim (fiber.regenerate w.store now sess) [
      | none ↦ (w, status 500 "")
      | some (fresh, s) ↦ elim (fiber.save s now (pending fresh username)) [
        | none ↦ (record w { store = s }, status 500 "")
        | some s' ↦ (
          record w { store = s' },
          elim (ipa.user_show username) [
            | broken ↦ status 500 ""
            | absent ↦ status 500 ""
            | present user ↦ render "login-password-expired.html"
          ],
        )
      ]
    ]
  ]

  unfoldable pub refuse : World db.State → String → World db.State × Response
  refuse w username =
      let w' = emit w (audit "AUDIT Failed login attempt" username) in
      if ipa.locked_out username
      then (
        emit w' (audit "AUDIT Login attempt for locked-out account" username),
        status 401 "login.account_locked_temporarily",
      )
      else (w', status 401 "account.invalid_credentials")

  unfoldable pub authenticate :
      World db.State
      → ℕ
      → String
      → String
      → String
      → String
      → Bool
      → SessionEntry
      → World db.State × Response
  unfolding sign_in force_change refuse is_blocked
  authenticate w now username password challenge otp htmx entry =
      if username == ""
      then (w, status 400 "account.please_provide_username")
      else if password == ""
      then (w, status 400 "account.please_provide_password")
      else if ad_trust_username username
      then (w, status 400 "password.managed_by_ad")
      else if is_blocked cfg.block_users username
      then (
        emit w (audit "AUDIT User account is blocked from logging in" username),
        status 401 "account.invalid_credentials",
      )
      else elim (ipa.remote_login username (concat password otp)) [
        | unreachable ↦ (w, status 500 "")
        | expired_password ↦ force_change w now username
        | denied ↦ refuse w username
        | accepted sid ↦
            if ipa.ping sid
            then sign_in w now username sid challenge htmx entry
            else (w, status 401 "account.invalid_credentials")
      ]

  unfoldable pub logout_session : World db.State → ℕ → Session → Option String → World db.State
  logout_session w now sess none = record w { store = fiber.destroy w.store now sess }
  logout_session w now sess (some username) =
      let s =
        fiber.destroy (drop_session_from_index db json w.store now username sess.id) now sess in
      let w' = record w { store = s } in
      if cfg.hydra_configured then emit w' (hydra "revoke_login_sessions" username "") else w'

  -- logout
  unfoldable pub logout : World db.State → ℕ → World db.State
  unfolding logout_session sess_get
  logout w now = elim (fiber.load w.store now) [
    | none ↦ w
    | some sess ↦ logout_session w now sess (as_text (sess_get sess session_key_username))
  ]

  unfoldable pub redirect_login : World db.State → ℕ → Bool → World db.State × Response
  unfolding logout
  redirect_login w now htmx =
      (logout w now, (if htmx then status 204 "/auth/login" else redirect "/auth/login"))
