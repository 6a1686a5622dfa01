-- ===== src/Password/Change.antt =====
-- server/password.go: changing one's password, PasswordChange, and changing one that has expired,
-- PasswordExpired. FreeIPA and the session middleware are parameters.
pub mod Steps
pub mod Laws
mod Tests
use mokey.Base.{
  Bool, List, Option, String, concat, if◌then◌else◌, nat_eq, none, not, some, string_eq, ℕ, ◌&&◌,
  ◌==◌,
}
use mokey.Storage.{Storage, Codec}
use mokey.Directory.{User, UserMethods, Response, audit, mail, status}
use mokey.Auth.{
  Session, sess_set, invalidate_user_sessions, int64, session_key_login_time, as_flag, as_text,
  sess_get, session_key_authenticated, session_key_username,
}
use mokey.Auth.SignIn.{
  AuthConfig, AuthService, Middleware, World, emit, establish, signed_in, accepted, denied,
  expired_password, redirect_login, unreachable,
}
use mokey.Sessions.{SessionEntry}
use mokey.Password.{
  PasswordService, SetResult, invalid_password, password_set, policy_refused, set_failed,
}
use mokey.Password.Policy.{PasswordRules, validate_password_change}
use mokey.Password.Elsewhere.{password_elsewhere}
use mokey.Lockout.{pw_policy_show}

-- goipa's answer to `ChangePassword`: done, an IpaError with its message, or another error.
pub data ChangeResult : Type 0 where
  changed : ChangeResult
  turned_down : String → ChangeResult
  unanswered : ChangeResult

pub record ChangeService : Type 1 where
  pub base : PasswordService
  pub change_password : base.State → String → String → String → String → ChangeResult × base.State
  -- Logging in with a password, as FreeIPA stands.
  pub logins : base.State → AuthService

pub record ChangeForm : Type 0 where
  pub password : String
  pub newpassword : String
  pub newpassword2 : String
  pub otp : String

-- What PasswordChange answers: 403, or password.html with what it shows.
pub data ChangeAnswer : Type 0 where
  forbidden : String → ChangeAnswer
  elsewhere_page : String → ChangeAnswer
  form_page : ChangeAnswer
  message_page : String → ChangeAnswer
  success_page : ChangeAnswer

-- What the handlers are given: the storage and its encodings, the session middleware, FreeIPA, and
-- the configuration.
pub record Setting : Type 1 where
  pub Bytes : Type 0
  pub db : Storage Bytes
  pub json : Codec Bytes (List SessionEntry)
  pub ints : Codec Bytes ℕ
  pub fiber : Middleware db.State
  pub service : ChangeService
  pub methods : UserMethods
  pub rules : PasswordRules
  pub cfg : AuthConfig
  pub ad_trust_username : String → Bool
  pub idle_timeout : ℕ

module _ (e : Setting) where
  pub record Site : Type 0 where
    pub world : World e.db.State
    pub dir : e.service.base.State

  -- passwordElsewhere of a user, by the directory's default.
  unfoldable pub managed_by : e.service.base.State → User → String
  unfolding password_elsewhere
  managed_by s user = password_elsewhere user.auth_types (e.service.base.default_auth_types s)

  -- validatePasswordChange, under the policy of the user; without one where it cannot be read.
  unfoldable pub checked : e.service.base.State → User → ChangeForm → Option String
  unfolding pw_policy_show validate_password_change
  checked s user form =
      validate_password_change e.rules form.password form.newpassword form.newpassword2
        user.username (pw_policy_show (e.service.base.policies s) user.username)

  -- The session of the request is kept: its login time is moved to the marker.
  unfoldable pub refresh_session : e.db.State → ℕ → e.db.State
  refresh_session s now = elim (e.fiber.load s now) [
    | none ↦ s
    | some sess ↦ elim (e.fiber.save s now (sess_set sess session_key_login_time (int64 now))) [
      | none ↦ s
      | some s' ↦ s'
    ]
  ]

  -- PasswordChange after FreeIPA has changed the password: the clock is read for the marker, and
  -- again, `later`, for the login time.
  unfoldable pub finish_change : World e.db.State → ℕ → ℕ → User → World e.db.State
  unfolding refresh_session invalidate_user_sessions
  finish_change w now later user =
      let s = invalidate_user_sessions e.db e.ints e.idle_timeout w.store now user.username in
      emit (record w { store = refresh_session s later }) (mail "password-changed" user.username)

  unfoldable pub answer_change : ChangeResult → Site → ℕ → ℕ → User → Site × ChangeAnswer
  unfolding finish_change
  answer_change changed site now later user =
      (record site { world = finish_change site.world now later user }, success_page)
  answer_change (turned_down message) site now later user = (site, message_page message)
  answer_change unanswered site now later user = (site, message_page "account.fatal_system_error")

  -- PasswordChange for the user of the request; none is the GET.
  unfoldable pub password_change : Site → ℕ → ℕ → User → Option ChangeForm → Site × ChangeAnswer
  unfolding answer_change managed_by checked
  password_change site now later user posted =
      let message = managed_by site.dir user in
      if not (message == "")
      then (site, elim posted [ none ↦ elsewhere_page message | some form ↦ forbidden message ])
      else elim posted [
        | none ↦ (site, form_page)
        | some form ↦
            if e.methods.otp_only user && form.otp == ""
            then (site, message_page "otptoken.enter_6_digit_code_help")
            else elim (checked site.dir user form) [
              | some wrong ↦ (site, message_page wrong)
              | none ↦
                  let (result, dir) =
                    e.service.change_password site.dir user.username form.password form.newpassword
                      form.otp in
                  answer_change result (record site { dir = dir }) now later user
            ]
      ]

  -- The end of PasswordExpired: the session is elevated under a new id.
  unfoldable pub elevate :
      AuthService
      → World e.db.State
      → ℕ
      → Session
      → String
      → String
      → SessionEntry
      → World e.db.State × Response
  unfolding establish
  elevate auth w now sess username sid entry = elim (e.fiber.regenerate w.store now sess) [
    | none ↦ (w, status 500 "")
    | some (fresh, s) ↦
        elim (establish e.db e.json e.fiber auth e.cfg e.ad_trust_username (record w { store = s })
          now username (signed_in fresh username sid now) entry) [
            | none ↦ (record w { store = s }, status 500 "")
            | some w' ↦ (
              emit w'
                  (audit "AUDIT User logged in and changed expired password successfully" username),
              status 204 "/",
            )
          ]
  ]

  -- PasswordExpired after FreeIPA has changed the password: a one-time password is used up by now.
  unfoldable pub finish_expired :
      World e.db.State
      → e.service.base.State
      → ℕ
      → Session
      → User
      → ChangeForm
      → SessionEntry
      → World e.db.State × Response
  unfolding elevate invalidate_user_sessions
  finish_expired w dir now sess user form entry =
      let w' =
        emit
          (record w {
            store = invalidate_user_sessions e.db e.ints e.idle_timeout w.store now user.username;
          })
          (mail "password-changed" user.username) in
      if e.methods.otp_only user
      then (
        emit w' (audit "AUDIT User changed expired password successfully" user.username),
        status 204 "/auth/login",
      )
      else elim ((e.service.logins dir).remote_login user.username
          (concat form.newpassword form.otp)) [
            | unreachable ↦ (w', status 500 "")
            | expired_password ↦ (w', status 401 "login.failed")
            | denied ↦ (w', status 401 "login.failed")
            | accepted sid ↦
                if (e.service.logins dir).ping sid
                then elevate (e.service.logins dir) w' now sess user.username sid entry
                else (w', status 401 "account.invalid_credentials")
          ]

  unfoldable pub answer_expired :
      SetResult → Site → ℕ → Session → User → ChangeForm → SessionEntry → Site × Response
  unfolding finish_expired
  answer_expired password_set site now sess user form entry =
      let (w, answer) = finish_expired site.world site.dir now sess user form entry in
      (record site { world = w }, answer)
  answer_expired policy_refused site now sess user form entry =
      (site, status 400 "password.rejected_by_policy")
  answer_expired invalid_password site now sess user form entry =
      (site, status 400 "password.invalid_current")
  answer_expired set_failed site now sess user form entry = (site, status 500 "")

  -- PasswordExpired for a user who may change the password.
  unfoldable pub change_expired :
      Site → ℕ → Session → User → ChangeForm → SessionEntry → Site × Response
  unfolding answer_expired checked
  change_expired site now sess user form entry =
      if e.methods.otp_only user && form.otp == ""
      then (site, status 400 "otptoken.enter_6_digit_code_help")
      else elim (checked site.dir user form) [
        | some wrong ↦ (site, status 400 wrong)
        | none ↦
            let (result, dir) =
              e.service.base.set_password site.dir user.username form.password form.newpassword
                form.otp in
            answer_expired result (record site { dir = dir }) now sess user form entry
      ]

  -- r.redirectLogin
  unfoldable pub turned_away : Site → ℕ → Bool → Site × Response
  unfolding redirect_login
  turned_away site now htmx =
      let (w, answer) =
        redirect_login e.db e.json e.fiber (e.service.logins site.dir) e.cfg e.ad_trust_username
          site.world now htmx in
      (record site { world = w }, answer)

  -- Whose expired password a session may change: the session names the user and is not
  -- authenticated.
  unfoldable pub expired_user : Session → Option String
  unfolding sess_get
  expired_user sess = elim (as_flag (sess_get sess session_key_authenticated)) [
    | none ↦ none
    | some authenticated ↦
        if authenticated then none else as_text (sess_get sess session_key_username)
  ]

  unfoldable pub password_expired : Site → ℕ → ChangeForm → SessionEntry → Bool → Site × Response
  unfolding change_expired expired_user managed_by turned_away
  password_expired site now form entry htmx = elim (e.fiber.load site.world.store now) [
    | none ↦ turned_away site now htmx
    | some sess ↦ elim (expired_user sess) [
      | none ↦ turned_away site now htmx
      | some username ↦ elim (e.service.base.user_show site.dir username) [
        | none ↦ turned_away site now htmx
        | some user ↦
            if not (managed_by site.dir user == "")
            then turned_away site now htmx
            else change_expired site now sess user form entry
      ]
    ]
  ]
