-- ===== src/Password.antt =====
-- server/password.go: asking for a mailed reset link, and setting the password with it. FreeIPA is
-- a parameter.
pub mod Elsewhere
pub mod Policy
pub mod Laws
pub mod Once
pub mod Change
mod Tests
use mokey.Base.{
  Bool, List, Option, String, [], if◌then◌else◌, nat_eq, none, not, some, string_eq, ℕ, ◌&&◌, ◌++◌,
  ◌==◌, ◌∷◌,
}
use mokey.Storage.{Storage, Codec}
use mokey.Directory.{User, UserMethods, Response, Effect, audit, mail, render, status}
use mokey.Token.{Claims, Token, Branca, TokenConfig, parse_token, mark_token_used, err, ok}
use mokey.Auth.{invalidate_user_sessions, is_blocked, text}
use mokey.Password.Elsewhere.{password_elsewhere}
use mokey.Lockout.{pw_policy_show, PolicyService}
use mokey.Password.Policy.{PasswordRules, validate_password}

-- goipa's answer to `SetPassword`.
pub data SetResult : Type 0 where
  password_set policy_refused invalid_password set_failed : SetResult

pub record PasswordService : Type 1 where
  pub State : Type 0
  pub user_show : State → String → Option User
  -- config_show's default types; none if FreeIPA does not answer.
  pub default_auth_types : State → List String
  pub policies : State → PolicyService
  pub reset_password : State → String → Option String × State
  pub set_password : State → String → String → String → String → SetResult × State

abbrev pub token_password_reset : String
token_password_reset = "reset"

pub record ResetForm : Type 0 where
  pub password : String
  pub password_confirm : String
  pub otp : String

-- validatePassword, under the policy of the user; without one where it cannot be read.
unfoldable pub check_form :
    (ipa : PasswordService) → PasswordRules → ipa.State → String → ResetForm → Option String
unfolding pw_policy_show validate_password
check_form ipa rules s username form =
    validate_password rules form.password form.password_confirm username
      (pw_policy_show (ipa.policies s) username)

-- The account that a link resets, or the line of the audit trail that turning it down leaves.
pub data ResetTarget : Type 0 where
  no_target : Option Effect → ResetTarget
  target : Token → User → ResetTarget

module _ {Bytes : Type 0} (db : Storage Bytes) (json : Codec Bytes Claims) (ints : Codec Bytes ℕ)
    (b : Branca Bytes) (text : String → Bytes) (tokens : TokenConfig) (ipa : PasswordService)
    (methods : UserMethods) (rules : PasswordRules) (idle_timeout : ℕ) where
  pub record World : Type 0 where
    pub store : db.State
    pub dir : ipa.State
    pub effects : List Effect

  abbrev pub emit : World → Effect → World
  emit w e = record w { effects = w.effects ++ e ∷ [] }

  -- passwordElsewhere of a user, by the directory's default.
  unfoldable pub elsewhere : ipa.State → User → String
  unfolding password_elsewhere
  elsewhere s user = password_elsewhere user.auth_types (ipa.default_auth_types s)

  -- Whom a reset link is for; every other link is answered with 404.
  unfoldable pub reset_target : World → ℕ → String → ResetTarget
  unfolding elsewhere parse_token
  reset_target w now token =
      elim (parse_token db json b text tokens w.store now token token_password_reset) [
        | err e ↦ no_target none
        | ok claims ↦ elim (ipa.user_show w.dir claims.username) [
          | none ↦ no_target none
          | some user ↦
              if user.locked
              then no_target (
                  some (
                    audit "AUDIT Attempt to reset password for disabled/locked user"
                      claims.username))
              else if not (elsewhere w.dir user == "")
              then no_target (
                  some (
                    audit "AUDIT Attempt to reset password for user without a FreeIPA password"
                      claims.username))
              else target claims user
        ]
      ]

  -- The end of PasswordReset: the link is used up, the user's sessions end, and the user is told.
  unfoldable pub finish_reset : World → ℕ → String → Token → User → World × Response
  unfolding mark_token_used invalidate_user_sessions
  finish_reset w now token claims user =
      let s = mark_token_used db json b text tokens w.store now token token_password_reset claims in
      let w' = record w {
        store = invalidate_user_sessions db ints idle_timeout s now user.username;
      } in
      (
        emit (emit w' (mail "password-changed" user.username))
            (audit "AUDIT User password changed successfully" user.username),
        render "password-reset-success.html",
      )

  unfoldable pub answer_set : SetResult → World → ℕ → String → Token → User → World × Response
  unfolding finish_reset
  answer_set password_set w now token claims user = finish_reset w now token claims user
  answer_set policy_refused w now token claims user = (w, status 400 "account.weak_password")
  answer_set invalid_password w now token claims user = (w, status 400 "otptoken.invalid_otp")
  answer_set set_failed w now token claims user = (w, status 500 "account.system_error")

  -- The form is complete: FreeIPA gives a random password, which is then changed.
  unfoldable pub set_new : World → ℕ → String → Token → User → ResetForm → World × Response
  unfolding answer_set
  set_new w now token claims user form =
      let (random, dir) = ipa.reset_password w.dir user.username in
      elim random [
        | none ↦ (record w { dir = dir }, status 500 "account.system_error")
        | some temporary ↦
            let (result, dir') =
              ipa.set_password dir user.username temporary form.password form.otp in
            answer_set result (record w { dir = dir' }) now token claims user
      ]

  -- PasswordReset; none is the GET that shows the form.
  unfoldable pub password_reset : World → ℕ → String → Option ResetForm → World × Response
  unfolding reset_target set_new
  password_reset w now token posted = elim (reset_target w now token) [
    | no_target line ↦ (elim line [ none ↦ w | some e ↦ emit w e ], status 404 "")
    | target claims user ↦ elim posted [
      | none ↦ (w, render "password-reset.html")
      | some form ↦
          if methods.otp_only user && form.otp == ""
          then (w, status 400 "otptoken.enter_6_digit_code_help")
          else elim (check_form ipa rules w.dir user.username form) [
            | some message ↦ (w, status 400 message)
            | none ↦ set_new w now token claims user form
          ]
    ]
  ]

  -- PasswordForgot for an account: the mail that it gets; making the mail makes its token.
  unfoldable pub forgot_mail : World → User → World
  unfolding elsewhere
  forgot_mail w user =
      if user.locked
      then emit w (audit "AUDIT Forgot password attempt for disabled/locked user" user.username)
      else if not (elsewhere w.dir user == "")
      then emit
          (emit w (
            audit "AUDIT Forgot password attempt for user without a FreeIPA password"
              user.username))
          (mail "password-elsewhere" user.username)
      else emit w (mail "password-reset" user.username)

  -- PasswordForgot, of a posted name; `captcha` is what verifyCaptcha found wrong.
  unfoldable pub password_forgot :
      (String → Bool) → List String → World → Option String → String → World × Response
  unfolding forgot_mail is_blocked
  password_forgot ad_trust_username block_users w captcha username =
      if ad_trust_username username
      then (w, status 400 "password.managed_by_ad")
      else elim captcha [
        | some message ↦ (w, status 400 message)
        | none ↦
            if is_blocked block_users username
            then (
              emit w (audit "AUDIT Forgot password attempt for blocked username" username),
              render "password-forgot-success.html",
            )
            else elim (ipa.user_show w.dir username) [
              | none ↦ (
                emit w (audit "AUDIT Forgot password attempt for unknown username" username),
                render "password-forgot-success.html",
              )
              | some user ↦ (forgot_mail w user, render "password-forgot-success.html")
            ]
      ]
