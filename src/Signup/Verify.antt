-- ===== src/Signup/Verify.antt =====
-- server/account.go: AccountVerify with its helpers, AccountVerifyResend and EmailChangeConfirm.
pub mod Laws
mod Tests
use mokey.Base.{
  Bool, List, Option, String, [], false, if◌then◌else◌, length, nat_eq, none, not, some, string_eq,
  true, ℕ, ◌&&◌, ◌++◌, ◌==◌, ◌∷◌,
}
use mokey.Text.{codes}
use mokey.Storage.{Storage, Codec}
use mokey.Directory.{Effect, Response, audit, mail, render, status}
use mokey.Auth.{is_blocked}
use mokey.Token.{Branca, Claims, Token, TokenConfig, parse_token, mark_token_used, ok, err}
use mokey.Signup.{Account}
use mokey.Signup.Create.{
  AccountRules, AccountService, user_category_pending, user_category_unverified,
}

abbrev pub token_account_verify : String
token_account_verify = "verify"

abbrev pub token_email_change : String
token_email_change = "emailchange"

pub record Setting : Type 1 where
  pub Bytes : Type 0
  pub db : Storage Bytes
  pub json : Codec Bytes Claims
  pub branca : Branca Bytes
  pub text : String → Bytes
  pub tokens : TokenConfig
  pub ipa : AccountService
  pub rules : AccountRules

module _ (e : Setting) where
  pub record Office : Type 0 where
    pub store : e.db.State
    pub dir : e.ipa.State
    pub effects : List Effect

  -- verifyStagedUser: whether it worked, and the category that the code goes on with.
  unfoldable pub verify_staged_user : e.ipa.State → String → Account → Bool × e.ipa.State
  verify_staged_user dir username su =
      let (cleared, dir') = e.ipa.stage_user_set_category dir username "" in
      let (activated, dir'') = e.ipa.stage_user_activate dir' username in
      if e.rules.require_admin_verify
      then (if su.category == user_category_unverified
          then e.ipa.stage_user_set_category dir username user_category_pending
          else (true, dir))
      else if cleared
      then (activated, dir'')
      else (false, dir')

  unfoldable pub enable_legacy : e.ipa.State → String → Account → Bool × e.ipa.State
  enable_legacy dir username user =
      if user.locked && not e.rules.require_admin_verify
      then e.ipa.user_enable dir username
      else (true, dir)

  unfoldable pub settle_category : e.ipa.State → Account → Bool × e.ipa.State
  settle_category dir user =
      if user.category == user_category_unverified
      then e.ipa.user_mod dir (record user {
        category = (if e.rules.require_admin_verify then user_category_pending else "");
      })
      else (true, dir)

  -- finishAccountVerify
  unfoldable pub finish_account_verify : Office → ℕ → String → Token → String → Office × Response
  unfolding mark_token_used
  finish_account_verify w now token claims username = (
    record w {
      store =
          mark_token_used e.db e.json e.branca e.text e.tokens w.store now token
            token_account_verify claims;
      effects =
          w.effects
          ++ mail "welcome" username
            ∷ audit "AUDIT user account verified successfully" username
            ∷ [];
    },
    render "verify-success.html",
  )

  abbrev pub failed_to_verify : Response
  failed_to_verify = status 500 "account.failed_to_verify_account"

  -- verifyLegacyUser
  unfoldable pub verify_legacy_user : Office → ℕ → String → Token → Office × Response
  unfolding enable_legacy settle_category finish_account_verify
  verify_legacy_user w now token claims = elim (e.ipa.user_show w.dir claims.claims.username) [
    | none ↦ (w, failed_to_verify)
    | some user ↦
        let (enabled, dir) = enable_legacy w.dir claims.claims.username user in
        let (settled, dir') = settle_category dir user in
        if not enabled
        then (record w { dir = dir }, failed_to_verify)
        else if not settled
        then (record w { dir = dir' }, failed_to_verify)
        else finish_account_verify (record w { dir = dir' }) now token claims claims.claims.username
  ]

  -- AccountVerify; `posted` is false for the GET that shows the form.
  unfoldable pub account_verify : Office → ℕ → String → Bool → Office × Response
  unfolding verify_staged_user verify_legacy_user finish_account_verify parse_token
  account_verify w now token posted =
      elim (parse_token e.db e.json e.branca e.text e.tokens w.store now token
        token_account_verify) [
          | err x ↦ (w, status 404 "")
          | ok claims ↦
              if not posted
              then (w, render "verify-account.html")
              else if not e.rules.staged_signup
              then verify_legacy_user w now token claims
              else elim (e.ipa.stage_user_show w.dir claims.claims.username) [
                | none ↦ verify_legacy_user w now token claims
                | some su ↦
                    let (worked, dir) = verify_staged_user w.dir claims.claims.username su in
                    if worked
                    then finish_account_verify (record w { dir = dir }) now token claims
                        claims.claims.username
                    else (record w { dir = dir }, failed_to_verify)
              ]
        ]

  -- Whether AccountVerifyResend mails a link, and to which record.
  unfoldable pub resend_to : e.ipa.State → String → Option Account
  resend_to dir username = elim (e.ipa.user_show dir username) [
    | some user ↦
        if not user.locked && not e.rules.require_admin_verify
        then none
        else if not (user.category == user_category_unverified)
        then none
        else some user
    | none ↦
        if e.rules.staged_signup
        then elim (e.ipa.stage_user_show dir username) [
          | none ↦ none
          | some su ↦ if su.category == user_category_unverified then some su else none
        ]
        else none
  ]

  -- AccountVerifyResend; `captcha` is what verifyCaptcha found wrong.
  unfoldable pub account_verify_resend : Office → Option String → String → Office × Response
  unfolding resend_to is_blocked
  account_verify_resend w captcha username = elim captcha [
    | some message ↦ (w, status 400 message)
    | none ↦
        if is_blocked e.rules.names.block_users username
        then (w, render "account-verify-forgot-success.html")
        else (
          elim (resend_to w.dir username) [
            | none ↦ w
            | some user ↦ record w { effects = w.effects ++ mail "account-verify" username ∷ [] }
          ],
          render "account-verify-forgot-success.html",
        )
  ]

  -- EmailChangeConfirm
  unfoldable pub email_change_confirm : Office → ℕ → String → Bool → Office × Response
  unfolding parse_token mark_token_used
  email_change_confirm w now token posted =
      elim (parse_token e.db e.json e.branca e.text e.tokens w.store now token token_email_change) [
        | err x ↦ (w, status 404 "")
        | ok claims ↦
            if not posted
            then (w, render "email-change-confirm.html")
            else elim (e.ipa.user_show w.dir claims.claims.username) [
              | none ↦ (w, status 500 "account.fatal_system_error")
              | some user ↦
                  let (changed, dir) =
                    e.ipa.user_mod w.dir (record user { email = codes claims.claims.email }) in
                  let told =
                    if length user.email == 0
                    then []
                    else mail "email-changed" claims.claims.username ∷ [] in
                  if not changed
                  then (record w { dir = dir }, status 500 "account.fatal_system_error")
                  else (
                    record {
                      store =
                          mark_token_used e.db e.json e.branca e.text e.tokens w.store now token
                            token_email_change claims;
                      dir = dir;
                      effects =
                          w.effects
                          ++ told
                          ++ audit "AUDIT email address changed successfully" claims.claims.username
                            ∷ [];
                    },
                    render "email-change-success.html",
                  )
            ]
      ]
