-- ===== src/Security/Switch.antt =====
-- server/otp.go OTPTokenVerify and server/security.go: verifying a new token, and switching
-- two-factor authentication on and off.
use mokey.Base.{
  Bool, List, Option, String, [], false, if◌then◌else◌, length, nat_eq, none, not, some, string_eq,
  true, ℕ, ◌&&◌, ◌==◌, ◌∷◌,
}
use mokey.Directory.{audit, mail}
use mokey.Security.{
  Setting, Desk, SecurityPage, TokenAnswer, VerifyForm, emit, security_state, show_tokens, refused,
}

abbrev pub otp_only_types : List String
otp_only_types = "otp" ∷ []

abbrev pub count_of : Option (List String) → ℕ
count_of none = 0
count_of (some xs) = length xs

abbrev pub is_known : Option (List String) → Bool
is_known none = false
is_known (some xs) = true

module _ (e : Setting) where
  -- securityVars, of what FreeIPA answered; none where it did not.
  unfoldable pub security_vars : Desk e → Option String → SecurityPage
  unfolding security_state
  security_vars w message =
      let tokens = e.ipa.fetch_otp_tokens w.dir w.user.username in
      let passkeys = e.ipa.user_passkeys w.dir w.user.username in
      record {
        otp_count = count_of tokens;
        passkey_count = count_of passkeys;
        counts_known = is_known tokens && is_known passkeys;
        security_state = security_state (e.methods.otp_only w.user) (count_of tokens);
        message = message;
      }

  unfoldable pub app_revoke : Desk e → String → Desk e × SecurityPage
  unfolding security_vars
  app_revoke w client =
      if e.ipa.revoke_connected_app w.user.username client
      then (let w' = emit e w (audit "AUDIT User revoked app access" w.user.username) in
          (w', security_vars w' none))
      else (w, security_vars w (some "security.apps_revoke_failed"))

  -- The end of TwoFactorDisable and of TwoFactorEnable, whatever FreeIPA answered.
  unfoldable pub finish_switch :
      Desk e → Bool → List String → String → String → Desk e × SecurityPage
  unfolding security_vars
  finish_switch w ok types message notice =
      let w' =
        emit e (record w { user = record w.user { auth_types = types } })
          (mail notice w.user.username) in
      (w', security_vars w' (if ok then none else some message))

  unfoldable pub two_factor_disable : Desk e → Desk e × SecurityPage
  unfolding finish_switch
  two_factor_disable w =
      let (ok, dir) = e.ipa.set_auth_types w.dir w.user.username [] in
      finish_switch (record w { dir = dir }) ok [] "Failed to disable Two-Factor authentication"
        "mfa-disabled"

  unfoldable pub two_factor_enable : Desk e → Desk e × SecurityPage
  unfolding finish_switch
  two_factor_enable w = elim (e.ipa.fetch_otp_tokens w.dir w.user.username) [
    | none ↦ (w, security_vars w (some "Failed to enable Two-Factor authentication"))
    | some tokens ↦
        if length tokens == 0
        then (
          w,
          security_vars w
              (some "You must add an OTP token first before enabling Two-Factor authentication"),
        )
        else let (ok, dir) = e.ipa.set_auth_types w.dir w.user.username otp_only_types in
          finish_switch (record w { dir = dir }) ok otp_only_types
            "Failed to enable Two-Factor authentication" "mfa-enabled"
  ]

  -- OTPTokenVerify drops a token that was not verified; a failure is only logged.
  abbrev drop_token : Desk e → String → Desk e
  drop_token w uuid = record w { dir = (e.ipa.remove_otp_token w.dir uuid).1 }

  -- Whether a verified token switches two-factor authentication on.
  unfoldable pub wants_auto_mfa : Desk e → Bool
  wants_auto_mfa w =
      e.accounts_require_mfa
      && not (e.methods.otp_only w.user)
      && elim (e.ipa.fetch_otp_tokens w.dir w.user.username) [
        | none ↦ false
        | some tokens ↦ length tokens == 1
      ]

  -- OTPTokenVerify once the code was right.
  unfoldable pub verified : Desk e → Desk e
  unfolding wants_auto_mfa
  verified w =
      let (ok, dir) = e.ipa.set_auth_types w.dir w.user.username otp_only_types in
      if wants_auto_mfa w
      then (if ok
          then emit e (record w { dir = dir; user = record w.user { auth_types = otp_only_types } })
              (mail "mfa-enabled" w.user.username)
          else emit e (record w { dir = dir }) (mail "otp-token-added" w.user.username))
      else emit e w (mail "otp-token-added" w.user.username)

  unfoldable pub otp_token_verify : Desk e → VerifyForm → Desk e × TokenAnswer
  unfolding show_tokens verified
  otp_token_verify w form =
      if form.action == "cancel"
      then show_tokens e (drop_token w form.uuid) none
      else elim (e.validate form.uri) [
        | none ↦ show_tokens e (drop_token w form.uuid) (some "otptoken.failed_to_verify_token")
        | some valid ↦
            if valid form.otpcode
            then show_tokens e (verified w) none
            else (w, refused 400 "otptoken.invalid_6_digit_code")
      ]
