-- ===== src/Security.antt =====
-- server/otp.go and server/security.go: the one-time password tokens of a user, and switching
-- two-factor authentication. FreeIPA and the checking of codes are parameters.
pub mod Switch
pub mod Laws
mod Tests
use mokey.Base.{
  Bool, List, Option, String, [], any, if◌then◌else◌, ltb, nat_eq, none, some, string_eq, ℕ, ◌++◌,
  ◌∷◌,
}
use mokey.Directory.{User, UserMethods, Effect, mail}

-- goipa's answers to the calls on a token: done, IpaError 4203 (the last active token of a user with
-- two-factor authentication), or another error.
pub data TokenCall : Type 0 where
  done last_token call_failed : TokenCall

pub record TokenService : Type 1 where
  pub State : Type 0
  -- The ids of a user's tokens.
  pub fetch_otp_tokens : State → String → Option (List String)
  pub user_passkeys : State → String → Option (List String)
  pub remove_otp_token : State → String → TokenCall × State
  pub enable_otp_token : State → String → TokenCall × State
  pub disable_otp_token : State → String → TokenCall × State
  pub add_otp_token : State → String → Option String × State
  pub set_auth_types : State → String → List String → Bool × State
  -- revokeConnectedApp of server/hydra.go: a call of hydra.
  pub revoke_connected_app : String → String → Bool

-- What is shown: the list of tokens with a message, or an error.
pub data TokenAnswer : Type 0 where
  token_list : List String → Bool → Option String → TokenAnswer
  scan_page : String → TokenAnswer
  refused : ℕ → String → TokenAnswer

-- The parts of the Security page that are its own; sessions, activity and apps are lists of
-- Sessions.antt, Audit.antt and Hydra.antt.
pub record SecurityPage : Type 0 where
  pub otp_count : ℕ
  pub passkey_count : ℕ
  pub counts_known : Bool
  pub security_state : String
  pub message : Option String

-- The form of OTPTokenVerify.
pub record VerifyForm : Type 0 where
  pub otpcode : String
  pub uri : String
  pub uuid : String
  pub action : String

unfoldable pub security_state : Bool → ℕ → String
security_state otp_only otp_count =
    if otp_only then "protected" else if ltb 0 otp_count then "turn_on" else "password_only"

-- What the handlers are given; `validate` checks a code against the secret of a token's URI, and is
-- none for a URI that does not parse.
pub record Setting : Type 1 where
  pub ipa : TokenService
  pub methods : UserMethods
  pub otp_readonly_groups : List String
  pub accounts_require_mfa : Bool
  pub validate : String → Option (String → Bool)
  -- QRCode makes the picture of a token.
  pub qr_code : String → Option String

module _ (e : Setting) where
  -- `user` is the one of the request, as its handlers change it.
  pub record Desk : Type 0 where
    pub dir : e.ipa.State
    pub user : User
    pub effects : List Effect

  abbrev pub emit : Desk → Effect → Desk
  emit w x = record w { effects = w.effects ++ x ∷ [] }

  unfoldable pub otp_readonly : User → Bool
  otp_readonly user = any (λ group. e.methods.has_group user group) e.otp_readonly_groups

  -- RequireOTPSelfService in front of a handler.
  unfoldable pub require_otp_self_service : (Desk → Desk × TokenAnswer) → Desk → Desk × TokenAnswer
  unfolding otp_readonly
  require_otp_self_service next w =
      if otp_readonly w.user then (w, refused 403 "otptoken.readonly_notice") else next w

  -- tokenList
  unfoldable pub show_tokens : Desk → Option String → Desk × TokenAnswer
  unfolding otp_readonly
  show_tokens w message = elim (e.ipa.fetch_otp_tokens w.dir w.user.username) [
    | none ↦ (w, refused 500 "")
    | some tokens ↦ (w, token_list tokens (otp_readonly w.user) message)
  ]

  unfoldable pub answer_remove : TokenCall → Desk → Desk × TokenAnswer
  unfolding show_tokens
  answer_remove done w = show_tokens (emit w (mail "otp-token-removed" w.user.username)) none
  answer_remove last_token w =
      show_tokens w
        (some "You can't remove your last active token while Two-Factor auth is enabled")
  answer_remove call_failed w = show_tokens w (some "Failed to remove token")

  unfoldable pub otp_token_remove : Desk → String → Desk × TokenAnswer
  unfolding answer_remove
  otp_token_remove w uuid =
      let (result, dir) = e.ipa.remove_otp_token w.dir uuid in
      answer_remove result (record w { dir = dir })

  abbrev enable_message : TokenCall → Option String
  enable_message done = none
  enable_message last_token = some "Failed to enable token"
  enable_message call_failed = some "Failed to enable token"

  unfoldable pub otp_token_enable : Desk → String → Desk × TokenAnswer
  unfolding show_tokens
  otp_token_enable w uuid =
      let (result, dir) = e.ipa.enable_otp_token w.dir uuid in
      show_tokens (record w { dir = dir }) (enable_message result)

  abbrev disable_message : TokenCall → Option String
  disable_message done = none
  disable_message last_token =
      some "You can't disable your last active token while Two-Factor auth is enabled"
  disable_message call_failed = some "Failed to disable token"

  unfoldable pub otp_token_disable : Desk → String → Desk × TokenAnswer
  unfolding show_tokens
  otp_token_disable w uuid =
      let (result, dir) = e.ipa.disable_otp_token w.dir uuid in
      show_tokens (record w { dir = dir }) (disable_message result)

  unfoldable pub otp_token_add : Desk → String → Desk × TokenAnswer
  otp_token_add w desc =
      let (added, dir) = e.ipa.add_otp_token w.dir desc in
      let w' = record w { dir = dir } in
      elim added [
        | none ↦ (w', refused 500 "")
        | some token ↦ elim (e.qr_code token) [
          | none ↦ (w', refused 500 "")
          | some picture ↦ (w', scan_page picture)
        ]
      ]
