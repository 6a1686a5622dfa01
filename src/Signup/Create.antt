-- ===== src/Signup/Create.antt =====
-- server/account.go: AccountCreate, accountCreate and stagedAccountCreate. FreeIPA's answers are
-- parameters.
use mokey.Base.{
  Bool, List, Option, String, [], false, if◌then◌else◌, length, ltb, nat_eq, none, not, some,
  string_eq, ◌&&◌, ◌==◌, ◌||◌, ◌∷◌,
}
use mokey.Text.{byte_length}
use mokey.Directory.{Effect, Response, audit, mail, render, status}
use mokey.Lockout.{PolicyService, pw_policy_show}
use mokey.Password.Policy.{PasswordRules, validate_password}
use mokey.Signup.{Account, NameRules, Verdict, validate_username, admitted, declined, panics}

-- goipa's answers to adding a user or a stage user: ErrUserExists or IpaError 4002, ErrPasswordPolicy,
-- any other error.
pub data AddResult : Type 0 where
  added user_exists password_rejected add_failed : AddResult

pub record AccountService : Type 1 where
  pub State : Type 0
  pub policies : State → PolicyService
  pub user_show : State → String → Option Account
  pub stage_user_show : State → String → Option Account
  pub user_add_with_password : State → Account → String → AddResult × State
  pub user_delete : State → String → Bool × State
  pub user_disable : State → String → Bool × State
  pub user_enable : State → String → Bool × State
  pub user_mod : State → Account → Bool × State
  pub stage_user_add : State → Account → String → AddResult × State
  pub stage_user_set_category : State → String → String → Bool × State
  pub stage_user_activate : State → String → Bool × State

pub record AccountRules : Type 0 where
  pub names : NameRules
  pub passwords : PasswordRules
  pub staged_signup : Bool
  pub require_admin_verify : Bool

abbrev pub user_category_unverified : String
user_category_unverified = "mokey-user-unverified"

abbrev pub user_category_pending : String
user_category_pending = "mokey-user-pending"

module _ (ipa : AccountService) (rules : AccountRules) where
  abbrev pub name_of : Account → String
  name_of user = rules.names.string_of user.username

  unfoldable pub answer_staged : AddResult → ipa.State → Account → Verdict × ipa.State
  answer_staged added dir user = (admitted user, dir)
  answer_staged user_exists dir user = (declined "Username already exists", dir)
  answer_staged password_rejected dir user =
      (declined "Failed to create account. Please contact system administrator", dir)
  answer_staged add_failed dir user =
      (declined "Failed to create account. Please contact system administrator", dir)

  -- stagedAccountCreate
  unfoldable pub staged_account_create : ipa.State → Account → String → Verdict × ipa.State
  unfolding answer_staged
  staged_account_create dir user password = elim (ipa.user_show dir (name_of user)) [
    | some taken ↦ (declined "Username already exists", dir)
    | none ↦
        let (result, dir') = ipa.stage_user_add dir user password in answer_staged result dir' user
  ]

  -- After UserAddWithPassword: the account of a rejected password is deleted again, that of another
  -- error is not; a deletion or a disabling that fails is only logged.
  unfoldable pub answer_added : AddResult → ipa.State → Account → Bool → Verdict × ipa.State
  answer_added added dir user verified =
      (admitted user, (if verified then dir else (ipa.user_disable dir (name_of user)).1))
  answer_added user_exists dir user verified = (declined "Username already exists", dir)
  answer_added password_rejected dir user verified =
      (declined "password.rejected_by_policy", (ipa.user_delete dir (name_of user)).1)
  answer_added add_failed dir user verified =
      (declined "Failed to create account. Please contact system administrator", dir)

  -- accountCreate once everything is checked.
  unfoldable pub add_account : ipa.State → Account → String → Bool → Verdict × ipa.State
  unfolding staged_account_create answer_added
  add_account dir user password verified =
      let user' = if verified then user else record user { category = user_category_unverified } in
      let (result, dir') = ipa.user_add_with_password dir user' password in
      if not verified && rules.staged_signup
      then staged_account_create dir user' password
      else answer_added result dir' user' verified

  -- What is wrong with the person's names or the password, under the global policy.
  unfoldable pub check_account : ipa.State → Account → String → String → Option String
  unfolding pw_policy_show validate_password
  check_account dir user password password_confirm =
      if length user.first == 0 || length user.last == 0
      then some "Please provide your first and last name"
      else if ltb 150 (byte_length user.first)
      then some "First name is too long. Maximum of 150 chars allowed"
      else if ltb 150 (byte_length user.last)
      then some "Last name is too long. Maximum of 150 chars allowed"
      else validate_password rules.passwords password password_confirm (name_of user)
          (pw_policy_show (ipa.policies dir) "")

  unfoldable pub account_create : ipa.State → Account → String → String → Bool → Verdict × ipa.State
  unfolding validate_username check_account add_account
  account_create dir user password password_confirm verified =
      elim (validate_username rules.names user) [
        | panics ↦ (panics, dir)
        | declined message ↦ (declined message, dir)
        | admitted named ↦ elim (check_account dir named password password_confirm) [
          | some message ↦ (declined message, dir)
          | none ↦ add_account dir named password verified
        ]
      ]

  -- AccountCreate of a posted form; `captcha` is what verifyCaptcha found wrong, none as answer is a
  -- panic.
  unfoldable pub account_create_page :
      ipa.State
      → Option String
      → Account
      → String
      → String
      → (List Effect × Option Response) × ipa.State
  unfolding account_create
  account_create_page dir captcha user password password_confirm = elim captcha [
    | some message ↦ (([], some (status 400 message)), dir)
    | none ↦
        let (verdict, dir') = account_create dir user password password_confirm false in
        (
          elim verdict [
            | panics ↦ ([], none)
            | declined message ↦ ([], some (status 400 message))
            | admitted created ↦ (
              audit "AUDIT user account created successfully" (name_of created)
                  ∷ mail "account-verify" (name_of created)
                  ∷ [],
              some (render "signup-success.html"),
            )
          ],
          dir',
        )
  ]
