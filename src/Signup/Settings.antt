-- ===== src/Signup/Settings.antt =====
-- server/account.go AccountSettings, the account page, and server/usernames.go UsernameForgot.
pub mod Laws
mod Tests
use mokey.Base.{
  Bool, List, Option, String, [], any, false, if◌then◌else◌, length, ltb, nat_eq, none, not, some,
  true, ◌&&◌, ◌==◌, ◌||◌, ◌∷◌,
}
use mokey.Text.{Text, byte_length, trim_space}
use mokey.Directory.{Effect, Response, audit, mail, render, status}
use mokey.Auth.{is_blocked, rejected}
use mokey.Phone.{join_phone, joined, rejected}
use mokey.Signup.{Account, NameRules, same_text, validate_email, admitted, declined, panics}

-- The fields of `ipa.User` that the page shows and changes.
pub record Profile : Type 0 where
  pub username : Text
  pub email : Text
  pub first : Text
  pub last : Text
  pub display_name : Text
  pub mobile : Text
  pub telephone_number : Text
  pub shell : Text

pub record SettingsForm : Type 0 where
  pub first : Text
  pub last : Text
  pub displayname : Text
  pub phone_cc : Text
  pub phone : Text
  pub telephone_cc : Text
  pub telephone : Text
  pub shell : Text
  pub email : Text

-- goipa's answer to `UserMod`: done, an IpaError, or another error.
pub data ModResult : Type 0 where
  saved mod_refused mod_failed : ModResult

-- What account.html shows.
pub data SettingsPage : Type 0 where
  form_page : SettingsPage
  message_page : String → SettingsPage
  success_page : Bool → SettingsPage

pub record PageRules : Type 0 where
  pub names : NameRules
  pub equal_fold : Text → Text → Bool
  pub allow_change_shell : Bool
  pub allowed_shells : List Text
  -- Whether the mail with the confirmation link goes out.
  pub sends_confirm : Profile → Text → Bool
  -- Whether the mail with the names goes out.
  pub sends_reminder : Text → List Text → Bool

pub record ProfileService : Type 1 where
  pub State : Type 0
  pub user_mod : State → Profile → ModResult × State
  -- user_find by mail: the users whose address contains it, with whether they are locked.
  pub user_find : State → Text → Option (List Account)

module _ (ipa : ProfileService) (rules : PageRules) where
  unfoldable pub new_shell : Profile → Text → Text
  unfolding trim_space
  new_shell user shell =
      if rules.allow_change_shell && any (λ s. same_text s (trim_space shell)) rules.allowed_shells
      then trim_space shell
      else user.shell

  -- The address that a change is asked for; none for the old one or an empty one.
  unfoldable pub requested_email : Profile → Text → Option Text
  unfolding trim_space
  requested_email user email =
      let new_email = trim_space (rules.names.to_lower email) in
      if length new_email == 0 || rules.equal_fold new_email user.email
      then none
      else some new_email

  -- validateEmail of a record with the address alone.
  unfoldable pub email_is_valid : Text → Bool
  unfolding validate_email
  email_is_valid email =
      elim (validate_email rules.names (record {
        username = [];
        email = email;
        first = [];
        last = [];
        category = "";
        locked = false;
      })) [ admitted u ↦ true | declined m ↦ false | panics ↦ false ]

  -- What is wrong with the changed profile.
  unfoldable pub check_profile : Profile → Option Text → Option String
  unfolding email_is_valid
  check_profile user new_email =
      if length user.first == 0 || length user.last == 0
      then some "Please provide a first and last name"
      else if ltb 150 (byte_length user.first) || ltb 150 (byte_length user.last)
      then some "First or Last name is too long. Maximum of 150 chars allowed"
      else elim new_email [
        | none ↦ none
        | some email ↦ if email_is_valid email then none else some "account.email_invalid"
      ]

  unfoldable pub answer_mod : ModResult → Profile → Option Text → List Effect × SettingsPage
  answer_mod mod_refused user new_email = ([], message_page "Failed to save account settings")
  answer_mod mod_failed user new_email = ([], message_page "account.fatal_system_error")
  answer_mod saved user new_email = elim new_email [
    | none ↦ ([], success_page false)
    | some email ↦
        if rules.sends_confirm user email
        then (
          mail "email-change-confirm" (rules.names.string_of email)
              ∷ audit "AUDIT email change requested" (rules.names.string_of user.username)
              ∷ [],
          success_page true,
        )
        else ([], message_page "account.email_change_send_failed")
  ]

  -- The profile that the form makes of the user's, with the two numbers.
  unfoldable pub changed_profile : Profile → SettingsForm → Text → Text → Profile
  unfolding new_shell trim_space
  changed_profile user form mobile telephone = record user {
    first = trim_space form.first;
    last = trim_space form.last;
    display_name = trim_space form.displayname;
    mobile = mobile;
    telephone_number = telephone;
    shell = new_shell user form.shell;
  }

  unfoldable pub save_profile :
      ipa.State → Profile → Option Text → (List Effect × SettingsPage) × ipa.State
  unfolding check_profile answer_mod
  save_profile dir user new_email = elim (check_profile user new_email) [
    | some message ↦ (([], message_page message), dir)
    | none ↦ let (result, dir') = ipa.user_mod dir user in (answer_mod result user new_email, dir')
  ]

  -- AccountSettings; none is the GET.
  unfoldable pub account_settings :
      ipa.State → Profile → Option SettingsForm → (List Effect × SettingsPage) × ipa.State
  unfolding join_phone changed_profile requested_email save_profile
  account_settings dir user posted = elim posted [
    | none ↦ (([], form_page), dir)
    | some form ↦ elim (join_phone form.phone_cc form.phone) [
      | rejected message ↦ (([], message_page message), dir)
      | joined mobile ↦ elim (join_phone form.telephone_cc form.telephone) [
        | rejected message ↦ (([], message_page message), dir)
        | joined telephone ↦
            save_profile dir (changed_profile user form mobile telephone)
              (requested_email user form.email)
      ]
    ]
  ]

  -- UsernameForgot: the names that are mailed.
  unfoldable pub names_of : Text → List Account → List Text
  unfolding is_blocked
  names_of email [] = []
  names_of email (u ∷ users) =
      let rest = names_of email users in
      if rules.equal_fold u.email email
        && not u.locked
        && not (is_blocked rules.names.block_users (rules.names.string_of u.username))
      then u.username ∷ rest
      else rest

  unfoldable pub forgotten_names : ipa.State → Text → List Text
  unfolding names_of trim_space
  forgotten_names dir typed =
      let email = trim_space (rules.names.to_lower typed) in
      if length email == 0 || not (rules.names.is_email email)
      then []
      else elim (ipa.user_find dir email) [ none ↦ [] | some users ↦ names_of email users ]

  -- UsernameForgot of a posted address; `captcha` is what verifyCaptcha found wrong.
  unfoldable pub username_forgot : ipa.State → Option String → Text → List Effect × Response
  unfolding forgotten_names
  username_forgot dir captcha typed = elim captcha [
    | some message ↦ ([], status 400 message)
    | none ↦
        let names = forgotten_names dir typed in
        let email = trim_space (rules.names.to_lower typed) in
        (
          (if length names == 0 || not (rules.sends_reminder email names)
              then []
              else mail "username-reminder" (rules.names.string_of email)
                ∷ audit "AUDIT Username reminder email sent" (rules.names.string_of email)
                ∷ []),
          render "username-forgot-success.html",
        )
  ]
