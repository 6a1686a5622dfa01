-- ===== src/Access.antt =====
-- server/access.go and server/ipa_access.go: which HBAC and sudo rules a user sees, and the
-- simulation of a login. The three calls run under the user's own session, and are parameters.
pub mod Laws
mod Tests
use mokey.Base.{
  Bool, List, Option, String, [], any, false, filter, if◌then◌else◌, leb, length, ltb, nat_eq, none,
  some, string_eq, true, ℕ, ◌&&◌, ◌==◌, ◌||◌,
}
use mokey.Text.{Text, byte_length, codes, trim_space}
use mokey.Directory.{User, member_of, meets}

pub record HbacRule : Type 0 where
  pub name : String
  pub description : String
  pub enabled : Bool
  pub user_category : String
  pub host_category : String
  pub service_category : String
  pub member_users : List String
  pub member_groups : List String
  pub member_hosts : List String
  pub member_hostgroups : List String
  pub member_services : List String

pub record SudoRule : Type 0 where
  pub name : String
  pub description : String
  pub enabled : Bool
  pub user_category : String
  pub host_category : String
  pub cmd_category : String
  pub member_users : List String
  pub member_groups : List String
  pub member_hosts : List String
  pub member_hostgroups : List String
  pub allow_commands : List String
  pub deny_commands : List String
  pub run_as_users : List String
  pub run_as_groups : List String

pub record HbacTestResult : Type 0 where
  pub granted : Bool
  pub matched : List String
  pub not_matched : List String

abbrev pub rule_size_limit : ℕ
rule_size_limit = 500

unfoldable pub rule_applies_to_user :
    String → List String → List String → String → List String → Bool
unfolding meets
rule_applies_to_user user_category member_users member_groups username user_groups =
    if user_category == "all"
    then true
    else if any (λ u. u == username) member_users
    then true
    else meets member_groups user_groups

-- The rules that are found, up to the limit, and whether there may be more.
pub record AccessService : Type 0 where
  pub find_hbac_rules : ℕ → Option (List HbacRule)
  pub find_sudo_rules : ℕ → Option (List SudoRule)
  pub run_hbac_test : String → Text → Text → Option HbacTestResult

pub record AccessPage : Type 0 where
  pub access_error : Bool
  pub access_truncated : Bool
  pub hbac_rules : List HbacRule
  pub sudo_rules : List SudoRule

abbrev pub error_page : AccessPage
error_page = record {
  access_error = true;
  access_truncated = false;
  hbac_rules = [];
  sudo_rules = [];
}

-- What the simulation shows.
pub data AccessAnswer : Type 0 where
  refused : ℕ → String → AccessAnswer
  shown : Bool → List String → Text → Text → AccessAnswer

module _ (ipa : AccessService) where
  unfoldable pub hbac_rule_find : Option (List HbacRule × Bool)
  hbac_rule_find = elim (ipa.find_hbac_rules rule_size_limit) [
    | none ↦ none
    | some rules ↦ some (rules, leb rule_size_limit (length rules))
  ]

  unfoldable pub sudo_rule_find : Option (List SudoRule × Bool)
  sudo_rule_find = elim (ipa.find_sudo_rules rule_size_limit) [
    | none ↦ none
    | some rules ↦ some (rules, leb rule_size_limit (length rules))
  ]

  unfoldable pub hbac_applies : User → HbacRule → Bool
  unfolding rule_applies_to_user member_of
  hbac_applies user rule =
      rule.enabled
      && rule_applies_to_user rule.user_category rule.member_users rule.member_groups user.username
          (member_of user)

  unfoldable pub sudo_applies : User → SudoRule → Bool
  unfolding rule_applies_to_user member_of
  sudo_applies user rule =
      rule.enabled
      && rule_applies_to_user rule.user_category rule.member_users rule.member_groups user.username
          (member_of user)

  unfoldable pub access_vars : User → AccessPage
  unfolding hbac_applies sudo_applies hbac_rule_find sudo_rule_find
  access_vars user = elim hbac_rule_find [
    | none ↦ error_page
    | some (hbac, hbac_truncated) ↦ elim sudo_rule_find [
      | none ↦ error_page
      | some (sudo, sudo_truncated) ↦ record {
        access_error = false;
        access_truncated = hbac_truncated || sudo_truncated;
        hbac_rules = filter (hbac_applies user) hbac;
        sudo_rules = filter (sudo_applies user) sudo;
      }
    ]
  ]

  -- The user name is the session's; host and service come from the form.
  unfoldable pub access_test : String → Text → Text → AccessAnswer
  unfolding trim_space
  access_test username form_host form_service =
      let host = trim_space form_host in
      let trimmed = trim_space form_service in
      let service = if length trimmed == 0 then codes "sshd" else trimmed in
      if length host == 0 || ltb 255 (byte_length host) || ltb 255 (byte_length service)
      then refused 400 "access.host_required"
      else elim (ipa.run_hbac_test username host service) [
        | none ↦ refused 500 "account.fatal_system_error"
        | some res ↦ shown res.granted res.matched host service
      ]
