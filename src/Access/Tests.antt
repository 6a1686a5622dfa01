-- ===== src/Access/Tests.antt =====
-- The access page of a user, with a rule for everybody and one for a nested group.
use mokey.Base.{
  String, [], false, inr, length, nat_eq, none, refl, some, string_eq, true, ◌↔◌, ◌∷◌, ◌≡◌, ◌≤◌,
  ◌⊎◌,
}
use mokey.Access.{
  HbacRule, rule_applies_to_user, SudoRule, access_vars, HbacTestResult, access_test, AccessService,
  hbac_rule_find, sudo_applies, sudo_rule_find,
}
use mokey.Directory.Names.{At}
use mokey.Directory.{User, meets, member_of}
use mokey.Access.Laws.{
  rule_applies_to_user_iff, access_vars_lem, access_vars_failed, access_test_lem,
}
use mokey.Text.{trim_space, byte_length, codes, is_space, rune_len}

abbrev everybody : HbacRule
everybody = record {
  name = "everybody";
  description = "";
  enabled = true;
  user_category = "all";
  host_category = "all";
  service_category = "all";
  member_users = [];
  member_groups = [];
  member_hosts = [];
  member_hostgroups = [];
  member_services = [];
}

abbrev retired : HbacRule
retired = record everybody { name = "retired"; enabled = false }

abbrev admins : SudoRule
admins = record {
  name = "admins";
  description = "";
  enabled = true;
  user_category = "";
  host_category = "all";
  cmd_category = "all";
  member_users = "eve" ∷ [];
  member_groups = "ops" ∷ [];
  member_hosts = [];
  member_hostgroups = [];
  allow_commands = [];
  deny_commands = [];
  run_as_users = [];
  run_as_groups = [];
}

abbrev granted_all : HbacTestResult
granted_all = record { granted = true; matched = "everybody" ∷ []; not_matched = [] }

abbrev service : AccessService
service = record {
  find_hbac_rules = λ n. some (everybody ∷ retired ∷ []);
  find_sudo_rules = λ n. some (admins ∷ []);
  run_hbac_test = λ u h s. some granted_all;
}

abbrev ann : User
ann = record {
  username = "ann";
  email = "ann@example.com";
  groups = "dev" ∷ [];
  indirect_groups = "ops" ∷ [];
  auth_types = [];
  locked = false;
  passwd_expire = 0;
}

ann_sudo : (access_vars service ann).sudo_rules ≡ admins ∷ []
unfolding access_vars hbac_rule_find sudo_rule_find sudo_applies rule_applies_to_user member_of
    meets
ann_sudo = refl

rule_applies_to_user_example :
    (rule_applies_to_user "" ("eve" ∷ []) ("ops" ∷ []) "ann" ("dev" ∷ "ops" ∷ []) ≡ true) ↔ (
      (◌≡◌ {A = String} "" "all")
      ⊎ (At {A = String} "ann" ("eve" ∷ [])
          ⊎ ((g : String) × At g ("ops" ∷ []) × At g ("dev" ∷ "ops" ∷ []))))
rule_applies_to_user_example =
    rule_applies_to_user_iff "" ("eve" ∷ []) ("ops" ∷ []) "ann" ("dev" ∷ "ops" ∷ [])

access_vars_example :
    (At retired (access_vars service ann).hbac_rules ↔ (
      At retired (everybody ∷ retired ∷ [])
      × (false ≡ true)
      × (rule_applies_to_user "all" [] [] "ann" (member_of ann) ≡ true)))
    × (At admins (access_vars service ann).sudo_rules ↔ (
        At admins (admins ∷ [])
        × (true ≡ true)
        × (rule_applies_to_user "" ("eve" ∷ []) ("ops" ∷ []) "ann" (member_of ann) ≡ true)))
access_vars_example =
    access_vars_lem service ann (everybody ∷ retired ∷ []) (admins ∷ []) retired admins refl refl

abbrev no_sudo : AccessService
no_sudo = record service { find_sudo_rules = λ n. none }

access_vars_failed_example :
    ((access_vars no_sudo ann).access_error ≡ true)
    × ((access_vars no_sudo ann).hbac_rules ≡ [])
    × ((access_vars no_sudo ann).sudo_rules ≡ [])
access_vars_failed_example = access_vars_failed no_sudo ann (inr refl)

access_test_example :
    ((res : HbacTestResult) × (service.run_hbac_test "ann" (codes "host") (codes "sshd") ≡ some res)
      × (res.granted ≡ true))
    × (1 ≤ length (codes "host"))
    × (byte_length (codes "host") ≤ 255)
    × (1 ≤ length (codes "sshd"))
    × (byte_length (codes "sshd") ≤ 255)
unfolding access_test trim_space is_space rune_len
access_test_example =
    access_test_lem service "ann" (codes " host ") (codes "") (codes "host") (codes "sshd") true
      ("everybody" ∷ []) refl
