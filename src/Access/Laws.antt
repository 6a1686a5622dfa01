-- ===== src/Access/Laws.antt =====
-- Which rules the access page shows, and what the simulation asks FreeIPA.
use mokey.Base.{
  Bool, Bool-cases, List, Option-cases, String, [], any, arith, eq_iff, if◌then◌else◌, inl, inr,
  length, nat_eq, none, refl, some, string_eq, subst, true, ◌==◌, ◌↔◌, ◌≡◌, ◌≤◌, ◌⊎◌,
}
use mokey.Directory.Names.{At, contains_iff, meets_iff, filter_iff}
use mokey.Access.{
  rule_applies_to_user, AccessService, HbacRule, HbacTestResult, SudoRule, access_test, access_vars,
  hbac_applies, hbac_rule_find, rule_size_limit, shown, sudo_applies, sudo_rule_find,
}
use mokey.Directory.{User, member_of}
use mokey.Text.{Text, byte_length, codes, trim_space}

-- A rule applies to a user exactly when it is for everybody, names the user, or names a group
-- that the user is in.
pub rule_applies_to_user_iff :
    (user_category : String) (member_users member_groups : List String) (username : String)
    (user_groups : List String)
    → (rule_applies_to_user user_category member_users member_groups username user_groups ≡ true)
      ↔ ((user_category ≡ "all")
          ⊎ (At username member_users ⊎ ((g : String) × At g member_groups × At g user_groups)))
unfolding rule_applies_to_user
rule_applies_to_user_iff cat users groups username user_groups = (
  λ h. elim (Bool-cases (cat == "all")) [
    | inl everybody ↦ inl ((eq_iff cat "all").0 everybody)
    | inr some_users ↦ elim (Bool-cases (any (λ u. u == username) users)) [
      | inl named ↦ inr (inl ((contains_iff username users).0 named))
      | inr unnamed ↦ inr (inr ((meets_iff groups user_groups).0 (ground arith)))
    ]
  ],
  λ h. elim h [
    | inl everybody ↦ ground (arith, eq_iff cat "all")
    | inr (inl named) ↦ ground (arith, (contains_iff username users).1 named)
    | inr (inr common) ↦ ground (arith, (meets_iff groups user_groups).1 common)
  ],
)

module _ (ipa : AccessService) where
  hbac_applies_iff :
      (user : User) (rule : HbacRule)
      → (hbac_applies ipa user rule ≡ true) ↔ (
          (rule.enabled ≡ true)
          × (rule_applies_to_user rule.user_category rule.member_users rule.member_groups
                user.username
                (member_of user)
              ≡ true))
  unfolding hbac_applies
  hbac_applies_iff user rule = ground arith

  sudo_applies_iff :
      (user : User) (rule : SudoRule)
      → (sudo_applies ipa user rule ≡ true) ↔ (
          (rule.enabled ≡ true)
          × (rule_applies_to_user rule.user_category rule.member_users rule.member_groups
                user.username
                (member_of user)
              ≡ true))
  unfolding sudo_applies
  sudo_applies_iff user rule = ground arith

  -- Where both searches answer, the page shows a rule exactly when it was found, is enabled, and
  -- applies to the user through the user's direct and nested groups.
  pub access_vars_lem :
      (user : User) (hbac : List HbacRule) (sudo : List SudoRule) (h : HbacRule) (r : SudoRule)
      → ipa.find_hbac_rules rule_size_limit ≡ some hbac
      → ipa.find_sudo_rules rule_size_limit ≡ some sudo
      → (At h (access_vars ipa user).hbac_rules ↔ (
          At h hbac
          × (h.enabled ≡ true)
          × (rule_applies_to_user h.user_category h.member_users h.member_groups user.username
                (member_of user)
              ≡ true)))
        × (At r (access_vars ipa user).sudo_rules ↔ (
            At r sudo
            × (r.enabled ≡ true)
            × (rule_applies_to_user r.user_category r.member_users r.member_groups user.username
                  (member_of user)
                ≡ true)))
  unfolding access_vars hbac_rule_find sudo_rule_find
  access_vars_lem user hbac sudo h r found_hbac found_sudo =
      let (hf, hb) = filter_iff (hbac_applies ipa user) h hbac in
      let (sf, sb) = filter_iff (sudo_applies ipa user) r sudo in
      let (ho, hi) = hbac_applies_iff user h in
      let (so, si) = sudo_applies_iff user r in
      rw (access_vars, hbac_rule_find, sudo_rule_find, found_hbac, found_sudo)
        (
          (λ k. let (p, q) = hf k in (p, (ho q).0, (ho q).1), λ (p, a, b). hb (p, hi (a, b))),
          (λ k. let (p, q) = sf k in (p, (so q).0, (so q).1), λ (p, a, b). sb (p, si (a, b))),
        )

  -- Where one of the searches fails, the page says so and shows no rule at all.
  pub access_vars_failed :
      (user : User)
      → (ipa.find_hbac_rules rule_size_limit ≡ none) ⊎ (ipa.find_sudo_rules rule_size_limit ≡ none)
      → ((access_vars ipa user).access_error ≡ true)
        × ((access_vars ipa user).hbac_rules ≡ [])
        × ((access_vars ipa user).sudo_rules ≡ [])
  unfolding access_vars hbac_rule_find sudo_rule_find
  access_vars_failed user (inl no_hbac) =
      rw (access_vars, hbac_rule_find, no_hbac) (refl, refl, refl)
  access_vars_failed user (inr no_sudo) =
      elim (Option-cases (ipa.find_hbac_rules rule_size_limit)) [
        | inl no_hbac ↦ rw (access_vars, hbac_rule_find, no_hbac) (refl, refl, refl)
        | inr (rules, found) ↦
            rw (access_vars, hbac_rule_find, sudo_rule_find, found, no_sudo) (refl, refl, refl)
      ]

  -- A simulation that is shown was run by FreeIPA for the user of the session, on a host and a
  -- service of 1 to 255 byte_length, and shows FreeIPA's verdict.
  pub access_test_lem :
      (username : String) (form_host form_service host service : Text) (granted : Bool)
      (matched : List String)
      → access_test ipa username form_host form_service ≡ shown granted matched host service
      → ((res : HbacTestResult) × (ipa.run_hbac_test username host service ≡ some res)
          × (res.granted ≡ granted))
        × (1 ≤ length host)
        × (byte_length host ≤ 255)
        × (1 ≤ length service)
        × (byte_length service ≤ 255)
  unfolding access_test
  access_test_lem username form_host form_service host service granted matched h =
      let trimmed = trim_space form_service in
      let host' = trim_space form_host in
      let service' = if length trimmed == 0 then codes "sshd" else trimmed in
      elim (Option-cases (ipa.run_hbac_test username host' service')) [
        | inl gone ↦ absurd (ground arith)
        | inr (res, verdict) ↦
            let some_service : 1 ≤ length service' = elim (Bool-cases (length trimmed == 0)) [
              | inl empty ↦ rw empty (omega arith)
              | inr full ↦ rw full (ground arith)
            ] in
            let named : service' ≡ service = ground arith in
            (
              (res, ground arith, ground arith),
              ground arith,
              ground arith,
              subst (λ s. 1 ≤ length s) named some_service,
              ground arith,
            )
      ]
