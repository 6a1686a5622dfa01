-- ===== src/Password/Elsewhere.antt =====
-- server/password.go: which users have no FreeIPA password to change, by their ipauserauthtype.
use mokey.Base.{
  Bool, List, String, [], contains, false, filter, if◌then◌else◌, length, nat_eq, not, string_eq,
  ◌==◌, ◌||◌, ◌∷◌,
}

abbrev pub AuthTypes : Type 0
AuthTypes = List String

abbrev pub any_password : AuthTypes → Bool
any_password [] = false
any_password (t ∷ types) = t == "password" || t == "otp" || t == "hardened" || any_password types

-- usesFreeIPAPassword
unfoldable pub uses_free_ipa_password : AuthTypes → Bool
uses_free_ipa_password types = length types == 0 || any_password types

-- The types that count: the server's, if the user has none or it switches the users' off.
unfoldable pub effective_types : AuthTypes → AuthTypes → AuthTypes
effective_types types default_types =
    if length types == 0 || contains default_types "disabled"
    then filter (λ t. not (t == "disabled")) default_types
    else types

-- passwordElsewhere; "" for a user who has a FreeIPA password.
unfoldable pub password_elsewhere : AuthTypes → AuthTypes → String
unfolding uses_free_ipa_password effective_types
password_elsewhere types default_types =
    let effective = effective_types types default_types in
    if uses_free_ipa_password effective
    then ""
    else if contains effective "idp"
    then "password.managed_by_idp"
    else if contains effective "radius"
    then "password.managed_by_radius"
    else "password.not_used"
