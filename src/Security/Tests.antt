-- ===== src/Security/Tests.antt =====
-- One user's tokens, and the theorems at concrete inputs.
use mokey.Base.{
  Bool, List, Option, String, [], arith, false, if◌then◌else◌, inl, nat_eq, none, refl, some,
  string_eq, true, ℕ, ◌+◌, ◌==◌, ◌∷◌, ◌≡◌, ◌≢◌, ◌⊎◌,
}
use mokey.Directory.{User, mail}
use mokey.Security.{
  Setting, Desk, TokenService, VerifyForm, done, last_token, otp_token_remove, token_list,
}
use mokey.Security.Switch.{
  otp_only_types, otp_token_verify, two_factor_disable, two_factor_enable, verified, wants_auto_mfa,
}
use mokey.Security.Laws.{
  failed_disable_announced, two_factor_enable_guarded, verified_announced, otp_token_verify_guarded,
}

-- The state counts the switches; `takes` is whether a switch is made.
abbrev service : Bool → TokenService
service takes = record {
  State = ℕ;
  fetch_otp_tokens = λ s u. some ("t1" ∷ []);
  user_passkeys = λ s u. some [];
  remove_otp_token = λ s uuid. (last_token, s);
  enable_otp_token = λ s uuid. (done, s);
  disable_otp_token = λ s uuid. (last_token, s);
  add_otp_token = λ s desc. (some "t2", s);
  set_auth_types = λ s u types. if takes then (true, s + 1) else (false, s);
  revoke_connected_app = λ u c. true;
}

-- OTPOnly: the user's one type is "otp".
abbrev only_otp : List String → Bool
only_otp [] = false
only_otp (t ∷ []) = t == "otp"
only_otp (t ∷ u ∷ types) = false

abbrev setting : Bool → Setting
setting takes = record {
  ipa = service takes;
  methods = record { otp_only = λ u. only_otp u.auth_types; has_group = λ u g. false };
  otp_readonly_groups = [];
  accounts_require_mfa = true;
  validate = λ uri. some (λ code. code == "123456");
  qr_code = λ t. some t;
}

abbrev ann : List String → User
ann types = record {
  username = "ann";
  email = "ann@x.org";
  groups = [];
  indirect_groups = [];
  auth_types = types;
  locked = false;
  passwd_expire = 0;
}

abbrev desk : (takes : Bool) → List String → Desk (setting takes)
desk takes types = record { dir = 0; user = ann types; effects = [] }

keeps_last :
    (otp_token_remove (setting true) (desk true ("otp" ∷ [])) "t1").1
    ≡ token_list
        ("t1" ∷ [])
        false
        (some "You can't remove your last active token while Two-Factor auth is enabled")
unfolding otp_token_remove
keeps_last = refl

failed_disable_announced_example :
    ((two_factor_disable (setting false) (desk false ("otp" ∷ []))).0.effects
      ≡ mail "mfa-disabled" "ann" ∷ [])
    × ((two_factor_disable (setting false) (desk false ("otp" ∷ []))).1.security_state
        ≢ "protected")
    × ((two_factor_disable (setting false) (desk false ("otp" ∷ []))).1.message
        ≡ some "Failed to disable Two-Factor authentication")
failed_disable_announced_example =
    failed_disable_announced (setting false) (desk false ("otp" ∷ [])) refl
      (λ u plain. rw plain refl)

switched_on : (two_factor_enable (setting true) (desk true [])).0.dir ≡ 1
unfolding two_factor_enable
switched_on = refl

two_factor_enable_example :
    (t : String) × (ts : List String) × (◌≡◌ {A = Option (List String)}
      (some ("t1" ∷ []))
      (some (t ∷ ts)))
two_factor_enable_example =
    two_factor_enable_guarded (setting true) (desk true [])
      (λ same. omega (arith, same, switched_on))

verified_announced_example :
    ((verified (setting true) (desk true [])).effects ≡ mail "mfa-enabled" "ann" ∷ [])
      × (wants_auto_mfa (setting true) (desk true []) ≡ true)
      × (((service true).set_auth_types 0 "ann" otp_only_types).0 ≡ true)
    ⊎ ((verified (setting true) (desk true [])).effects ≡ mail "otp-token-added" "ann" ∷ [])
      × ((wants_auto_mfa (setting true) (desk true []) ≡ false)
          ⊎ (((service true).set_auth_types 0 "ann" otp_only_types).0 ≡ false))
verified_announced_example = verified_announced (setting true) (desk true [])

abbrev form : VerifyForm
form = record { otpcode = "123456"; uri = "otpauth://totp/x"; uuid = "t1"; action = "" }

verified_dir : (otp_token_verify (setting true) (desk true []) form).0.dir ≡ 1
unfolding otp_token_verify
verified_dir = refl

otp_token_verify_example :
    (((form.action == "cancel") ≡ true) ⊎ ((setting true).validate form.uri ≡ none))
      × ((otp_token_verify (setting true) (desk true []) form).0.user ≡ ann [])
      × ((otp_token_verify (setting true) (desk true []) form).0.dir
          ≡ ((service true).remove_otp_token 0 "t1").1)
    ⊎ ((form.action == "cancel") ≡ false)
      × ((valid : String → Bool) × ((setting true).validate form.uri ≡ some valid)
          × (valid form.otpcode ≡ true))
      × (◌≡◌ {A = Bool} true true)
      × ((setting true).methods.otp_only (ann []) ≡ false)
      × ((t : String) × ((service true).fetch_otp_tokens 0 "ann" ≡ some (t ∷ [])))
      × ((otp_token_verify (setting true) (desk true []) form).0.dir
          ≡ ((service true).set_auth_types 0 "ann" otp_only_types).1)
      × (((otp_token_verify (setting true) (desk true []) form).0.user ≡ ann [])
          ⊎ (((service true).set_auth_types 0 "ann" otp_only_types).0 ≡ true))
otp_token_verify_example =
    otp_token_verify_guarded (setting true) (desk true []) form
      (inl (λ same. omega (arith, same, verified_dir)))
