-- ===== src/Password/Policy.antt =====
-- server/password.go: the check of a new password, checkPassword, with the checks that FreeIPA
-- leaves to libpwquality, checkPwquality; and the forms' checks around it. A message is its key.
pub mod Bytes
pub mod Runs
pub mod Classes
pub mod Accepts
mod Tests
use mokey.Base.{
  Bool, List, Option, String, [], count, false, if◌then◌else◌, leb, length, ltb, map, max, min,
  nat_eq, none, not, reverse, some, string_eq, suc, true, ℕ, ◌&&◌, ◌+◌, ◌-◌, ◌==◌, ◌||◌, ◌∷◌,
}
use mokey.Password.Policy.Bytes.{bytes_equal, has_infix, longest_run}
use mokey.Text.{Text, codes, utf8_bytes}
use mokey.Lockout.{PwPolicy, pwquality, ℤ, pos, negsuc, positive}

abbrev pub is_digit : ℕ → Bool
is_digit r = leb 48 r && leb r 57

abbrev pub is_upper : ℕ → Bool
is_upper r = leb 65 r && leb r 90

abbrev pub is_lower : ℕ → Bool
is_lower r = leb 97 r && leb r 122

-- The flags and counters of the loop over the runes.
pub record Scan : Type 0 where
  pub has_digit : Bool
  pub has_upper : Bool
  pub has_lower : Bool
  pub has_special : Bool
  pub has_8bit : Bool
  pub num_repeated : ℕ
  pub max_repeated : ℕ

abbrev pub scan_start : Scan
scan_start = record {
  has_digit = false;
  has_upper = false;
  has_lower = false;
  has_special = false;
  has_8bit = false;
  num_repeated = 0;
  max_repeated = 0;
}

-- The `switch` on the rune's class.
unfoldable pub classify : ℕ → Scan → Scan
classify r st =
    if is_digit r
    then record st { has_digit = true }
    else if is_lower r
    then record st { has_lower = true }
    else if is_upper r
    then record st { has_upper = true }
    else if ltb r 128
    then record st { has_special = true }
    else record st { has_8bit = true }

-- Adjacent equal runes; `prev` is runes[i-1], none at the start.
unfoldable pub repeats : Option ℕ → ℕ → Scan → Scan
repeats none r st = record st { num_repeated = 0 }
repeats (some p) r st =
    let n = if p == r then st.num_repeated + 1 else 0 in
    record st { num_repeated = n; max_repeated = max st.max_repeated n }

unfoldable pub scan : Option ℕ → Scan → Text → Scan
unfolding classify repeats
scan prev st [] = st
scan prev st (r ∷ rs) = scan (some r) (repeats prev r (classify r st)) rs

abbrev pub one_if : Bool → ℕ
one_if b = if b then 1 else 0

-- The classes that are there, less one where a rune stands three times in a row.
unfoldable pub num_categories : Text → ℕ
unfolding scan
num_categories pass =
    let st = scan none scan_start pass in
    let n =
      one_if st.has_digit
      + one_if st.has_upper
      + one_if st.has_lower
      + one_if st.has_special
      + one_if st.has_8bit in
    if ltb 1 st.max_repeated then n - 1 else n

-- The settings `accounts.min_passwd_len` and `accounts.min_passwd_classes`.
pub record PasswordConfig : Type 0 where
  pub min_passwd_len : ℕ
  pub min_passwd_classes : ℕ
  pub check_breached_passwords : Bool

-- The stricter of the configured and the policy's minimum.
unfoldable pub min_length_of : PasswordConfig → Option PwPolicy → ℕ
unfolding pwquality
min_length_of cfg none = cfg.min_passwd_len
min_length_of cfg (some p) =
    if not (pwquality p) && ltb cfg.min_passwd_len p.min_length
    then p.min_length
    else cfg.min_passwd_len

unfoldable pub min_classes_of : PasswordConfig → Option PwPolicy → ℕ
min_classes_of cfg none = cfg.min_passwd_classes
min_classes_of cfg (some p) =
    if ltb cfg.min_passwd_classes p.min_classes then p.min_classes else cfg.min_passwd_classes

abbrev pub lower_byte : ℕ → ℕ
lower_byte b = if is_upper b then b + 32 else b

-- `count < -credit`
abbrev pub too_few : ℕ → ℤ → Bool
too_few n (pos c) = false
too_few n (negsuc c) = ltb n (suc c)

-- What a positive credit adds to the size.
abbrev pub credited : ℕ → ℤ → ℕ
credited n (pos c) = min n c
credited n (negsuc c) = 0

-- strings.ToLower, by Unicode's tables, and passwordBreached: none where the lookup failed.
pub record PasswordRules : Type 0 where
  pub config : PasswordConfig
  pub to_lower : Text → Text
  pub breached : String → Option Bool

abbrev pub is_other : ℕ → Bool
is_other b = not (is_digit b || is_upper b || is_lower b)

-- The length with the credits for the classes that have a positive one.
unfoldable pub credited_size : Text → PwPolicy → ℕ
unfolding utf8_bytes
credited_size pass p =
    let b = utf8_bytes pass in
    length pass
    + credited (count is_digit b) p.digit_credit
    + credited (count is_upper b) p.upper_credit
    + credited (count is_lower b) p.lower_credit
    + credited (count is_other b) p.other_credit

-- Whether the password holds the name, or the name backwards; `user` is the lowered name.
unfoldable pub has_username : PwPolicy → List ℕ → List ℕ → Bool
unfolding has_infix
has_username p mono user =
    p.user_check && leb 4 (length user) && (has_infix user mono || has_infix (reverse user) mono)

-- The longest run of equal bytes, and of rising or falling ones, against the policy's limits; 0 and
-- negative numbers set none.
unfoldable pub over : Option ℕ → ℕ → Bool
over none n = false
over (some limit) n = ltb limit n

-- Tests that each return their message, in order.
abbrev pub first_message : List (Bool × String) → Option String
first_message [] = none
first_message ((test, message) ∷ tests) = if test then some message else first_message tests

module _ (rules : PasswordRules) where
  unfoldable pub quality_tests : Text → String → PwPolicy → List (Bool × String)
  unfolding credited_size has_username bytes_equal longest_run over utf8_bytes
  quality_tests pass username p =
      let b = utf8_bytes pass in
      let mono = map lower_byte b in
      (too_few (count is_digit b) p.digit_credit, "password.too_few_digits")
      ∷ (too_few (count is_upper b) p.upper_credit, "password.too_few_upper")
      ∷ (too_few (count is_lower b) p.lower_credit, "password.too_few_lower")
      ∷ (too_few (count is_other b) p.other_credit, "password.too_few_special")
      ∷ (ltb (credited_size pass p) (max p.min_length 6), "password.min_length")
      ∷ (bytes_equal mono (reverse mono), "password.palindrome")
      ∷ (over (positive p.max_repeat) (longest_run b (pos 0)), "password.too_many_repeats")
      ∷ (
        over (positive p.max_sequence) (max (longest_run b (pos 1)) (longest_run b (negsuc 0))),
        "password.sequence",
      )
      ∷ (
        has_username p mono (utf8_bytes (rules.to_lower (codes username))),
        "password.contains_username",
      )
      ∷ []

  unfoldable pub check_pwquality : Text → String → PwPolicy → Option String
  unfolding quality_tests
  check_pwquality pass username p = first_message (quality_tests pass username p)

  -- libpwquality's checks, where the policy asks for them.
  unfoldable pub check_quality : Text → String → Option PwPolicy → Option String
  unfolding check_pwquality pwquality
  check_quality pass username none = none
  check_quality pass username (some p) =
      if pwquality p then check_pwquality pass username p else none

  unfoldable pub check_password : Text → String → Option PwPolicy → Option String
  unfolding check_quality num_categories min_length_of min_classes_of
  check_password pass username policy =
      if ltb (length pass) (min_length_of rules.config policy)
      then some "password.min_length"
      else if ltb (num_categories pass) (min_classes_of rules.config policy)
      then some "password.policy_not_met"
      else check_quality pass username policy

  -- An unreachable list of breached passwords does not stop a change.
  unfoldable pub breach_message : String → Option String
  breach_message password =
      if not rules.config.check_breached_passwords then none else elim (rules.breached password) [
        | none ↦ none
        | some found ↦ if found then some "password.breached" else none
      ]

  unfoldable pub validate_password : String → String → String → Option PwPolicy → Option String
  unfolding check_password breach_message
  validate_password password password_confirm username policy =
      if password == ""
      then some "password.enter_new"
      else if password_confirm == ""
      then some "password.confirm_new"
      else if not (password == password_confirm)
      then some "Password do not match. Please confirm your password."
      else elim (check_password (codes password) username policy) [
        | some message ↦ some message
        | none ↦ breach_message password
      ]

  unfoldable pub validate_password_change :
      String → String → String → String → Option PwPolicy → Option String
  unfolding validate_password
  validate_password_change password_current password password_confirm username policy =
      if password_current == ""
      then some "password.enter_current"
      else if password_current == password_confirm
      then some "password.same_as_new"
      else validate_password password password_confirm username policy
