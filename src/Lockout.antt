-- ===== src/Lockout.antt =====
-- server/lockout.go: the failed-login lockout and the password policy of a user. FreeIPA's
-- answers are parameters.
pub mod Laws
mod Tests
use mokey.Base.{
  Bool, List, Option, String, [], false, if◌then◌else◌, leb, max, nat_eq, none, not, some,
  string_eq, ℕ, ◌==◌, ◌||◌, ◌∷◌,
}

-- Go's int, on the numbers at hand.
pub data ℤ : Type 0 where
  pos : ℕ → ℤ
  negsuc : ℕ → ℤ

abbrev pub is_zero : ℤ → Bool
is_zero (pos n) = n == 0
is_zero (negsuc n) = false

-- The limit that a positive number sets.
abbrev pub positive : ℤ → Option ℕ
positive (pos n) = if n == 0 then none else some n
positive (negsuc n) = none

pub record PwPolicy : Type 0 where
  pub min_length : ℕ
  pub min_classes : ℕ
  pub history_size : ℕ
  pub max_life_days : ℕ
  pub min_life_hours : ℕ
  pub max_failure : ℤ
  pub max_repeat : ℤ
  pub max_sequence : ℤ
  pub dict_check : Bool
  pub user_check : Bool
  pub digit_credit : ℤ
  pub upper_credit : ℤ
  pub lower_credit : ℤ
  pub other_credit : ℤ

-- FreeIPA hands passwords to libpwquality once any of its options is set.
unfoldable pub pwquality : PwPolicy → Bool
pwquality p =
    not (is_zero p.max_repeat)
    || not (is_zero p.max_sequence)
    || p.dict_check
    || p.user_check
    || not (is_zero p.digit_credit)
    || not (is_zero p.upper_credit)
    || not (is_zero p.lower_credit)
    || not (is_zero p.other_credit)

-- The calls of goipa: the failed logins that each replica counts (`UserStatus`), and the policy.
pub record PolicyService : Type 0 where
  pub user_status : String → Option (List ℕ)
  pub user_pw_policy : String → Option PwPolicy
  pub global_pw_policy : Option PwPolicy

abbrev pub highest : ℕ → List ℕ → ℕ
highest failures [] = failures
highest failures (r ∷ replicas) = highest (max failures r) replicas

module _ (ipa : PolicyService) where
  unfoldable pub user_failed_logins : String → Option ℕ
  user_failed_logins username = elim (ipa.user_status username) [
    | none ↦ none
    | some replicas ↦ some (highest 0 replicas)
  ]

  unfoldable pub pw_policy_show : String → Option PwPolicy
  pw_policy_show username =
      if username == "" then ipa.global_pw_policy else ipa.user_pw_policy username

  unfoldable pub user_locked_out : String → Bool
  unfolding pw_policy_show user_failed_logins
  user_locked_out username = elim (pw_policy_show username) [
    | none ↦ false
    | some policy ↦ elim (positive policy.max_failure) [
      | none ↦ false
      | some max_fail ↦ elim (user_failed_logins username) [
        | none ↦ false
        | some failures ↦ leb max_fail failures
      ]
    ]
  ]
