-- ===== src/Password/Policy/Tests.antt =====
-- A few passwords against small policies, and the theorems at them.
use mokey.Base.{false, length, nat_eq, none, refl, some, string_eq, true, ◌↔◌, ◌≡◌, ◌≤◌}
use mokey.Text.{codes, utf8_bytes}
use mokey.Lockout.{PwPolicy, pos, negsuc, pwquality}
use mokey.Password.Policy.{
  PasswordRules, check_password, check_pwquality, check_quality, classify, min_classes_of,
  min_length_of, num_categories, repeats, scan,
}
use mokey.Password.Policy.Bytes.{longest_run}
use mokey.Password.Policy.Classes.{score, num_categories-score}
use mokey.Password.Policy.Accepts.{policy_only_stricter, check_password_iff, check_pwquality_runs}
use mokey.Password.Policy.Runs.{has_run, longest_run_iff}

abbrev rules : PasswordRules
rules = record {
  config = record { min_passwd_len = 4; min_passwd_classes = 2; check_breached_passwords = false };
  to_lower = λ t. t;
  breached = λ p. none;
}

abbrev plain : PwPolicy
plain = record {
  min_length = 5;
  min_classes = 3;
  history_size = 0;
  max_life_days = 90;
  min_life_hours = 1;
  max_failure = pos 6;
  max_repeat = pos 0;
  max_sequence = pos 0;
  dict_check = false;
  user_check = false;
  digit_credit = pos 0;
  upper_credit = pos 0;
  lower_credit = pos 0;
  other_credit = pos 0;
}

abbrev strict : PwPolicy
strict = record plain {
  max_repeat = pos 2;
  max_sequence = pos 2;
  user_check = true;
  digit_credit = negsuc 0;
}

too_short : check_password rules (codes "aB1") "ann" none ≡ some "password.min_length"
unfolding check_password min_length_of
too_short = refl

one_class : check_password rules (codes "aaBBB") "ann" none ≡ some "password.policy_not_met"
unfolding check_password num_categories scan classify repeats min_classes_of min_length_of
one_class = refl

holds_the_name :
    check_password rules (codes "X-anne9z") "anne" (some strict) ≡ some "password.contains_username"
unfolding check_password num_categories scan classify repeats check_quality check_pwquality
holds_the_name = refl

longest_run_example :
    (3 ≤ longest_run (utf8_bytes (codes "xabcy")) (pos 1))
    ↔ (has_run (pos 1) 2 (utf8_bytes (codes "xabcy")) ≡ true)
longest_run_example = longest_run_iff (utf8_bytes (codes "xabcy")) (pos 1) 2

num_categories_example : num_categories (codes "aB1-ccc") ≡ score (codes "aB1-ccc")
num_categories_example = num_categories-score (codes "aB1-ccc")

passes_plain : check_password rules (codes "aB1-c") "ann" (some plain) ≡ none
unfolding check_password num_categories scan classify repeats check_quality min_classes_of
    min_length_of
passes_plain = refl

policy_only_stricter_example : check_password rules (codes "aB1-c") "ann" none ≡ none
policy_only_stricter_example = policy_only_stricter rules (codes "aB1-c") "ann" plain passes_plain

check_password_example : (check_password rules (codes "aB1-c") "ann" (some plain) ≡ none) ↔ (
    (4 ≤ length (codes "aB1-c"))
    × (5 ≤ length (codes "aB1-c"))
    × (2 ≤ score (codes "aB1-c"))
    × (3 ≤ score (codes "aB1-c")))
unfolding pwquality
check_password_example = check_password_iff rules (codes "aB1-c") "ann" plain refl

passes_strict : check_password rules (codes "aB1-cQz") "ann" (some strict) ≡ none
unfolding check_password check_quality
passes_strict = refl

check_pwquality_runs_example :
    (has_run (pos 0) 2 (utf8_bytes (codes "aB1-cQz")) ≡ false)
    × (has_run (pos 1) 2 (utf8_bytes (codes "aB1-cQz")) ≡ false)
    × (has_run (negsuc 0) 2 (utf8_bytes (codes "aB1-cQz")) ≡ false)
unfolding pwquality
check_pwquality_runs_example =
    check_pwquality_runs rules (codes "aB1-cQz") "ann" strict 1 1 refl refl refl passes_strict
