-- ===== src/Password/Policy/Accepts.antt =====
-- Which passwords pass: the configured minimums, the policy's, and libpwquality's limits.
use mokey.Base.{
  Bool, Bool-cases, List, Option, String, [], arith, false, if◌then◌else◌, inl, inr, length, ltb,
  max, nat_eq, none, refl, some, string_eq, subst, suc, true, zero, ℕ, ◌↔◌, ◌∷◌, ◌≡◌, ◌≤◌,
}
use mokey.Text.{Text, utf8_bytes}
use mokey.Lockout.{PwPolicy, negsuc, pos, pwquality, positive, ℤ}
use mokey.Password.Policy.{
  PasswordRules, check_password, check_quality, min_classes_of, min_length_of, num_categories,
  check_pwquality, over, first_message, quality_tests,
}
use mokey.Password.Policy.Bytes.{longest_run}
use mokey.Password.Policy.Classes.{score, num_categories-score}
use mokey.Password.Policy.Runs.{has_run, longest_run_iff}
use mokey.Directory.Names.{At}

le_trans : {a b c : ℕ} → a ≤ b → b ≤ c → a ≤ c
le_trans p q = omega (arith, p, q)

-- A test that ends in a message was passed, and the rest too.
past :
    (test : Bool) (message : String) (rest : Option String)
    → (if test then some message else rest) ≡ none
    → (test ≡ false) × (rest ≡ none)
past true message rest h = absurd (ground arith)
past false message rest h = (refl, h)

-- Where no test returns its message, all were passed.
first_message-none :
    (tests : List (Bool × String)) (test : Bool) (message : String)
    → At (test, message) tests
    → first_message tests ≡ none
    → test ≡ false
first_message-none [] test message (i, e) h = absurd (ground arith)
first_message-none ((t, m) ∷ tests) test message (zero, e) h = elim (Bool-cases t) [
  | inl true_now ↦ absurd (ground (arith, true_now))
  | inr false_now ↦ ground (arith, false_now, e)
]
first_message-none ((t, m) ∷ tests) test message (suc i, e) h = elim (Bool-cases t) [
  | inl true_now ↦ absurd (ground (arith, true_now))
  | inr false_now ↦ first_message-none tests test message (i, e) (ground (arith, false_now, h))
]

over-le :
    (n : ℕ) (z : ℤ) (longest : ℕ)
    → z ≡ pos (suc n)
    → over (positive z) longest ≡ false
    → longest ≤ suc n
unfolding over
over-le n z longest limit h = ground (arith, limit)

not_more : (bs : List ℕ) (step : ℤ) (n : ℕ) → longest_run bs step ≤ n → has_run step n bs ≡ false
not_more bs step n h = ground (arith, longest_run_iff bs step n)

module _ (rules : PasswordRules) where
  check_password_past :
      (pass : Text) (username : String) (policy : Option PwPolicy)
      → check_password rules pass username policy ≡ none
      → (min_length_of rules.config policy ≤ length pass)
        × (min_classes_of rules.config policy ≤ score pass)
        × (check_quality rules pass username policy ≡ none)
  unfolding check_password
  check_password_past pass username policy h =
      let (long, rest) =
        past (ltb (length pass) (min_length_of rules.config policy)) "password.min_length" _ h in
      let (mixed, quality) =
        past (ltb (num_categories pass) (min_classes_of rules.config policy))
          "password.policy_not_met" _ rest in
      (ground (arith, long), rw (← num_categories-score pass) (ground (arith, mixed)), quality)

  check_password_passes :
      (pass : Text) (username : String) (policy : Option PwPolicy)
      → min_length_of rules.config policy ≤ length pass
      → min_classes_of rules.config policy ≤ num_categories pass
      → check_quality rules pass username policy ≡ none
      → check_password rules pass username policy ≡ none
  unfolding check_password
  check_password_passes pass username policy long mixed quality =
      let a : ltb (length pass) (min_length_of rules.config policy) ≡ false =
        ground (arith, long) in
      let b : ltb (num_categories pass) (min_classes_of rules.config policy) ≡ false =
        ground (arith, mixed) in
      rw (a, b, check_password) quality

  min_length_of-le :
      (p : PwPolicy) → rules.config.min_passwd_len ≤ min_length_of rules.config (some p)
  unfolding min_length_of
  min_length_of-le p = ground arith

  min_classes_of-le :
      (p : PwPolicy) → rules.config.min_passwd_classes ≤ min_classes_of rules.config (some p)
  unfolding min_classes_of
  min_classes_of-le p = ground arith

  -- A policy never lets a password pass that the configuration alone, as where the policy cannot be
  -- read, refuses.
  pub policy_only_stricter :
      (pass : Text) (username : String) (p : PwPolicy)
      → check_password rules pass username (some p) ≡ none
      → check_password rules pass username none ≡ none
  unfolding check_quality min_length_of min_classes_of
  policy_only_stricter pass username p h =
      let (long, mixed, quality) = check_password_past pass username (some p) h in
      check_password_passes pass username none (le_trans (min_length_of-le p) long)
        (le_trans (min_classes_of-le p) (rw (num_categories-score pass) mixed)) refl

  minimums :
      (p : PwPolicy) (long high : ℕ)
      → pwquality p ≡ false
      → ((min_length_of rules.config (some p) ≤ long)
          × (min_classes_of rules.config (some p) ≤ high))
        ↔ ((rules.config.min_passwd_len ≤ long)
            × (p.min_length ≤ long)
            × (rules.config.min_passwd_classes ≤ high)
            × (p.min_classes ≤ high))
  unfolding min_length_of min_classes_of
  minimums p long high plain = ground arith

  -- Under a policy without libpwquality's options a password passes exactly if it is as long, and
  -- its score as high, as both the configuration and the policy ask for.
  pub check_password_iff :
      (pass : Text) (username : String) (p : PwPolicy)
      → pwquality p ≡ false
      → (check_password rules pass username (some p) ≡ none) ↔ (
          (rules.config.min_passwd_len ≤ length pass)
          × (p.min_length ≤ length pass)
          × (rules.config.min_passwd_classes ≤ score pass)
          × (p.min_classes ≤ score pass))
  unfolding check_quality
  check_password_iff pass username p plain =
      let (only, back) = minimums p (length pass) (score pass) plain in
      (
        λ h.
            let (long, mixed, quality) = check_password_past pass username (some p) h in
            only (long, mixed),
        λ h.
            let (long, mixed) = back h in
            check_password_passes pass username (some p) long (rw (num_categories-score pass) mixed)
              (rw (plain, check_quality) refl),
      )

  -- Under a policy that limits repetitions and sequences, an accepted password holds no longer
  -- stretch of one byte, and no longer stretch of bytes that each rise, or each fall, by one.
  pub check_pwquality_runs :
      (pass : Text) (username : String) (p : PwPolicy) (n m : ℕ)
      → p.max_repeat ≡ pos (suc n)
      → p.max_sequence ≡ pos (suc m)
      → pwquality p ≡ true
      → check_password rules pass username (some p) ≡ none
      → (has_run (pos 0) (suc n) (utf8_bytes pass) ≡ false)
        × (has_run (pos 1) (suc m) (utf8_bytes pass) ≡ false)
        × (has_run (negsuc 0) (suc m) (utf8_bytes pass) ≡ false)
  unfolding check_quality check_pwquality quality_tests over
  check_pwquality_runs pass username p n m limit_repeat limit_sequence asked h =
      let (long, mixed, quality) = check_password_past pass username (some p) h in
      let q : check_pwquality rules pass username p ≡ none =
        subst (λ t. (if t then check_pwquality rules pass username p else none) ≡ none) asked
          quality in
      let few_repeats : over (positive p.max_repeat) (longest_run (utf8_bytes pass) (pos 0))
          ≡ false =
        first_message-none (quality_tests rules pass username p) _ "password.too_many_repeats"
          (6, refl) q in
      let rises_or_falls : over (positive p.max_sequence)
            (max (longest_run (utf8_bytes pass) (pos 1)) (longest_run (utf8_bytes pass) (negsuc 0)))
          ≡ false =
        first_message-none (quality_tests rules pass username p) _ "password.sequence" (7, refl)
          q in
      (
        not_more (utf8_bytes pass) (pos 0) (suc n)
            (over-le n p.max_repeat _ limit_repeat few_repeats),
        not_more (utf8_bytes pass) (pos 1) (suc m)
            (le_trans (omega arith) (over-le m p.max_sequence _ limit_sequence rises_or_falls)),
        not_more (utf8_bytes pass) (negsuc 0) (suc m)
            (le_trans (omega arith) (over-le m p.max_sequence _ limit_sequence rises_or_falls)),
      )
