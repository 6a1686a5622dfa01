-- ===== src/Lockout/Laws.antt =====
-- When a user counts as locked out.
use mokey.Base.{
  List, Option-cases, String, [], any, arith, inl, inr, leb, max, nat_eq, refl, some, string_eq,
  suc, true, zero, ℕ, ◌||◌, ◌↔◌, ◌∷◌, ◌≡◌,
}
use mokey.Lockout.{
  highest, PolicyService, PwPolicy, pos, pw_policy_show, user_failed_logins, user_locked_out,
  negsuc, positive, ℤ,
}

highest-leb :
    (m failures : ℕ) (replicas : List ℕ)
    → leb m (highest failures replicas) ≡ (leb m failures || any (λ r. leb m r) replicas)
highest-leb m failures [] = ground arith
highest-leb m failures (r ∷ replicas) = ground (arith, highest-leb m (max failures r) replicas)

positive-some : (z : ℤ) (n : ℕ) → positive z ≡ some n → (m : ℕ) × (z ≡ pos (suc m)) × (n ≡ suc m)
positive-some (pos zero) n h = absurd (ground arith)
positive-some (pos (suc m)) n h = (m, refl, ground arith)
positive-some (negsuc k) n h = absurd (ground arith)

module _ (ipa : PolicyService) where
  -- A user is locked out exactly when there is a policy with a positive limit, the replicas
  -- answer, and one of them counts that many failed logins.
  pub user_locked_out_iff :
      (username : String)
      → (user_locked_out ipa username ≡ true) ↔ (
          (policy : PwPolicy) × (m : ℕ) × (replicas : List ℕ) × (pw_policy_show ipa username
            ≡ some policy)
          × (policy.max_failure ≡ pos (suc m))
          × (ipa.user_status username ≡ some replicas)
          × (any (λ r. leb (suc m) r) replicas ≡ true))
  unfolding user_locked_out user_failed_logins
  user_locked_out_iff username = (
    (λ h. elim (Option-cases (pw_policy_show ipa username)) [
      | inl unread ↦ absurd (ground arith)
      | inr (policy, read) ↦ elim (Option-cases (positive policy.max_failure)) [
        | inl off ↦ absurd (ground arith)
        | inr (limit, on) ↦ elim (Option-cases (ipa.user_status username)) [
          | inl unread ↦ absurd (ground arith)
          | inr (replicas, answered) ↦
              let (m, positive, same) = positive-some policy.max_failure limit on in
              let many : leb limit (highest 0 replicas) ≡ true = ground arith in
              (
                policy,
                m,
                replicas,
                read,
                positive,
                answered,
                ground (arith, highest-leb limit 0 replicas),
              )
        ]
      ]
    ]),
    λ (policy, m, replicas, read, limit, answered, many).
        ground (arith, highest-leb (suc m) 0 replicas),
  )
