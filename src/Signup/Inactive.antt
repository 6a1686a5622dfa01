-- ===== src/Signup/Inactive.antt =====
-- What a sign-up leaves in FreeIPA: nothing where it is refused, and no account that can sign in.
use mokey.Base.{
  Bool-cases, String, ap, arith, false, inl, inr, nat_eq, refl, some, string_eq, sym, true, ◌∙◌,
  ◌≡◌, ◌≢◌, ◌⊎◌,
}
use mokey.Signup.{Account, admitted, declined, validate_username}
use mokey.Signup.Create.{
  AccountService, AccountRules, name_of, staged_account_create, account_create, add_account,
  answer_added,
}
use mokey.Signup.Staged.{IsStagingApart, staged-keeps, staged-free}
use mokey.Signup.Added.{
  IsAdding, IsDisabling, asked_for, unknown_failure, account_create-cases, declined-keeps,
  added-locked,
}

module _ (ipa : AccountService) (rules : AccountRules) where
  -- With a FreeIPA that refuses a taken name without a change, that rejects a password only of a
  -- new name and adds nothing but that name, that takes away the name it deletes and no other, and
  -- that keeps staged users apart: a sign-up that is declined, other than with the message on an
  -- unknown failure of a direct sign-up, shows the same users as before, or else FreeIPA failed the
  -- call that deletes the account of the rejected password.
  pub refused_leaves_nothing :
      (works : IsAdding ipa rules) (apart : IsStagingApart ipa) (dir : ipa.State) (user : Account)
      (password password_confirm message n : String)
      → (account_create ipa rules dir user password password_confirm false).0 ≡ declined message
      → (message ≢ unknown_failure) ⊎ (rules.staged_signup ≡ true)
      → (ipa.user_show (account_create ipa rules dir user password password_confirm false).1 n
          ≡ ipa.user_show dir n)
        ⊎ ((named : Account) × (validate_username rules.names user ≡ admitted named)
            × ((ipa.user_delete
                  (ipa.user_add_with_password dir (asked_for named) password).1
                  (name_of ipa rules named)).0
                ≡ false))
  unfolding add_account
  refused_leaves_nothing works apart dir user password password_confirm message n h told =
      elim (account_create-cases ipa rules dir user password password_confirm) [
        | inl (kept, not_admitted) ↦ inl (ap (λ z. ipa.user_show z n) kept)
        | inr (named, e, same) ↦ elim (Bool-cases rules.staged_signup) [
          | inl to_stage ↦
              let staged : add_account ipa rules dir named password false
                  ≡ staged_account_create ipa rules dir (asked_for named) password =
                rw (add_account, to_stage) refl in
              inl (
                ap (λ z. ipa.user_show z.1 n) (same ∙ staged)
                ∙ staged-keeps ipa rules apart dir (asked_for named) password n)
          | inr direct ↦
              let added_now : add_account ipa rules dir named password false
                  ≡ answer_added ipa rules
                      (ipa.user_add_with_password dir (asked_for named) password).0
                      (ipa.user_add_with_password dir (asked_for named) password).1
                      (asked_for named) false =
                rw (add_account, direct) refl in
              let known : message ≢ unknown_failure = elim told [
                | inl other ↦ other
                | inr to_stage ↦ absurd (ground (arith, to_stage, direct))
              ] in
              elim (declined-keeps ipa rules works dir (asked_for named) password message n
                (sym (ap (λ z. z.0) (same ∙ added_now)) ∙ h) known) [
                  | inl kept ↦ inl (ap (λ z. ipa.user_show z.1 n) (same ∙ added_now) ∙ kept)
                  | inr undeleted ↦ inr (named, e, undeleted)
                ]
        ]
      ]

  -- With a FreeIPA that locks the account that it disables, where that call does not fail, and that
  -- keeps staged users apart: where FreeIPA shows an account under the name that a sign-up has
  -- made, sign-ups are not staged, and the account is locked, or else FreeIPA failed the call that
  -- disables it.
  pub signup_inactive :
      (disabling : IsDisabling ipa) (apart : IsStagingApart ipa) (dir : ipa.State)
      (user u shown : Account) (password password_confirm : String)
      → (account_create ipa rules dir user password password_confirm false).0 ≡ admitted u
      → ipa.user_show
          (account_create ipa rules dir user password password_confirm false).1
          (name_of ipa rules u)
        ≡ some shown
      → (rules.staged_signup ≡ false)
        × ((shown.locked ≡ true)
            ⊎ ((ipa.user_disable
                  (ipa.user_add_with_password dir u password).1
                  (name_of ipa rules u)).0
                ≡ false))
  unfolding add_account
  signup_inactive disabling apart dir user u shown password password_confirm h there =
      elim (account_create-cases ipa rules dir user password password_confirm) [
        | inl (kept, not_admitted) ↦ absurd (not_admitted u h)
        | inr (named, e, same) ↦ elim (Bool-cases rules.staged_signup) [
          | inl to_stage ↦
              let staged : add_account ipa rules dir named password false
                  ≡ staged_account_create ipa rules dir (asked_for named) password =
                rw (add_account, to_stage) refl in
              let free =
                staged-free ipa rules dir (asked_for named) u password
                  (sym (ap (λ z. z.0) (same ∙ staged)) ∙ h) in
              let left =
                ap (λ z. ipa.user_show z.1 (name_of ipa rules u)) (same ∙ staged)
                ∙ staged-keeps ipa rules apart dir (asked_for named) password
                    (name_of ipa rules u) in
              absurd (ground (arith, sym free ∙ (sym left ∙ there)))
          | inr direct ↦
              let added_now : add_account ipa rules dir named password false
                  ≡ answer_added ipa rules
                      (ipa.user_add_with_password dir (asked_for named) password).0
                      (ipa.user_add_with_password dir (asked_for named) password).1
                      (asked_for named) false =
                rw (add_account, direct) refl in
              (
                direct,
                added-locked ipa rules disabling dir (asked_for named) u shown password
                    (sym (ap (λ z. z.0) (same ∙ added_now)) ∙ h)
                    (sym (ap (λ z. ipa.user_show z.1 (name_of ipa rules u)) (same ∙ added_now))
                      ∙ there),
              )
        ]
      ]
