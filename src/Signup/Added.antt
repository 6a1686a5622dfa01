-- ===== src/Signup/Added.antt =====
-- What FreeIPA does with the accounts of sign-ups, and what each step of a sign-up leaves there.
use mokey.Base.{
  Bool-cases, Option-cases, String, ap, arith, eq_iff, false, inl, inr, none, refl, some, string_eq,
  subst, sym, true, ◌==◌, ◌∙◌, ◌≡◌, ◌≢◌, ◌⊎◌,
}
use mokey.Signup.Laws.{Verdict-cases}
use mokey.Signup.{Account, admitted, declined, panics, validate_username, Verdict}
use mokey.Signup.Staged.{admitted-eq}
use mokey.Signup.Create.{
  AccountService, add_failed, password_rejected, user_exists, AccountRules, AddResult, added,
  answer_added, name_of, account_create, add_account, check_account, user_category_unverified,
}

-- The message of a sign-up that FreeIPA failed for any reason but the name or the password.
abbrev pub unknown_failure : String
unknown_failure = "Failed to create account. Please contact system administrator"

-- The account that a sign-up asks FreeIPA for.
abbrev pub asked_for : Account → Account
asked_for named = record named { category = user_category_unverified }

-- A user that is disabled is locked, where the call did not fail.
abbrev pub IsDisabling : AccountService → Type 0
IsDisabling ipa =
    (s : ipa.State) (name : String) (user : Account)
    → (ipa.user_disable s name).0 ≡ true
    → ipa.user_show (ipa.user_disable s name).1 name ≡ some user
    → user.locked ≡ true

-- A name that is taken is refused, and nothing changes. Where the password is rejected the name was
-- free, and no other name has changed; deleting a user takes away that name, where it did not fail.
-- Nothing is said of what any other failed addition leaves.
pub record IsAdding (ipa : AccountService) (rules : AccountRules) : Type 0 where
  pub taken :
      (s : ipa.State) (user : Account) (password : String) (n : String)
      → (ipa.user_add_with_password s user password).0 ≡ user_exists
      → ipa.user_show (ipa.user_add_with_password s user password).1 n ≡ ipa.user_show s n
  pub rejected_free :
      (s : ipa.State) (user : Account) (password : String)
      → (ipa.user_add_with_password s user password).0 ≡ password_rejected
      → ipa.user_show s (name_of ipa rules user) ≡ none
  pub rejected_others :
      (s : ipa.State) (user : Account) (password : String) (n : String)
      → (ipa.user_add_with_password s user password).0 ≡ password_rejected
      → (name_of ipa rules user == n) ≡ false
      → ipa.user_show (ipa.user_add_with_password s user password).1 n ≡ ipa.user_show s n
  pub deleted :
      (s : ipa.State) (name : String)
      → (ipa.user_delete s name).0 ≡ true
      → ipa.user_show (ipa.user_delete s name).1 name ≡ none
  pub deleted_others :
      (s : ipa.State) (name n : String)
      → (ipa.user_delete s name).0 ≡ true
      → (name == n) ≡ false
      → ipa.user_show (ipa.user_delete s name).1 n ≡ ipa.user_show s n

AddResult-cases :
    (r : AddResult)
    → (r ≡ added) ⊎ ((r ≡ user_exists) ⊎ ((r ≡ password_rejected) ⊎ (r ≡ add_failed)))
AddResult-cases added = inl refl
AddResult-cases user_exists = inr (inl refl)
AddResult-cases password_rejected = inr (inr (inl refl))
AddResult-cases add_failed = inr (inr (inr refl))

module _ (ipa : AccountService) (rules : AccountRules) where
  -- A checked sign-up adds the person whose names were admitted; any other changes nothing.
  pub account_create-cases :
      (dir : ipa.State) (user : Account) (password password_confirm : String)
      → (((account_create ipa rules dir user password password_confirm false).1 ≡ dir)
          × ((u : Account)
              → (account_create ipa rules dir user password password_confirm false).0 ≢ admitted u))
        ⊎ ((named : Account) × (validate_username rules.names user ≡ admitted named)
            × (account_create ipa rules dir user password password_confirm false
                ≡ add_account ipa rules dir named password false))
  unfolding account_create
  account_create-cases dir user password password_confirm =
      elim (Verdict-cases (validate_username rules.names user)) [
        | inr (inl (m, e)) ↦ inl (rw (account_create, e) (refl, λ u h. ground (arith, h)))
        | inr (inr e) ↦ inl (rw (account_create, e) (refl, λ u h. ground (arith, h)))
        | inl (named, e) ↦
            elim (Option-cases (check_account ipa rules dir named password password_confirm)) [
              | inr (m, wrong) ↦
                  inl (rw (account_create, e, wrong) (refl, λ u h. ground (arith, h)))
              | inl fine ↦ inr (named, e, rw (account_create, e, fine) refl)
            ]
      ]

  -- Deleting the account of a rejected password gives back the users that were there.
  rejected-undone :
      (works : IsAdding ipa rules) (dir : ipa.State) (user : Account) (password n : String)
      → (ipa.user_add_with_password dir user password).0 ≡ password_rejected
      → (ipa.user_delete
          (ipa.user_add_with_password dir user password).1
          (name_of ipa rules user)).0
        ≡ true
      → ipa.user_show
          (ipa.user_delete
            (ipa.user_add_with_password dir user password).1
            (name_of ipa rules user)).1
          n
        ≡ ipa.user_show dir n
  rejected-undone works dir user password n rejected gone =
      let name = name_of ipa rules user in
      let dir' = (ipa.user_add_with_password dir user password).1 in
      elim (Bool-cases (name == n)) [
        | inl same ↦
            subst (λ z. ipa.user_show (ipa.user_delete dir' name).1 z ≡ ipa.user_show dir z)
              ((eq_iff name n).0 same)
              (works.deleted dir' name gone ∙ sym (works.rejected_free dir user password rejected))
        | inr other ↦
            works.deleted_others dir' name n gone other
            ∙ works.rejected_others dir user password n rejected other
      ]

  pub declined-keeps :
      (works : IsAdding ipa rules) (dir : ipa.State) (user : Account) (password message n : String)
      → (answer_added ipa rules
          (ipa.user_add_with_password dir user password).0
          (ipa.user_add_with_password dir user password).1
          user
          false).0
        ≡ declined message
      → message ≢ unknown_failure
      → (ipa.user_show
            (answer_added ipa rules
              (ipa.user_add_with_password dir user password).0
              (ipa.user_add_with_password dir user password).1
              user
              false).1
            n
          ≡ ipa.user_show dir n)
        ⊎ ((ipa.user_delete
              (ipa.user_add_with_password dir user password).1
              (name_of ipa rules user)).0
            ≡ false)
  unfolding answer_added
  declined-keeps works dir user password message n h told =
      let (result, dir') = ipa.user_add_with_password dir user password in
      elim (AddResult-cases result) [
        | inl e ↦ absurd (
            ground (
              arith,
              subst (λ r. (answer_added ipa rules r dir' user false).0 ≡ declined message) e h,
            ))
        | inr (inl e) ↦ rw e (inl (works.taken dir user password n e))
        | inr (inr (inl e)) ↦ elim (Bool-cases (ipa.user_delete dir' (name_of ipa rules user)).0) [
          | inl gone ↦ rw e (inl (rejected-undone works dir user password n e gone))
          | inr kept ↦ inr kept
        ]
        | inr (inr (inr e)) ↦
            let same =
              subst (λ r. (answer_added ipa rules r dir' user false).0 ≡ declined message) e h in
            absurd (
              told (sym (ap (λ v. elim v [ declined m ↦ m | admitted u ↦ "" | panics ↦ "" ]) same)))
      ]

  pub added-locked :
      (disabling : IsDisabling ipa) (dir : ipa.State) (user u shown : Account) (password : String)
      → (answer_added ipa rules
          (ipa.user_add_with_password dir user password).0
          (ipa.user_add_with_password dir user password).1
          user
          false).0
        ≡ admitted u
      → ipa.user_show
          (answer_added ipa rules
            (ipa.user_add_with_password dir user password).0
            (ipa.user_add_with_password dir user password).1
            user
            false).1
          (name_of ipa rules u)
        ≡ some shown
      → (shown.locked ≡ true)
        ⊎ ((ipa.user_disable (ipa.user_add_with_password dir u password).1 (name_of ipa rules u)).0
            ≡ false)
  unfolding answer_added
  added-locked disabling dir user u shown password h there =
      let (result, dir') = ipa.user_add_with_password dir user password in
      let answer : AddResult → Verdict × ipa.State =
        λ r. answer_added ipa rules r dir' user false in
      elim (AddResult-cases result) [
        | inl e ↦
            let h' = subst (λ r. (answer r).0 ≡ admitted u) e h in
            let there' =
              subst (λ r. ipa.user_show (answer r).1 (name_of ipa rules u) ≡ some shown) e there in
            let same = admitted-eq user u h' in
            let shown_there =
              subst
                (λ z.
                  ipa.user_show (ipa.user_disable dir' (name_of ipa rules user)).1
                    (name_of ipa rules z)
                  ≡ some shown)
                (sym same) there' in
            elim (Bool-cases (ipa.user_disable dir' (name_of ipa rules user)).0) [
              | inl fine ↦ inl (disabling dir' (name_of ipa rules user) shown fine shown_there)
              | inr failed ↦ inr (
                  subst
                    (λ z.
                      (ipa.user_disable (ipa.user_add_with_password dir z password).1
                        (name_of ipa rules z)).0
                      ≡ false)
                    same failed)
            ]
        | inr (inl e) ↦ absurd (ground (arith, subst (λ r. (answer r).0 ≡ admitted u) e h))
        | inr (inr (inl e)) ↦ absurd (ground (arith, subst (λ r. (answer r).0 ≡ admitted u) e h))
        | inr (inr (inr e)) ↦ absurd (ground (arith, subst (λ r. (answer r).0 ≡ admitted u) e h))
      ]
