-- ===== src/Signup/Staged.antt =====
-- server/account.go, stagedAccountCreate: what a staged sign-up leaves in FreeIPA.
use mokey.Base.{
  Option-cases, String, ap, arith, inl, inr, nat_eq, none, refl, string_eq, subst, sym, ◌∙◌, ◌≡◌,
}
use mokey.Signup.{Account, admitted, declined, panics}
use mokey.Signup.Create.{
  AccountService, AccountRules, AddResult, add_failed, added, answer_staged, name_of,
  password_rejected, staged_account_create, user_exists,
}

-- The staging tree is apart from the users.
abbrev pub IsStagingApart : AccountService → Type 0
IsStagingApart ipa =
    (s : ipa.State) (user : Account) (password : String) (n : String)
    → ipa.user_show (ipa.stage_user_add s user password).1 n ≡ ipa.user_show s n

pub admitted-eq : (a b : Account) → admitted a ≡ admitted b → a ≡ b
admitted-eq a b h = ap (λ v. elim v [ admitted u ↦ u | declined m ↦ a | panics ↦ a ]) h

module _ (ipa : AccountService) (rules : AccountRules) where
  answer_staged-dir :
      (r : AddResult) (dir : ipa.State) (user : Account)
      → (answer_staged ipa rules r dir user).1 ≡ dir
  unfolding answer_staged
  answer_staged-dir added dir user = refl
  answer_staged-dir user_exists dir user = refl
  answer_staged-dir password_rejected dir user = refl
  answer_staged-dir add_failed dir user = refl

  answer_staged-admitted :
      (r : AddResult) (dir : ipa.State) (user u : Account)
      → (answer_staged ipa rules r dir user).0 ≡ admitted u
      → user ≡ u
  unfolding answer_staged
  answer_staged-admitted added dir user u h = admitted-eq user u h
  answer_staged-admitted user_exists dir user u h = absurd (ground (arith, h))
  answer_staged-admitted password_rejected dir user u h = absurd (ground (arith, h))
  answer_staged-admitted add_failed dir user u h = absurd (ground (arith, h))

  pub staged-keeps :
      (apart : IsStagingApart ipa) (dir : ipa.State) (user : Account) (password n : String)
      → ipa.user_show (staged_account_create ipa rules dir user password).1 n ≡ ipa.user_show dir n
  unfolding staged_account_create
  staged-keeps apart dir user password n =
      elim (Option-cases (ipa.user_show dir (name_of ipa rules user))) [
        | inr (there, e) ↦ rw (staged_account_create, e) refl
        | inl free ↦
            let (result, dir') = ipa.stage_user_add dir user password in
            rw (staged_account_create, free)
              (ap (λ z. ipa.user_show z n) (answer_staged-dir result dir' user)
                ∙ apart dir user password n)
      ]

  -- A staged sign-up is admitted under its own account, whose name no user has.
  pub staged-free :
      (dir : ipa.State) (user u : Account) (password : String)
      → (staged_account_create ipa rules dir user password).0 ≡ admitted u
      → ipa.user_show dir (name_of ipa rules u) ≡ none
  unfolding staged_account_create
  staged-free dir user u password h =
      elim (Option-cases (ipa.user_show dir (name_of ipa rules user))) [
        | inr (there, e) ↦
            let same : staged_account_create ipa rules dir user password
                ≡ (declined "Username already exists", dir) =
              rw (staged_account_create, e) refl in
            absurd (ground (arith, sym (ap (λ z. z.0) same) ∙ h))
        | inl free ↦
            let (result, dir') = ipa.stage_user_add dir user password in
            let same : staged_account_create ipa rules dir user password
                ≡ answer_staged ipa rules result dir' user =
              rw (staged_account_create, free) refl in
            subst (λ z. ipa.user_show dir (name_of ipa rules z) ≡ none)
              (answer_staged-admitted result dir' user u (sym (ap (λ z. z.0) same) ∙ h)) free
      ]
