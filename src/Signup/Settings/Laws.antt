-- ===== src/Signup/Settings/Laws.antt =====
-- What the account page can change, and which names are mailed.
use mokey.Base.{
  Bool-cases, List, Option, Option-cases, String, [], any, ap, arith, false, inl, inr, length, ltb,
  nat_eq, none, not, refl, some, subst, suc, sym, true, zero, ◌&&◌, ◌==◌, ◌||◌, ◌∙◌, ◌∷◌, ◌≡◌, ◌≢◌,
  ◌≤◌, ◌⊎◌,
}
use mokey.Text.{Text, byte_length, trim_space}
use mokey.Directory.Names.{At}
use mokey.Auth.{is_blocked, rejected}
use mokey.Phone.{Joined, join_phone, joined, rejected}
use mokey.Signup.{Account, same_text}
use mokey.Signup.Settings.{
  PageRules, Profile, ProfileService, SettingsForm, account_settings, changed_profile,
  check_profile, names_of, new_shell, requested_email, save_profile, forgotten_names,
}

Joined-cases : (j : Joined) → ((t : Text) × (j ≡ joined t)) ⊎ ((m : String) × (j ≡ rejected m))
Joined-cases (joined t) = inl (t, refl)
Joined-cases (rejected m) = inr (m, refl)

not-At-nil : (x : Text) → At x [] → ⊥
not-At-nil x (i, e) = ground (arith, e)

At-cons : (x y : Text) (ys : List Text) → At x (y ∷ ys) → (x ≡ y) ⊎ At x ys
At-cons x y ys (zero, e) = inl (ap (λ o. elim o [ none ↦ x | some z ↦ z ]) (sym e))
At-cons x y ys (suc i, e) = inr (i, e)

module _ (ipa : ProfileService) (rules : PageRules) where
  new_shell-allowed :
      (user : Profile) (shell : Text)
      → (new_shell ipa rules user shell ≡ user.shell)
        ⊎ (any (λ s. same_text s (new_shell ipa rules user shell)) rules.allowed_shells ≡ true)
  unfolding new_shell
  new_shell-allowed user shell =
      elim (Bool-cases (
        rules.allow_change_shell
        && any (λ s. same_text s (trim_space shell)) rules.allowed_shells)) [
          | inl allowed ↦ rw allowed (inr (ground (arith, allowed)))
          | inr kept ↦ rw kept (inl refl)
        ]

  check_profile-short :
      (user : Profile) (new_email : Option Text)
      → check_profile ipa rules user new_email ≡ none
      → (byte_length user.first ≤ 150) × (byte_length user.last ≤ 150)
  unfolding check_profile
  check_profile-short user new_email h =
      elim (Bool-cases (length user.first == 0 || length user.last == 0)) [
        | inl empty ↦
            let same : check_profile ipa rules user new_email
                ≡ some "Please provide a first and last name" =
              rw (check_profile, empty) refl in
            absurd (ground (arith, sym same ∙ h))
        | inr given ↦
            elim (Bool-cases
              (ltb 150 (byte_length user.first) || ltb 150 (byte_length user.last))) [
                | inl long ↦
                    let same : check_profile ipa rules user new_email
                        ≡ some "First or Last name is too long. Maximum of 150 chars allowed" =
                      rw (check_profile, given, long) refl in
                    absurd (ground (arith, sym same ∙ h))
                | inr short ↦ (ground (arith, short), ground (arith, short))
              ]
      ]

  -- Whatever is posted, the account page changes FreeIPA only by saving the user's profile under
  -- the same name and with the same mail address, with first and last name of at most 150 bytes,
  -- and with the old shell or an allowed one.
  pub settings_guarded :
      (dir : ipa.State) (user : Profile) (form : SettingsForm)
      → (account_settings ipa rules dir user (some form)).1 ≢ dir
      → (p : Profile) × ((account_settings ipa rules dir user (some form)).1
          ≡ (ipa.user_mod dir p).1)
        × (p.username ≡ user.username)
        × (p.email ≡ user.email)
        × (byte_length p.first ≤ 150)
        × (byte_length p.last ≤ 150)
        × ((p.shell ≡ user.shell) ⊎ (any (λ s. same_text s p.shell) rules.allowed_shells ≡ true))
  unfolding account_settings save_profile changed_profile
  settings_guarded dir user form altered =
      elim (Joined-cases (join_phone form.phone_cc form.phone)) [
        | inr (m, bad) ↦ absurd (altered (rw (account_settings, bad) refl))
        | inl (mobile, good) ↦ elim (Joined-cases (join_phone form.telephone_cc form.telephone)) [
          | inr (m, bad) ↦ absurd (altered (rw (account_settings, good, bad) refl))
          | inl (telephone, good') ↦
              let p = changed_profile ipa rules user form mobile telephone in
              elim (Option-cases
                (check_profile ipa rules p (requested_email ipa rules user form.email))) [
                  | inr (m, wrong) ↦
                      absurd
                        (altered (rw (account_settings, save_profile, good, good', wrong) refl))
                  | inl fine ↦
                      let (short, short') =
                        check_profile-short p (requested_email ipa rules user form.email) fine in
                      (
                        p,
                        rw (account_settings, save_profile, good, good', fine) refl,
                        refl,
                        refl,
                        short,
                        short',
                        new_shell-allowed user form.shell,
                      )
                ]
        ]
      ]

  names_of-At :
      (email name : Text) (users : List Account)
      → At name (names_of ipa rules email users)
      → (u : Account) × At u users
        × (name ≡ u.username)
        × (rules.equal_fold u.email email ≡ true)
        × (u.locked ≡ false)
        × (is_blocked rules.names.block_users (rules.names.string_of u.username) ≡ false)
  unfolding names_of
  names_of-At email name [] h = absurd (not-At-nil name h)
  names_of-At email name (u ∷ users) h =
      let good =
        rules.equal_fold u.email email
        && not u.locked
        && not (is_blocked rules.names.block_users (rules.names.string_of u.username)) in
      elim (Bool-cases good) [
        | inr bad ↦
            let same : names_of ipa rules email (u ∷ users) ≡ names_of ipa rules email users =
              rw (names_of, bad) refl in
            let (v, (i, e), a, b, c, d) = names_of-At email name users (subst (At name) same h) in
            (v, (suc i, e), a, b, c, d)
        | inl fine ↦
            let same : names_of ipa rules email (u ∷ users)
                ≡ u.username ∷ names_of ipa rules email users =
              rw (names_of, fine) refl in
            elim (At-cons name u.username (names_of ipa rules email users)
              (subst (At name) same h)) [
                | inl is_u ↦ (
                  u,
                  (0, refl),
                  is_u,
                  ground (arith, fine),
                  ground (arith, fine),
                  ground (arith, fine),
                )
                | inr there ↦
                    let (v, (i, e), a, b, c, d) = names_of-At email name users there in
                    (v, (suc i, e), a, b, c, d)
              ]
      ]

  -- A forgotten name that is mailed is the one of a user that FreeIPA found, with just the address
  -- that was typed, who is neither locked nor blocked.
  pub forgotten_names_guarded :
      (dir : ipa.State) (typed name : Text)
      → At name (forgotten_names ipa rules dir typed)
      → (users : List Account) × (u : Account) × (ipa.user_find dir
            (trim_space (rules.names.to_lower typed))
          ≡ some users)
        × At u users
        × (name ≡ u.username)
        × (rules.equal_fold u.email (trim_space (rules.names.to_lower typed)) ≡ true)
        × (u.locked ≡ false)
        × (is_blocked rules.names.block_users (rules.names.string_of u.username) ≡ false)
  unfolding forgotten_names
  forgotten_names_guarded dir typed name h =
      let email = trim_space (rules.names.to_lower typed) in
      elim (Bool-cases (length email == 0 || not (rules.names.is_email email))) [
        | inl unusable ↦
            let same : forgotten_names ipa rules dir typed ≡ [] =
              rw (forgotten_names, unusable) refl in
            absurd (not-At-nil name (subst (At name) same h))
        | inr usable ↦ elim (Option-cases (ipa.user_find dir email)) [
          | inl unanswered ↦
              let same : forgotten_names ipa rules dir typed ≡ [] =
                rw (forgotten_names, usable, unanswered) refl in
              absurd (not-At-nil name (subst (At name) same h))
          | inr (users, answered) ↦
              let same : forgotten_names ipa rules dir typed ≡ names_of ipa rules email users =
                rw (forgotten_names, usable, answered) refl in
              let (u, there, is_u, same_email, unlocked, free) =
                names_of-At email name users (subst (At name) same h) in
              (users, u, answered, there, is_u, same_email, unlocked, free)
        ]
      ]
