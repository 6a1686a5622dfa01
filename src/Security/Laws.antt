-- ===== src/Security/Laws.antt =====
-- What switches two-factor authentication, and what the user is told of it.
use mokey.Base.{
  Bool, Bool-cases, List, Option, Option-cases, String, [], ap, arith, false, inl, inr, ltb, nat_eq,
  none, refl, some, string_eq, sym, true, ℕ, ◌++◌, ◌==◌, ◌∙◌, ◌∷◌, ◌≡◌, ◌≢◌, ◌⊎◌,
}
use mokey.Directory.{User, mail}
use mokey.Security.{Setting, Desk, security_state, VerifyForm, show_tokens}
use mokey.Security.Switch.{
  finish_switch, otp_only_types, security_vars, two_factor_disable, two_factor_enable, verified,
  wants_auto_mfa, otp_token_verify,
}

-- A user without two-factor authentication is not shown as protected.
unprotected : (n : ℕ) → security_state false n ≢ "protected"
unfolding security_state
unprotected n h = elim (Bool-cases (ltb 0 n)) [
  | inl some_there ↦
      let e : security_state false n ≡ "turn_on" = rw (security_state, some_there) refl in
      ground (arith, ap (λ s. s == "protected") (sym e ∙ h))
  | inr none_there ↦
      let e : security_state false n ≡ "password_only" = rw (security_state, none_there) refl in
      ground (arith, ap (λ s. s == "protected") (sym e ∙ h))
]

module _ (e : Setting) where
  -- Where FreeIPA does not switch two-factor authentication off, and a user without authentication
  -- types is not OTP only, the user is told all the same, by mail and on the page, that it is off:
  -- the page shows a message and no protected account.
  pub failed_disable_announced :
      (w : Desk e)
      → (e.ipa.set_auth_types w.dir w.user.username []).0 ≡ false
      → ((u : User) → u.auth_types ≡ [] → e.methods.otp_only u ≡ false)
      → ((two_factor_disable e w).0.effects ≡ w.effects ++ mail "mfa-disabled" w.user.username ∷ [])
        × ((two_factor_disable e w).1.security_state ≢ "protected")
        × ((two_factor_disable e w).1.message ≡ some "Failed to disable Two-Factor authentication")
  unfolding two_factor_disable finish_switch security_vars security_state
  failed_disable_announced w failed_call plain =
      let off = plain (record w.user { auth_types = [] }) refl in
      (refl, rw off (unprotected _), rw failed_call refl)

  -- Two-factor authentication is switched on only for a user with a token, or by a right code.
  pub two_factor_enable_guarded :
      (w : Desk e)
      → (two_factor_enable e w).0.dir ≢ w.dir
      → (t : String) × (ts : List String) × (e.ipa.fetch_otp_tokens w.dir w.user.username
          ≡ some (t ∷ ts))
  unfolding two_factor_enable
  two_factor_enable_guarded w asked =
      elim (Option-cases (e.ipa.fetch_otp_tokens w.dir w.user.username)) [
        | inl unanswered ↦ absurd (asked (rw (two_factor_enable, unanswered) refl))
        | inr ([], none_there) ↦ absurd (asked (rw (two_factor_enable, none_there) refl))
        | inr (t ∷ ts, some_there) ↦ (t, ts, some_there)
      ]

  -- A right code is announced by exactly one mail, and by the one on two-factor authentication
  -- exactly where it was wanted and FreeIPA switched it on.
  pub verified_announced :
      (w : Desk e)
      → ((verified e w).effects ≡ w.effects ++ mail "mfa-enabled" w.user.username ∷ [])
          × (wants_auto_mfa e w ≡ true)
          × ((e.ipa.set_auth_types w.dir w.user.username otp_only_types).0 ≡ true)
        ⊎ ((verified e w).effects ≡ w.effects ++ mail "otp-token-added" w.user.username ∷ [])
          × ((wants_auto_mfa e w ≡ false)
              ⊎ ((e.ipa.set_auth_types w.dir w.user.username otp_only_types).0 ≡ false))
  unfolding verified
  verified_announced w = elim (Bool-cases (wants_auto_mfa e w)) [
    | inr unwanted ↦ rw (verified, unwanted) (inr (refl, inl refl))
    | inl wanted ↦ elim (Bool-cases (e.ipa.set_auth_types w.dir w.user.username otp_only_types).0) [
      | inl switched ↦ rw (verified, wanted, switched) (inl (refl, refl, refl))
      | inr stayed ↦ rw (verified, wanted, stayed) (inr (refl, inr refl))
    ]
  ]

  show_tokens-desk : (w : Desk e) (message : Option String) → (show_tokens e w message).0 ≡ w
  unfolding show_tokens
  show_tokens-desk w message = elim (Option-cases (e.ipa.fetch_otp_tokens w.dir w.user.username)) [
    | inl unanswered ↦ rw (show_tokens, unanswered) refl
    | inr (tokens, answered) ↦ rw (show_tokens, answered) refl
  ]

  show_tokens-dir : (w : Desk e) (message : Option String) → (show_tokens e w message).0.dir ≡ w.dir
  show_tokens-dir w message = ap (λ d. d.dir) (show_tokens-desk w message)

  -- What a right code makes of FreeIPA's state and of the user's record.
  verified_cases :
      (w : Desk e)
      → (((verified e w).dir ≡ w.dir) × ((verified e w).user ≡ w.user))
        ⊎ ((wants_auto_mfa e w ≡ true)
            × ((verified e w).dir ≡ (e.ipa.set_auth_types w.dir w.user.username otp_only_types).1)
            × (((verified e w).user ≡ w.user)
                ⊎ ((e.ipa.set_auth_types w.dir w.user.username otp_only_types).0 ≡ true)))
  unfolding verified
  verified_cases w = elim (Bool-cases (wants_auto_mfa e w)) [
    | inr unwanted ↦ inl (rw (verified, unwanted) (refl, refl))
    | inl wanted ↦ elim (Bool-cases (e.ipa.set_auth_types w.dir w.user.username otp_only_types).0) [
      | inl switched ↦ inr (rw (verified, wanted, switched) (refl, refl, inr refl))
      | inr stayed ↦ inr (rw (verified, wanted, stayed) (refl, refl, inl refl))
    ]
  ]

  wants_auto_mfa-true :
      (w : Desk e)
      → wants_auto_mfa e w ≡ true
      → (e.accounts_require_mfa ≡ true)
        × (e.methods.otp_only w.user ≡ false)
        × ((t : String) × (e.ipa.fetch_otp_tokens w.dir w.user.username ≡ some (t ∷ [])))
  unfolding wants_auto_mfa
  wants_auto_mfa-true w h = elim (Option-cases (e.ipa.fetch_otp_tokens w.dir w.user.username)) [
    | inl unanswered ↦ absurd (ground (arith, h, unanswered))
    | inr ([], none_there) ↦ absurd (ground (arith, h, none_there))
    | inr (t ∷ [], one) ↦ (ground (arith, h), ground (arith, h), (t, one))
    | inr (t ∷ u ∷ ts, more) ↦ absurd (ground (arith, h, more))
  ]

  -- Where verifying a token has changed FreeIPA or the user's record, either the form was cancelled
  -- or its URI is not a key, and the one change is FreeIPA's by the call that removes the token; or
  -- the code was right for the URI, two-factor authentication is required and was off so far, the
  -- user has exactly one token, FreeIPA's state is that after the one call that switches to
  -- passwords with codes, and the record is as before unless FreeIPA accepted that call.
  pub otp_token_verify_guarded :
      (w : Desk e) (form : VerifyForm)
      → ((otp_token_verify e w form).0.dir ≢ w.dir) ⊎ ((otp_token_verify e w form).0.user ≢ w.user)
      → (((form.action == "cancel") ≡ true) ⊎ (e.validate form.uri ≡ none))
          × ((otp_token_verify e w form).0.user ≡ w.user)
          × ((otp_token_verify e w form).0.dir ≡ (e.ipa.remove_otp_token w.dir form.uuid).1)
        ⊎ ((form.action == "cancel") ≡ false)
          × ((valid : String → Bool) × (e.validate form.uri ≡ some valid)
              × (valid form.otpcode ≡ true))
          × (e.accounts_require_mfa ≡ true)
          × (e.methods.otp_only w.user ≡ false)
          × ((t : String) × (e.ipa.fetch_otp_tokens w.dir w.user.username ≡ some (t ∷ [])))
          × ((otp_token_verify e w form).0.dir
              ≡ (e.ipa.set_auth_types w.dir w.user.username otp_only_types).1)
          × (((otp_token_verify e w form).0.user ≡ w.user)
              ⊎ ((e.ipa.set_auth_types w.dir w.user.username otp_only_types).0 ≡ true))
  unfolding otp_token_verify
  otp_token_verify_guarded w form altered = elim (Bool-cases (form.action == "cancel")) [
    | inl cancelled ↦ inl (
      inl cancelled,
      rw (otp_token_verify, cancelled) (ap (λ d. d.user) (show_tokens-desk _ none)),
      rw (otp_token_verify, cancelled) (show_tokens-dir _ none),
    )
    | inr submitted ↦ elim (Option-cases (e.validate form.uri)) [
      | inl unread ↦ inl (
        inr unread,
        rw (otp_token_verify, submitted, unread) (ap (λ d. d.user) (show_tokens-desk _ _)),
        rw (otp_token_verify, submitted, unread) (show_tokens-dir _ _),
      )
      | inr (valid, parsed) ↦ elim (Bool-cases (valid form.otpcode)) [
        | inr wrong ↦ absurd (elim altered [
          | inl h ↦ h (rw (otp_token_verify, submitted, parsed, wrong) refl)
          | inr h ↦ h (rw (otp_token_verify, submitted, parsed, wrong) refl)
        ])
        | inl right ↦
            let same : (otp_token_verify e w form).0 ≡ verified e w =
              rw (otp_token_verify, submitted, parsed, right) (show_tokens-desk _ none) in
            elim (verified_cases w) [
              | inl (dir_kept, user_kept) ↦ absurd (elim altered [
                | inl h ↦ h (ap (λ d. d.dir) same ∙ dir_kept)
                | inr h ↦ h (ap (λ d. d.user) same ∙ user_kept)
              ])
              | inr (wanted, set, recorded) ↦
                  let (required, off, one) = wants_auto_mfa-true w wanted in
                  inr (
                    submitted,
                    (valid, parsed, right),
                    required,
                    off,
                    one,
                    ap (λ d. d.dir) same ∙ set,
                    elim recorded [
                      | inl kept ↦ inl (ap (λ d. d.user) same ∙ kept)
                      | inr ok ↦ inr ok
                    ],
                  )
            ]
      ]
    ]
  ]
