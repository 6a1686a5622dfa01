-- ===== src/Signup/Verify/Laws.antt =====
-- What a verification link is good for, how often, and who is sent one.
use mokey.Base.{
  Bool, Bool-cases, List, Option-cases, String, ap, arith, false, inl, inr, nat_eq, none, not, refl,
  some, string_eq, subst, sym, true, ℕ, ◌&&◌, ◌+◌, ◌<◌, ◌==◌, ◌∙◌, ◌≡◌, ◌≢◌, ◌⊎◌,
}
use mokey.Directory.{render, Effect, status}
use mokey.Token.{Token, mark_token_used, IsSealing, ok, parse_token}
use mokey.Signup.Verify.{
  Office, Setting, enable_legacy, settle_category, token_account_verify, verify_legacy_user,
  finish_account_verify, account_verify, failed_to_verify, resend_to, verify_staged_user,
}
use mokey.Password.Laws.{Outcome-cases}
use mokey.Signup.{Account}
use mokey.Storage.{IsWorking}
use mokey.Signup.Create.{user_category_unverified}
use mokey.Token.Laws.{single_use}

module _ (e : Setting) where
  verify_legacy-store :
      (w : Office e) (now : ℕ) (token : String) (claims : Token)
      → (verify_legacy_user e w now token claims).1 ≡ render "verify-success.html"
      → (verify_legacy_user e w now token claims).0.store
        ≡ mark_token_used e.db e.json e.branca e.text e.tokens w.store now token
            token_account_verify claims
  unfolding verify_legacy_user finish_account_verify
  verify_legacy-store w now token claims h =
      elim (Option-cases (e.ipa.user_show w.dir claims.claims.username)) [
        | inl gone ↦ absurd (ground (arith, h, gone))
        | inr (user, known) ↦
            let (enabled, dir) = enable_legacy e w.dir claims.claims.username user in
            let (settled, dir') = settle_category e dir user in
            elim (Bool-cases enabled) [
              | inr locked_still ↦ absurd (ground (arith, h, known, locked_still))
              | inl enabled_now ↦ elim (Bool-cases settled) [
                | inr unsettled ↦ absurd (ground (arith, h, known, enabled_now, unsettled))
                | inl done_now ↦ rw (verify_legacy_user, known, enabled_now, done_now) refl
              ]
            ]
      ]

  -- What a verification leaves in the storage.
  account_verify-store :
      (w : Office e) (now : ℕ) (token : String) (claims : Token)
      → parse_token e.db e.json e.branca e.text e.tokens w.store now token token_account_verify
        ≡ ok claims
      → (account_verify e w now token true).1 ≡ render "verify-success.html"
      → (account_verify e w now token true).0.store
        ≡ mark_token_used e.db e.json e.branca e.text e.tokens w.store now token
            token_account_verify claims
  unfolding account_verify finish_account_verify
  account_verify-store w now token claims live h = elim (Bool-cases e.rules.staged_signup) [
    | inr unstaged ↦
        let same : account_verify e w now token true ≡ verify_legacy_user e w now token claims =
          rw (account_verify, live, unstaged) refl in
        ap (λ z. z.0.store) same
        ∙ verify_legacy-store w now token claims (sym (ap (λ z. z.1) same) ∙ h)
    | inl staged ↦ elim (Option-cases (e.ipa.stage_user_show w.dir claims.claims.username)) [
      | inl gone ↦
          let same : account_verify e w now token true ≡ verify_legacy_user e w now token claims =
            rw (account_verify, live, staged, gone) refl in
          ap (λ z. z.0.store) same
          ∙ verify_legacy-store w now token claims (sym (ap (λ z. z.1) same) ∙ h)
      | inr (su, there) ↦
          let (worked, dir) = verify_staged_user e w.dir claims.claims.username su in
          elim (Bool-cases worked) [
            | inl done_now ↦ rw (account_verify, live, staged, there, done_now) refl
            | inr not_done ↦
                let same : (account_verify e w now token true).1 ≡ failed_to_verify e =
                  rw (account_verify, live, staged, there, not_done) refl in
                absurd (ground (arith, sym same ∙ h))
          ]
    ]
  ]

  -- On a storage that answers, a verification link that has worked before its age was reached is
  -- dead: whatever FreeIPA says by then, and whatever is done with it, the answer is 404 and
  -- nothing changes, at any time but the one second at which the mark of its use expires as its age
  -- is reached.
  pub verify_once :
      (works : IsWorking e.db) (seals : IsSealing e.branca) (w : Office e) (now t' : ℕ)
      (token : String) (claims : Token) (dir : e.ipa.State) (effects : List Effect) (posted : Bool)
      → parse_token e.db e.json e.branca e.text e.tokens w.store now token token_account_verify
        ≡ ok claims
      → (account_verify e w now token true).1 ≡ render "verify-success.html"
      → now < claims.timestamp + e.tokens.token_max_age
      → t' ≢ claims.timestamp + e.tokens.token_max_age
      → account_verify e
          (record {
            store = (account_verify e w now token true).0.store;
            dir = dir;
            effects = effects;
          })
          t'
          token
          posted
        ≡ (
          record {
            store = (account_verify e w now token true).0.store;
            dir = dir;
            effects = effects;
          },
          status 404 "",
        )
  unfolding account_verify
  verify_once works seals w now t' token claims dir effects posted live done_now young off =
      let stored = account_verify-store w now token claims live done_now in
      let s = (account_verify e w now token true).0.store in
      elim (Outcome-cases
        (parse_token e.db e.json e.branca e.text e.tokens s t' token token_account_verify)) [
          | inl (c, again) ↦ absurd (
              single_use e.db e.json e.branca e.text e.tokens works seals w.store now t'
                token_account_verify token claims c live young off
                (subst
                  (λ z.
                    parse_token e.db e.json e.branca e.text e.tokens z t' token token_account_verify
                    ≡ ok c)
                  stored again))
          | inr (x, dead) ↦ rw (account_verify, dead) refl
        ]

  -- A verification mail goes only to a sign-up that has not verified its address yet, in either tree.
  pub resend_guarded :
      (dir : e.ipa.State) (username : String) (user : Account)
      → resend_to e dir username ≡ some user
      → ((user.category == user_category_unverified) ≡ true)
        × ((e.ipa.user_show dir username ≡ some user)
            ⊎ (e.ipa.stage_user_show dir username ≡ some user))
  unfolding resend_to
  resend_guarded dir username user h = elim (Option-cases (e.ipa.user_show dir username)) [
    | inr (v, known) ↦ elim (Bool-cases (v.category == user_category_unverified)) [
      | inl unverified ↦ elim (Bool-cases (not v.locked && not e.rules.require_admin_verify)) [
        | inl active ↦
            let same : resend_to e dir username ≡ none = rw (resend_to, known, active) refl in
            absurd (ground (arith, sym same ∙ h))
        | inr inactive ↦
            let same : resend_to e dir username ≡ some v =
              rw (resend_to, known, inactive, unverified) refl in
            sent v user (sym same ∙ h) unverified (inl known)
      ]
      | inr settled ↦
          let same : resend_to e dir username ≡ none =
            rw (resend_to, known, settled)
              (elim (Bool-cases (not v.locked && not e.rules.require_admin_verify)) [
                | inl active ↦ rw active refl
                | inr inactive ↦ rw inactive refl
              ]) in
          absurd (ground (arith, sym same ∙ h))
    ]
    | inl unknown ↦ elim (Bool-cases e.rules.staged_signup) [
      | inr unstaged ↦
          let same : resend_to e dir username ≡ none = rw (resend_to, unknown, unstaged) refl in
          absurd (ground (arith, sym same ∙ h))
      | inl staged ↦ elim (Option-cases (e.ipa.stage_user_show dir username)) [
        | inl gone ↦
            let same : resend_to e dir username ≡ none =
              rw (resend_to, unknown, staged, gone) refl in
            absurd (ground (arith, sym same ∙ h))
        | inr (su, there) ↦ elim (Bool-cases (su.category == user_category_unverified)) [
          | inl unverified ↦
              let same : resend_to e dir username ≡ some su =
                rw (resend_to, unknown, staged, there, unverified) refl in
              sent su user (sym same ∙ h) unverified (inr there)
          | inr settled ↦
              let same : resend_to e dir username ≡ none =
                rw (resend_to, unknown, staged, there, settled) refl in
              absurd (ground (arith, sym same ∙ h))
        ]
      ]
    ]
  ]
    where
      sent :
          (a b : Account)
          → some a ≡ some b
          → (a.category == user_category_unverified) ≡ true
          → (e.ipa.user_show dir username ≡ some a) ⊎ (e.ipa.stage_user_show dir username ≡ some a)
          → ((b.category == user_category_unverified) ≡ true)
            × ((e.ipa.user_show dir username ≡ some b)
                ⊎ (e.ipa.stage_user_show dir username ≡ some b))
      sent a b same unverified where_from =
          subst
            (λ z.
              ((z.category == user_category_unverified) ≡ true)
              × ((e.ipa.user_show dir username ≡ some z)
                  ⊎ (e.ipa.stage_user_show dir username ≡ some z)))
            (ap (λ o. elim o [ none ↦ a | some x ↦ x ]) same) (unverified, where_from)

  -- Without staged sign-ups and the approval of admins, a valid verification link enables an
  -- account that is locked, where FreeIPA does so, even if its category says that it is no
  -- unverified sign-up.
  pub verify_enables_locked :
      (w : Office e) (now : ℕ) (token : String) (claims : Token) (user : Account)
      → parse_token e.db e.json e.branca e.text e.tokens w.store now token token_account_verify
        ≡ ok claims
      → e.rules.staged_signup ≡ false
      → e.rules.require_admin_verify ≡ false
      → e.ipa.user_show w.dir claims.claims.username ≡ some user
      → user.locked ≡ true
      → (user.category == user_category_unverified) ≡ false
      → (e.ipa.user_enable w.dir claims.claims.username).0 ≡ true
      → ((account_verify e w now token true).0.dir
          ≡ (e.ipa.user_enable w.dir claims.claims.username).1)
        × ((account_verify e w now token true).1 ≡ render "verify-success.html")
  unfolding account_verify verify_legacy_user enable_legacy settle_category finish_account_verify
  verify_enables_locked w now token claims user live unstaged unapproved known locked_now settled
        enabled =
      let same : account_verify e w now token true ≡ verify_legacy_user e w now token claims =
        rw (account_verify, live, unstaged) refl in
      (
        ap (λ z. z.0.dir) same
            ∙ rw
                (
                  verify_legacy_user, enable_legacy, settle_category, known, locked_now, unapproved,
                  settled, enabled,
                )
                refl,
        ap (λ z. z.1) same
            ∙ rw
                (
                  verify_legacy_user, enable_legacy, settle_category, known, locked_now, unapproved,
                  settled, enabled,
                )
                refl,
      )
