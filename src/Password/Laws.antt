-- ===== src/Password/Laws.antt =====
-- Asking for a reset link tells nothing, and what a successful reset has done.
use mokey.Base.{
  Bool, Bool-cases, List, Option-cases, String, arith, false, inl, inr, nat_eq, none, refl, some,
  string_eq, ℕ, ◌&&◌, ◌==◌, ◌≡◌, ◌⊎◌,
}
use mokey.Storage.{Storage, Codec}
use mokey.Token.{
  Branca, Claims, Token, TokenConfig, mark_token_used, ok, parse_token, Outcome, TokenError, err,
}
use mokey.Password.{
  PasswordService, password_reset, ResetForm, World, answer_set, finish_reset, password_forgot,
  reset_target, set_new, token_password_reset, SetResult, invalid_password, password_set,
  policy_refused, set_failed, target, check_form,
}
use mokey.Directory.{UserMethods, User, render}
use mokey.Auth.{invalidate_user_sessions}
use mokey.Password.Policy.{PasswordRules}

pub Outcome-cases :
    (r : Outcome Token) → ((c : Token) × (r ≡ ok c)) ⊎ ((e : TokenError) × (r ≡ err e))
Outcome-cases (ok c) = inl (c, refl)
Outcome-cases (err e) = inr (e, refl)

module _ {Bytes : Type 0} (db : Storage Bytes) (json : Codec Bytes Claims) (ints : Codec Bytes ℕ)
    (b : Branca Bytes) (text : String → Bytes) (tokens : TokenConfig) (ipa : PasswordService)
    (methods : UserMethods) (rules : PasswordRules) (idle : ℕ) where
  -- A name is asked about: whether it is blocked, unknown, locked, without a FreeIPA password or
  -- sent a link, the answer is one and the same page.
  pub password_forgot_same :
      (ad_trust_username : String → Bool) (block_users : List String)
      (w : World db json ints b text tokens ipa methods rules idle) (username : String)
      → ad_trust_username username ≡ false
      → (password_forgot db json ints b text tokens ipa methods rules idle ad_trust_username
          block_users w none username).1
        ≡ render "password-forgot-success.html"
  unfolding password_forgot
  password_forgot_same ad_trust_username block_users w username local =
      elim (Option-cases (ipa.user_show w.dir username)) [
        | inl unknown ↦ ground arith
        | inr (user, known) ↦ ground arith
      ]

  -- The storage after a reset.
  abbrev pub after_reset : db.State → ℕ → String → Token → User → db.State
  after_reset s now token claims user =
      invalidate_user_sessions db ints idle
        (mark_token_used db json b text tokens s now token token_password_reset claims) now
        user.username

  answer_set-store :
      (r : SetResult) (w : World db json ints b text tokens ipa methods rules idle) (now : ℕ)
      (token : String) (claims : Token) (user : User)
      → (answer_set db json ints b text tokens ipa methods rules idle r w now token claims user).1
        ≡ render "password-reset-success.html"
      → (answer_set db json ints b text tokens ipa methods rules idle r w now token claims
          user).0.store
        ≡ after_reset w.store now token claims user
  unfolding answer_set finish_reset
  answer_set-store password_set w now token claims user done = refl
  answer_set-store policy_refused w now token claims user done = absurd (ground arith)
  answer_set-store invalid_password w now token claims user done = absurd (ground arith)
  answer_set-store set_failed w now token claims user done = absurd (ground arith)

  set_new-store :
      (w : World db json ints b text tokens ipa methods rules idle) (now : ℕ) (token : String)
      (claims : Token) (user : User) (form : ResetForm)
      → (set_new db json ints b text tokens ipa methods rules idle w now token claims user form).1
        ≡ render "password-reset-success.html"
      → (set_new db json ints b text tokens ipa methods rules idle w now token claims user
          form).0.store
        ≡ after_reset w.store now token claims user
  unfolding set_new
  set_new-store w now token claims user form done =
      elim (Option-cases (ipa.reset_password w.dir user.username).0) [
        | inl refused ↦ absurd (ground arith)
        | inr (temporary, given) ↦
            let dir = (ipa.reset_password w.dir user.username).1 in
            let (r, dir') = ipa.set_password dir user.username temporary form.password form.otp in
            rw (given, set_new)
              (answer_set-store r (record w { dir = dir' }) now token claims user (ground arith))
      ]

  -- A successful reset ran on a live link, with a form that passed the checks; then the link is
  -- marked as used and the user's sessions as outdated.
  pub reset_facts :
      (w : World db json ints b text tokens ipa methods rules idle) (now : ℕ) (token : String)
      (form : ResetForm) (claims : Token) (user : User)
      → reset_target db json ints b text tokens ipa methods rules idle w now token
        ≡ target claims user
      → (password_reset db json ints b text tokens ipa methods rules idle w now token (some form)).1
        ≡ render "password-reset-success.html"
      → (check_form ipa rules w.dir user.username form ≡ none)
        × ((password_reset db json ints b text tokens ipa methods rules idle w now token
              (some form)).0.store
            ≡ after_reset w.store now token claims user)
  unfolding password_reset
  reset_facts w now token form claims user aimed done =
      elim (Bool-cases (methods.otp_only user && form.otp == "")) [
        | inl code_missing ↦ absurd (ground arith)
        | inr complete ↦ elim (Option-cases (check_form ipa rules w.dir user.username form)) [
          | inl valid ↦ (
            valid,
            rw (aimed, complete, valid, password_reset)
                (set_new-store w now token claims user form (ground arith)),
          )
          | inr (message, wrong) ↦ absurd (ground arith)
        ]
      ]

  -- What a live link gives.
  pub target_facts :
      (w : World db json ints b text tokens ipa methods rules idle) (now : ℕ) (token : String)
      (claims : Token) (user : User)
      → reset_target db json ints b text tokens ipa methods rules idle w now token
        ≡ target claims user
      → parse_token db json b text tokens w.store now token token_password_reset ≡ ok claims
  unfolding reset_target
  target_facts w now token claims user h =
      elim (Outcome-cases
        (parse_token db json b text tokens w.store now token token_password_reset)) [
          | inr (e, dead) ↦ absurd (ground arith)
          | inl (c, live) ↦ elim (Option-cases (ipa.user_show w.dir c.username)) [
            | inl gone ↦ absurd (ground arith)
            | inr (found_user, shown) ↦ ground arith
          ]
        ]
