-- ===== src/Auth/Answers.antt =====
-- What the sign-in handlers give away, and what the sessions that they save are good for.
use mokey.Base.{
  Bool, Bool-cases, List, Option, String, ap, arith, concat, false, inl, inr, leb, nat_eq, refl,
  some, string_eq, subst, sym, true, ℕ, ◌==◌, ◌↔◌, ◌≡◌, ◌≢◌, ◌⊎◌,
}
use mokey.Auth.SignIn.{
  check_user, AuthConfig, AuthService, FormFor, absent, broken, check_found, login_form, name_only,
  Shown, pending, present, signed_in, whole, Middleware, World, authenticate, denied, refuse,
}
use mokey.Directory.{User, status, Response, redirect, render}
use mokey.Auth.{
  is_blocked, Session, is_logged_in, logged_in, password_changed_prefix, sess_get,
  session_invalidated_by_password_change, text,
}
use mokey.Storage.{Storage, Codec}
use mokey.Auth.Laws.{is_logged_in_iff}
use mokey.Sessions.{SessionEntry}

Shown-cases : (x : Shown) → (x ≡ broken) ⊎ ((x ≡ absent) ⊎ ((user : User) × (x ≡ present user)))
Shown-cases broken = inl refl
Shown-cases absent = inr (inl refl)
Shown-cases (present user) = inr (inr (user, refl))

module _ (ipa : AuthService) (cfg : AuthConfig) (ad_trust_username : String → Bool)
    (password_elsewhere : User → String) where
  -- With hidden user name errors, every name but the empty one and those of Active Directory is
  -- answered with a login form, as long as FreeIPA works: whether the account exists, is blocked or
  -- is locked.
  pub check_user_hidden :
      (username challenge : String)
      → cfg.hide_invalid_username_error ≡ true
      → (username == "") ≡ false
      → ad_trust_username username ≡ false
      → ipa.user_show username ≢ broken
      → (form : FormFor) × ((check_user ipa cfg ad_trust_username password_elsewhere username
            challenge).1
          ≡ login_form form challenge)
  unfolding check_user check_found
  check_user_hidden username challenge hidden named local works =
      elim (Bool-cases (is_blocked cfg.block_users username)) [
        | inl blocked ↦ (name_only username, ground arith)
        | inr free ↦ elim (Shown-cases (ipa.user_show username)) [
          | inl down ↦ absurd (works down)
          | inr (inl unknown) ↦ (name_only username, ground arith)
          | inr (inr (user, known)) ↦ (whole user, ground arith)
        ]
      ]

  -- A blocked name and an unknown one are then answered with the very same form.
  pub check_user_blocked_as_unknown :
      (username challenge : String)
      → cfg.hide_invalid_username_error ≡ true
      → (username == "") ≡ false
      → ad_trust_username username ≡ false
      → (is_blocked cfg.block_users username ≡ true) ⊎ (ipa.user_show username ≡ absent)
      → (check_user ipa cfg ad_trust_username password_elsewhere username challenge).1
        ≡ login_form (name_only username) challenge
  unfolding check_user
  check_user_blocked_as_unknown username challenge hidden named local (inl blocked) = ground arith
  check_user_blocked_as_unknown username challenge hidden named local (inr unknown) =
      elim (Bool-cases (is_blocked cfg.block_users username)) [
        | inl blocked ↦ ground arith
        | inr free ↦ ground arith
      ]

module _ {Bytes : Type 0} (db : Storage Bytes) (ints : Codec Bytes ℕ)
    (show_as : String → String → Option User) where
  -- The session that an expired password leaves is logged in at no time.
  pub pending_not_logged_in :
      (s : db.State) (t : ℕ) (sess : Session) (username u : String) (user : User)
      → is_logged_in db ints show_as s t (some (pending sess username)) ≢ logged_in u user
  unfolding sess_get
  pending_not_logged_in s t sess username u user h =
      let (named, keyed, authed, live) =
        (is_logged_in_iff db ints show_as s t (pending sess username) u user).0 h in
      absurd (ground arith)

  -- The session that a sign-in leaves is logged in, as the user that signed in, exactly while
  -- FreeIPA shows that user to its sid and no password change in a later second is marked.
  pub signed_in_logged_in :
      (s : db.State) (t now : ℕ) (sess : Session) (username sid u : String) (user : User)
      → (is_logged_in db ints show_as s t (some (signed_in sess username sid now))
          ≡ logged_in u user)
        ↔ ((u ≡ username)
            × (show_as sid username ≡ some user)
            × (session_invalidated_by_password_change db ints now
                  (db.get s t (concat password_changed_prefix username))
                ≡ false))
  unfolding sess_get
  signed_in_logged_in s t now sess username sid u user =
      let (only, back) =
        is_logged_in_iff db ints show_as s t (signed_in sess username sid now) u user in
      (
        λ h.
            let (named, (k, keyed, shown), authed, live) = only h in
            let same : u ≡ username = ground arith in
            let key : k ≡ sid = ground arith in
            (
              same,
              subst (λ x. show_as sid x ≡ some user) same
                  (subst (λ x. show_as x u ≡ some user) key shown),
              subst
                  (λ x.
                    session_invalidated_by_password_change db ints now
                      (db.get s t (concat password_changed_prefix x))
                    ≡ false)
                  same live,
            ),
        λ (same, shown, live). back (
          ap (λ x. some (text x)) (sym same),
          (sid, refl, subst (λ x. show_as sid x ≡ some user) (sym same) shown),
          refl,
          subst
              (λ x.
                session_invalidated_by_password_change db ints now
                  (db.get s t (concat password_changed_prefix x))
                ≡ false)
              (sym same) live,
        ),
      )

-- An answer with an error status.
abbrev pub is_refusal : Response → Bool
is_refusal (status code message) = leb 400 code
is_refusal (render page) = false
is_refusal (redirect target) = false

module _ {Bytes : Type 0} (db : Storage Bytes) (json : Codec Bytes (List SessionEntry))
    (fiber : Middleware db.State) (ipa : AuthService) (cfg : AuthConfig)
    (ad_trust_username : String → Bool) where
  -- A blocked user, whatever the password, and a password that FreeIPA denies are answered by an
  -- error, and the storage with its sessions stays as it was.
  pub authenticate_refused :
      (w : World db.State) (now : ℕ) (username password challenge otp : String) (htmx : Bool)
      (entry : SessionEntry)
      → (is_blocked cfg.block_users username ≡ true)
        ⊎ (ipa.remote_login username (concat password otp) ≡ denied)
      → ((authenticate db json fiber ipa cfg ad_trust_username w now username password challenge otp
            htmx entry).0.store
          ≡ w.store)
        × (is_refusal
              (authenticate db json fiber ipa cfg ad_trust_username w now username password
                challenge otp htmx entry).1
            ≡ true)
  unfolding authenticate refuse
  authenticate_refused w now username password challenge otp htmx entry (inl blocked) =
      (ground arith, ground arith)
  authenticate_refused w now username password challenge otp htmx entry (inr refused) =
      (ground arith, ground arith)
