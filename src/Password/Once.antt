-- ===== src/Password/Once.antt =====
-- A reset link works once, and its use ends the user's sessions.
use package.text.Mathlib.TextLemmas.{cons-append}
use mokey.Base.{
  Bool-cases, List, Option, String, ap, arith, concat, eq_iff, false, head_code, inl, inr, nat_eq,
  refl, some, string_eq, subst, sym, ℕ, ◌+◌, ◌<◌, ◌==◌, ◌∙◌, ◌≡◌, ◌≢◌, ◌≤◌,
}
use mokey.Storage.{Storage, Codec, IsWorking}
use mokey.Directory.{User, Effect, UserMethods, render, status}
use mokey.Token.{
  Branca, IsSealing, parse_token, used_key, Claims, Token, TokenConfig, mark_token_used,
}
use mokey.Token.Laws.{single_use}
use mokey.Auth.{
  Session, as_time, invalidate_user_sessions, is_logged_in, logged_in, password_changed_prefix,
  sess_get, session_key_login_time, text,
}
use mokey.Auth.Expiry.{old_sessions_end}
use mokey.Password.{
  PasswordService, password_reset, ResetForm, World, reset_target, target, token_password_reset,
}
use mokey.Password.Laws.{reset_facts, target_facts, after_reset, Outcome-cases}
use mokey.Password.Policy.{PasswordRules}

-- The marker of password changes is none of the used links.
marker-apart :
    (u token : String)
    → (concat password_changed_prefix u == used_key token_password_reset token) ≡ false
unfolding used_key
marker-apart u token =
    elim (Bool-cases (concat password_changed_prefix u == used_key token_password_reset token)) [
      | inr differ ↦ differ
      | inl same ↦ absurd (
          omega (
            arith,
            rw (cons-append _ "wchanged-" u, cons-append _ "esetused-" token) at
                (ap head_code ((eq_iff _ _).0 same)),
          ))
    ]

module _ {Bytes : Type 0} (db : Storage Bytes) (json : Codec Bytes Claims) (ints : Codec Bytes ℕ)
    (b : Branca Bytes) (text : String → Bytes) (tokens : TokenConfig) (ipa : PasswordService)
    (methods : UserMethods) (rules : PasswordRules) (idle : ℕ) where
  parse-same :
      (s s' : db.State) (t : ℕ) (token prefix : String)
      → db.get s' t (used_key prefix token) ≡ db.get s t (used_key prefix token)
      → parse_token db json b text tokens s' t token prefix
        ≡ parse_token db json b text tokens s t token prefix
  unfolding parse_token
  parse-same s s' t token prefix h = rw h refl

  get-invalidate :
      (works : IsWorking db) (s : db.State) (now t : ℕ) (u token : String)
      → db.get
          (invalidate_user_sessions db ints idle s now u)
          t
          (used_key token_password_reset token)
        ≡ db.get s t (used_key token_password_reset token)
  unfolding invalidate_user_sessions
  get-invalidate works s now t u token =
      let (raw, m, um) = ints.roundtrip now in
      rw
        (
          m,
          works.get-set s now t (concat password_changed_prefix u)
              (used_key token_password_reset token) raw (idle + 60),
          marker-apart u token,
        )
        refl

  -- On a storage that answers, a reset link that has set a password before its age was reached is
  -- dead: whatever is done with it, and whatever FreeIPA says by then, the answer is 404 and
  -- nothing changes, at any time but the one second at which the mark of its use expires as its age
  -- is reached.
  pub reset_once :
      (works : IsWorking db) (seals : IsSealing b)
      (w : World db json ints b text tokens ipa methods rules idle) (now t' : ℕ) (token : String)
      (form : ResetForm) (claims : Token) (user : User) (dir : ipa.State) (effects : List Effect)
      (again : Option ResetForm)
      → reset_target db json ints b text tokens ipa methods rules idle w now token
        ≡ target claims user
      → (password_reset db json ints b text tokens ipa methods rules idle w now token (some form)).1
        ≡ render "password-reset-success.html"
      → now < claims.timestamp + tokens.token_max_age
      → t' ≢ claims.timestamp + tokens.token_max_age
      → password_reset db json ints b text tokens ipa methods rules idle
          (record {
            store =
                (password_reset db json ints b text tokens ipa methods rules idle w now token
                  (some form)).0.store;
            dir = dir;
            effects = effects;
          })
          t'
          token
          again
        ≡ (
          record {
            store =
                (password_reset db json ints b text tokens ipa methods rules idle w now token
                  (some form)).0.store;
            dir = dir;
            effects = effects;
          },
          status 404 "",
        )
  unfolding password_reset reset_target
  reset_once works seals w now t' token form claims user dir effects again aimed done young off =
      let s =
        (password_reset db json ints b text tokens ipa methods rules idle w now token
          (some form)).0.store in
      let (valid, stored) =
        reset_facts db json ints b text tokens ipa methods rules idle w now token form claims user
          aimed done in
      let s' =
        mark_token_used db json b text tokens w.store now token token_password_reset claims in
      let same : parse_token db json b text tokens s t' token token_password_reset
          ≡ parse_token db json b text tokens s' t' token token_password_reset =
        rw stored (
          parse-same s'
            (after_reset db json ints b text tokens ipa methods rules idle w.store now token claims
              user)
            t' token token_password_reset (get-invalidate works s' now t' user.username token)) in
      elim (Outcome-cases (parse_token db json b text tokens s t' token token_password_reset)) [
        | inl (c, live) ↦ absurd (
            single_use db json b text tokens works seals w.store now t' token_password_reset token
              claims c
              (target_facts db json ints b text tokens ipa methods rules idle w now token claims
                user aimed)
              young off (sym same ∙ live))
        | inr (e, dead) ↦ rw (password_reset, reset_target, dead) refl
      ]

  -- After it, a session of the user that was set up in an earlier second, and was last used no later
  -- than the reset, is not logged in any more, for as long as its idle timeout lets it live.
  pub reset_ends_sessions :
      (works : IsWorking db) (show_as : String → String → Option User)
      (w : World db json ints b text tokens ipa methods rules idle) (now t' last_used : ℕ)
      (token : String) (form : ResetForm) (claims : Token) (user shown : User) (sess : Session)
      → reset_target db json ints b text tokens ipa methods rules idle w now token
        ≡ target claims user
      → (password_reset db json ints b text tokens ipa methods rules idle w now token (some form)).1
        ≡ render "password-reset-success.html"
      → as_time (sess_get sess session_key_login_time) < now
      → last_used ≤ now
      → t' ≤ last_used + idle
      → is_logged_in db ints show_as
          (password_reset db json ints b text tokens ipa methods rules idle w now token
            (some form)).0.store
          t'
          (some sess)
        ≢ logged_in user.username shown
  reset_ends_sessions works show_as w now t' last_used token form claims user shown sess aimed done
        older used alive h =
      let (valid, stored) =
        reset_facts db json ints b text tokens ipa methods rules idle w now token form claims user
          aimed done in
      old_sessions_end db ints show_as works
        (mark_token_used db json b text tokens w.store now token token_password_reset claims) now t'
        last_used idle user.username sess shown older used alive
        (subst (λ s. is_logged_in db ints show_as s t' (some sess) ≡ logged_in user.username shown)
          stored h)
