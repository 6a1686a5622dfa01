-- ===== src/Password/Change/Steps.antt =====
-- server/password.go, PasswordChange: the steps of a successful change.
use mokey.Base.{
  Bool-cases, Option, Option-cases, String, ap, arith, concat, inl, inr, nat_eq, none, refl, some,
  string_eq, sym, ℕ, ◌&&◌, ◌+◌, ◌<◌, ◌==◌, ◌∙◌, ◌≡◌, ◌≢◌,
}
use mokey.Storage.{Storage, Codec}
use mokey.Directory.{User}
use mokey.Auth.{
  Session, is_logged_in, logged_in, password_changed_prefix, int64, sess_set,
  session_key_login_time,
}
use mokey.Auth.Laws.{is_logged_in_iff}
use mokey.Password.Change.{
  Setting, ChangeResult, ChangeForm, Site, password_change, managed_by, checked, finish_change,
  answer_change, changed, success_page, turned_down, unanswered, refresh_session,
}

module _ {Bytes : Type 0} (db : Storage Bytes) (ints : Codec Bytes ℕ)
    (show_as : String → String → Option User) where
  -- Whether a session is logged in hangs on the marker alone.
  pub logged_in-marker :
      (s s' : db.State) (t : ℕ) (sess : Session) (username : String) (user : User)
      → db.get s t (concat password_changed_prefix username)
        ≡ db.get s' t (concat password_changed_prefix username)
      → is_logged_in db ints show_as s t (some sess) ≡ logged_in username user
      → is_logged_in db ints show_as s' t (some sess) ≡ logged_in username user
  logged_in-marker s s' t sess username user same h =
      let (named, keyed, authed, live) =
        (is_logged_in_iff db ints show_as s t sess username user).0 h in
      (is_logged_in_iff db ints show_as s' t sess username user).1
        (named, keyed, authed, rw (← same) live)

module _ (e : Setting) where
  answer_change-success :
      (r : ChangeResult) (site : Site e) (now later : ℕ) (user : User)
      → (answer_change e r site now later user).1 ≡ success_page
      → (answer_change e r site now later user).0.world ≡ finish_change e site.world now later user
  unfolding answer_change
  answer_change-success changed site now later user h = refl
  answer_change-success (turned_down message) site now later user h = absurd (ground (arith, h))
  answer_change-success unanswered site now later user h = absurd (ground (arith, h))

  pub password_change-success :
      (site : Site e) (now later : ℕ) (user : User) (form : ChangeForm)
      → (password_change e site now later user (some form)).1 ≡ success_page
      → (password_change e site now later user (some form)).0.world
        ≡ finish_change e site.world now later user
  unfolding password_change
  password_change-success site now later user form h =
      elim (Bool-cases (managed_by e site.dir user == "")) [
        | inl here ↦ elim (Bool-cases (e.methods.otp_only user && form.otp == "")) [
          | inl asked ↦ absurd (ground (arith, h))
          | inr given ↦ elim (Option-cases (checked e site.dir user form)) [
            | inl fine ↦
                let (result, dir) =
                  e.service.change_password site.dir user.username form.password form.newpassword
                    form.otp in
                let same : password_change e site now later user (some form)
                    ≡ answer_change e result (record site { dir = dir }) now later user =
                  rw (here, given, fine) refl in
                ap (λ z. z.0.world) same
                ∙ answer_change-success result (record site { dir = dir }) now later user
                    (sym (ap (λ z. z.1) same) ∙ h)
            | inr (wrong, faulty) ↦ absurd (ground (arith, h))
          ]
        ]
        | inr elsewhere ↦ absurd (ground (arith, h))
      ]

  -- The session that the middleware loads after it was refreshed has the new login time.
  pub refresh_session-load :
      (load_save : (s s' : e.db.State) (n t : ℕ) (own x : Session)
        → e.fiber.load s n ≡ some own
        → x.id ≡ own.id
        → e.fiber.save s n x ≡ some s'
        → t < n + x.idle_timeout
        → e.fiber.load s' t ≡ some x)
      (save_answers : (s : e.db.State) (n : ℕ) (x : Session) → e.fiber.save s n x ≢ none)
      (s : e.db.State) (later t : ℕ) (sess : Session)
      → e.fiber.load s later ≡ some sess
      → t < later + sess.idle_timeout
      → e.fiber.load (refresh_session e s later) t
        ≡ some (sess_set sess session_key_login_time (int64 later))
  unfolding refresh_session
  refresh_session-load load_save save_answers s later t sess loaded young =
      let own = sess_set sess session_key_login_time (int64 later) in
      elim (Option-cases (e.fiber.save s later own)) [
        | inl not_saved ↦ absurd (save_answers s later own not_saved)
        | inr (s', is_saved) ↦
            rw (refresh_session, loaded, is_saved)
              (load_save s s' later t sess own loaded refl is_saved young)
      ]
