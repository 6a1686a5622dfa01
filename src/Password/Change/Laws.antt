-- ===== src/Password/Change/Laws.antt =====
-- What a changed password does to the sessions, and whose expired password is changed.
use mokey.Base.{
  Bool, Bool-cases, Option, Option-cases, String, ap, arith, concat, false, inl, inr, nat_eq, none,
  refl, some, string_eq, subst, sym, true, ℕ, ◌&&◌, ◌+◌, ◌<◌, ◌==◌, ◌↔◌, ◌≡◌, ◌≢◌, ◌≤◌,
}
use mokey.Storage.{IsWorking}
use mokey.Directory.{User}
use mokey.Auth.{
  Session, is_logged_in, logged_in, password_changed_prefix, as_time, flag, int64,
  invalidate_user_sessions, sess_get, sess_set, session_key_authenticated, session_key_login_time,
  session_key_sid, session_key_username, text, as_flag,
}
use mokey.Auth.Laws.{as_text-some, as_flag-some}
use mokey.Password.Change.{
  Setting, ChangeForm, Site, password_change, managed_by, checked, finish_change, success_page,
  refresh_session, change_expired, expired_user, password_expired, turned_away,
}
use mokey.Auth.Expiry.{new_sessions_stay, old_sessions_end}
use mokey.Sessions.{SessionEntry}
use mokey.Password.Change.Steps.{logged_in-marker, password_change-success, refresh_session-load}

module _ (e : Setting) where
  -- The store that a successful change leaves: what reads of the markers see was written by
  -- invalidateUserSessions, where saving a session leaves the markers alone.
  module _
      (save_leaves : (s s' : e.db.State) (n t : ℕ) (sess : Session) (name : String)
        → e.fiber.save s n sess ≡ some s'
        → e.db.get s' t (concat password_changed_prefix name)
          ≡ e.db.get s t (concat password_changed_prefix name)) where
    refresh_session-marker :
        (s : e.db.State) (now t : ℕ) (name : String)
        → e.db.get (refresh_session e s now) t (concat password_changed_prefix name)
          ≡ e.db.get s t (concat password_changed_prefix name)
    unfolding refresh_session
    refresh_session-marker s now t name = elim (Option-cases (e.fiber.load s now)) [
      | inl none_there ↦ rw (refresh_session, none_there) refl
      | inr (sess, loaded) ↦
          let saved = e.fiber.save s now (sess_set sess session_key_login_time (int64 now)) in
          elim (Option-cases saved) [
            | inl not_saved ↦ rw (refresh_session, loaded, not_saved) refl
            | inr (s', is_saved) ↦
                rw (refresh_session, loaded, is_saved) (save_leaves s s' now t _ name is_saved)
          ]
    ]

    -- On a storage that answers, and where saving a session leaves the markers of password changes
    -- alone, after a successful change a session of the user that was set up in an earlier second,
    -- and was last used no later than the change, is not logged in any more, for as long as its
    -- idle timeout lets it live.
    pub change_ends_others :
        (works : IsWorking e.db) (show_as : String → String → Option User) (site : Site e)
        (now later t last_used : ℕ) (user shown : User) (form : ChangeForm) (sess : Session)
        → (password_change e site now later user (some form)).1 ≡ success_page
        → as_time (sess_get sess session_key_login_time) < now
        → last_used ≤ now
        → t ≤ last_used + e.idle_timeout
        → is_logged_in e.db e.ints show_as
            (password_change e site now later user (some form)).0.world.store
            t
            (some sess)
          ≢ logged_in user.username shown
    unfolding finish_change
    change_ends_others works show_as site now later t last_used user shown form sess done earlier
          used alive h =
        let s =
          invalidate_user_sessions e.db e.ints e.idle_timeout site.world.store now user.username in
        let there = ap (λ z. z.store) (password_change-success e site now later user form done) in
        old_sessions_end e.db e.ints show_as works site.world.store now t last_used e.idle_timeout
          user.username sess shown earlier used alive
          (logged_in-marker e.db e.ints show_as (refresh_session e s later) s t sess user.username
            shown (refresh_session-marker s later t user.username)
            (subst
              (λ z.
                is_logged_in e.db e.ints show_as z t (some sess) ≡ logged_in user.username shown)
              there h))

    -- On a storage that answers, and with a session middleware that saves, that reads a saved
    -- session back until its idle timeout, and that leaves the markers of password changes alone:
    -- after a successful change, the session that the middleware loads for the request is logged
    -- in, until that timeout, exactly where the values of the session before and FreeIPA say so.
    pub change_keeps_own :
        (works : IsWorking e.db)
        (save_answers : (s : e.db.State) (n : ℕ) (x : Session) → e.fiber.save s n x ≢ none)
        (load_save : (s s' : e.db.State) (n t : ℕ) (own x : Session)
          → e.fiber.load s n ≡ some own
          → x.id ≡ own.id
          → e.fiber.save s n x ≡ some s'
          → t < n + x.idle_timeout
          → e.fiber.load s' t ≡ some x)
        (show_as : String → String → Option User) (site : Site e) (now later t : ℕ)
        (user shown : User) (form : ChangeForm) (sess : Session)
        → (password_change e site now later user (some form)).1 ≡ success_page
        → e.fiber.load
            (invalidate_user_sessions e.db e.ints e.idle_timeout site.world.store now user.username)
            later
          ≡ some sess
        → now ≤ later
        → t < later + sess.idle_timeout
        → (is_logged_in e.db e.ints show_as
              (password_change e site now later user (some form)).0.world.store
              t
              (e.fiber.load (password_change e site now later user (some form)).0.world.store t)
            ≡ logged_in user.username shown)
          ↔ ((sess_get sess session_key_username ≡ some (text user.username))
              × ((k : String) × (sess_get sess session_key_sid ≡ some (text k))
                  × (show_as k user.username ≡ some shown))
              × (sess_get sess session_key_authenticated ≡ some (flag true)))
    unfolding finish_change sess_get
    change_keeps_own works save_answers load_save show_as site now later t user shown form sess done
          loaded le young =
        let s =
          invalidate_user_sessions e.db e.ints e.idle_timeout site.world.store now user.username in
        let own = sess_set sess session_key_login_time (int64 later) in
        let there = ap (λ z. z.store) (password_change-success e site now later user form done) in
        let marker = refresh_session-marker s later t user.username in
        let (only, back) =
          new_sessions_stay e.db e.ints show_as works site.world.store now t e.idle_timeout
            user.username own shown (omega (arith, le)) in
        let kept = refresh_session-load e load_save save_answers s later t sess loaded young in
        subst
          (λ z.
            (is_logged_in e.db e.ints show_as z t (e.fiber.load z t)
              ≡ logged_in user.username shown)
            ↔ ((sess_get sess session_key_username ≡ some (text user.username))
                × ((k : String) × (sess_get sess session_key_sid ≡ some (text k))
                    × (show_as k user.username ≡ some shown))
                × (sess_get sess session_key_authenticated ≡ some (flag true))))
          (sym there)
          (rw kept (
            (λ h. only (
                logged_in-marker e.db e.ints show_as (refresh_session e s later) s t own
                  user.username shown marker h)),
            λ facts.
                logged_in-marker e.db e.ints show_as s (refresh_session e s later) t own
                  user.username shown (sym marker) (back facts),
          ))

  pub expired_user-some :
      (sess : Session) (username : String)
      → expired_user e sess ≡ some username
      → (sess_get sess session_key_authenticated ≡ some (flag false))
        × (sess_get sess session_key_username ≡ some (text username))
  unfolding expired_user
  expired_user-some sess username h =
      elim (Option-cases (as_flag (sess_get sess session_key_authenticated))) [
        | inl unset ↦ absurd (ground (arith, h, unset))
        | inr (true, authed) ↦ absurd (ground (arith, h, authed))
        | inr (false, asked) ↦
            (as_flag-some _ false asked, as_text-some _ username (ground (arith, h, asked)))
      ]

  -- Where PasswordExpired has changed anything in FreeIPA, the session of the request was not
  -- authenticated and named an account that is there and has a FreeIPA password, and the new
  -- password passed the checks.
  pub password_expired_guarded :
      (site : Site e) (now : ℕ) (form : ChangeForm) (entry : SessionEntry) (htmx : Bool)
      → (password_expired e site now form entry htmx).0.dir ≢ site.dir
      → (sess : Session) × (username : String) × (user : User) × (e.fiber.load site.world.store now
          ≡ some sess)
        × (sess_get sess session_key_authenticated ≡ some (flag false))
        × (sess_get sess session_key_username ≡ some (text username))
        × (e.service.base.user_show site.dir username ≡ some user)
        × ((managed_by e site.dir user == "") ≡ true)
        × (checked e site.dir user form ≡ none)
  unfolding password_expired change_expired turned_away
  password_expired_guarded site now form entry htmx asked =
      elim (Option-cases (e.fiber.load site.world.store now)) [
        | inl no_session ↦ absurd (asked (rw (password_expired, no_session) refl))
        | inr (sess, loaded) ↦ elim (Option-cases (expired_user e sess)) [
          | inl other ↦ absurd (asked (rw (password_expired, loaded, other) refl))
          | inr (username, pending_now) ↦
              elim (Option-cases (e.service.base.user_show site.dir username)) [
                | inl gone ↦ absurd (asked (rw (password_expired, loaded, pending_now, gone) refl))
                | inr (user, known) ↦ elim (Bool-cases (managed_by e site.dir user == "")) [
                  | inr elsewhere ↦
                      absurd
                        (asked (rw (password_expired, loaded, pending_now, known, elsewhere) refl))
                  | inl here ↦ elim (Bool-cases (e.methods.otp_only user && form.otp == "")) [
                    | inl no_code ↦ absurd (
                        asked (
                          rw
                            (
                              password_expired, change_expired, loaded, pending_now, known, here,
                              no_code,
                            )
                            refl))
                    | inr given ↦ elim (Option-cases (checked e site.dir user form)) [
                      | inr (wrong, faulty) ↦ absurd (
                          asked (
                            rw
                              (
                                password_expired, change_expired, loaded, pending_now, known, here,
                                given, faulty,
                              )
                              refl))
                      | inl fine ↦
                          let (authed, named) = expired_user-some sess username pending_now in
                          (sess, username, user, loaded, authed, named, known, here, fine)
                    ]
                  ]
                ]
              ]
        ]
      ]
