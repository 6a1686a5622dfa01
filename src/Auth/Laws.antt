-- ===== src/Auth/Laws.antt =====
-- When a session counts as logged in.
use mokey.Base.{
  Bool, Option, Option-cases, String, arith, concat, false, inl, inr, nat_eq, none, refl, some,
  string_eq, true, ℕ, ◌↔◌, ◌≡◌,
}
use mokey.Auth.{
  Session, Value, as_flag, as_text, as_time, check_values, flag, int64, logged_in,
  password_changed_prefix, sess_get, session_invalidated_by_password_change, session_key_login_time,
  text, is_logged_in, session_key_authenticated, session_key_sid, session_key_username,
}
use mokey.Storage.{Storage, Codec}
use mokey.Directory.{User}

pub as_text-some : (v : Option Value) (t : String) → as_text v ≡ some t → v ≡ some (text t)
as_text-some none t h = absurd (ground arith)
as_text-some (some (text u)) t h = ground arith
as_text-some (some (flag b)) t h = absurd (ground arith)
as_text-some (some (int64 n)) t h = absurd (ground arith)

pub as_flag-some : (v : Option Value) (b : Bool) → as_flag v ≡ some b → v ≡ some (flag b)
as_flag-some none b h = absurd (ground arith)
as_flag-some (some (text u)) b h = absurd (ground arith)
as_flag-some (some (flag c)) b h = ground arith
as_flag-some (some (int64 n)) b h = absurd (ground arith)

module _ {Bytes : Type 0} (db : Storage Bytes) (ints : Codec Bytes ℕ)
    (show_as : String → String → Option User) where
  -- Whether the marker of a user's last password change ends a session of that login time.
  abbrev pub invalidated : db.State → ℕ → String → Session → Bool
  invalidated s now username sess =
      session_invalidated_by_password_change db ints
        (as_time (sess_get sess session_key_login_time))
        (db.get s now (concat password_changed_prefix username))

  check_values_iff :
      (s : db.State) (now : ℕ) (u sid : Option String) (authenticated : Option Bool)
      (login_time : ℕ) (username : String) (user : User)
      → (check_values db ints show_as s now u sid authenticated login_time
          ≡ logged_in username user)
      → (u ≡ some username)
        × ((k : String) × (sid ≡ some k) × (show_as k username ≡ some user))
        × (authenticated ≡ some true)
        × (session_invalidated_by_password_change db ints login_time
              (db.get s now (concat password_changed_prefix username))
            ≡ false)
  unfolding check_values
  check_values_iff s now none sid authenticated login_time username user h = absurd (ground arith)
  check_values_iff s now (some u) none authenticated login_time username user h =
      absurd (ground arith)
  check_values_iff s now (some u) (some k) none login_time username user h = absurd (ground arith)
  check_values_iff s now (some u) (some k) (some b) login_time username user h =
      elim (Option-cases (show_as k u)) [
        | inl gone ↦ absurd (ground arith)
        | inr (v, shown) ↦ (ground arith, (k, refl, ground arith), ground arith, ground arith)
      ]

  -- A session counts as logged in exactly when it carries a user, a sid and authenticated, each of
  -- its type and the last one true, no later password change of the user ends it, and FreeIPA still
  -- shows the user to the sid.
  pub is_logged_in_iff :
      (s : db.State) (now : ℕ) (sess : Session) (username : String) (user : User)
      → (is_logged_in db ints show_as s now (some sess) ≡ logged_in username user) ↔ (
          (sess_get sess session_key_username ≡ some (text username))
          × ((k : String) × (sess_get sess session_key_sid ≡ some (text k))
              × (show_as k username ≡ some user))
          × (sess_get sess session_key_authenticated ≡ some (flag true))
          × (invalidated s now username sess ≡ false))
  unfolding is_logged_in check_values
  is_logged_in_iff s now sess username user =
      let u = sess_get sess session_key_username in
      let sid = sess_get sess session_key_sid in
      let a = sess_get sess session_key_authenticated in
      let login_time = as_time (sess_get sess session_key_login_time) in
      (
        λ h.
            let (named, (k, keyed, shown), authed, live) =
              check_values_iff s now (as_text u) (as_text sid) (as_flag a) login_time username user
                (ground arith) in
            (
              as_text-some u username named,
              (k, as_text-some sid k keyed, shown),
              as_flag-some a true authed,
              live,
            ),
        λ (named, (k, keyed, shown), authed, live).
            rw (is_logged_in, check_values, named, keyed, authed) (ground arith),
      )
