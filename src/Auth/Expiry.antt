-- ===== src/Auth/Expiry.antt =====
-- A password change ends the sessions of its user that are older, and no others.
use mokey.Base.{
  Bool-cases, Option, String, arith, concat, eq_iff, eq_refl, false, if◌then◌else◌, inl, inr, ltb,
  nat_eq, refl, some, string_eq, sym, true, ℕ, ◌+◌, ◌<◌, ◌==◌, ◌↔◌, ◌∙◌, ◌≡◌, ◌≢◌, ◌≤◌,
}
use package.text.Mathlib.TextLemmas.{append_cancel_left}
use mokey.Auth.{
  Session, as_time, invalidate_user_sessions, password_changed_prefix, sess_get,
  session_invalidated_by_password_change, session_key_login_time, flag, is_logged_in, logged_in,
  session_key_authenticated, session_key_sid, session_key_username, text,
}
use mokey.Auth.Laws.{invalidated, is_logged_in_iff}
use mokey.Storage.{Storage, Codec, IsWorking, in_time}
use mokey.Directory.{User}

module _ {Bytes : Type 0} (db : Storage Bytes) (ints : Codec Bytes ℕ)
    (show_as : String → String → Option User) where
  -- What reading the marker gives after it was written.
  marker_lem :
      (w : IsWorking db) (s : db.State) (t t' idle : ℕ) (username : String) (sess : Session)
      → invalidated db ints show_as
          (invalidate_user_sessions db ints idle s t username)
          t'
          username
          sess
        ≡ (if ltb t' (t + (idle + 60))
            then ltb (as_time (sess_get sess session_key_login_time)) t
            else false)
  unfolding invalidate_user_sessions session_invalidated_by_password_change
  marker_lem w s t t' idle username sess =
      let key = concat password_changed_prefix username in
      let (raw, m, um) = ints.roundtrip t in
      rw (m, w.get-set s t t' key key raw (idle + 60), eq_refl key)
        (elim (Bool-cases (in_time (idle + 60) t t')) [
          | inl alive ↦ rw (alive, um) (ground arith)
          | inr dead ↦ rw dead (ground arith)
        ])

  marker_key_apart :
      (username other : String)
      → other ≢ username
      → (concat password_changed_prefix username == concat password_changed_prefix other) ≡ false
  marker_key_apart username other apart =
      elim (Bool-cases
        (concat password_changed_prefix username == concat password_changed_prefix other)) [
          | inl same ↦ absurd (
              apart (
                sym (
                  append_cancel_left password_changed_prefix username other ((eq_iff _ _).0 same))))
          | inr differ ↦ differ
        ]

  invalidated_other :
      (w : IsWorking db) (s : db.State) (t t' idle : ℕ) (username other : String) (sess : Session)
      → other ≢ username
      → invalidated db ints show_as
          (invalidate_user_sessions db ints idle s t username)
          t'
          other
          sess
        ≡ invalidated db ints show_as s t' other sess
  unfolding invalidate_user_sessions
  invalidated_other w s t t' idle username other sess apart =
      let key = concat password_changed_prefix username in
      let (raw, m, um) = ints.roundtrip t in
      rw
        (
          m,
          w.get-set s t t' key (concat password_changed_prefix other) raw (idle + 60),
          marker_key_apart username other apart,
        )
        refl

  -- After a user's password change, a session of the user that was set up in an earlier second, and
  -- was last used no later than the change, is not logged in any more, for as long as its idle
  -- timeout lets it live.
  pub old_sessions_end :
      (w : IsWorking db) (s : db.State) (t t' last_used idle : ℕ) (username : String)
      (sess : Session) (user : User)
      → as_time (sess_get sess session_key_login_time) < t
      → last_used ≤ t
      → t' ≤ last_used + idle
      → is_logged_in db ints show_as
          (invalidate_user_sessions db ints idle s t username)
          t'
          (some sess)
        ≢ logged_in username user
  old_sessions_end w s t t' last_used idle username sess user earlier used alive h =
      let (named, keyed, authed, live) =
        (is_logged_in_iff db ints show_as (invalidate_user_sessions db ints idle s t username) t'
            sess username user).0
          h in
      absurd (ground (arith, marker_lem w s t t' idle username sess))

  -- A session that was set up in the second of the change or later, as the one that made the change
  -- is, stays logged in exactly where its values and FreeIPA say so.
  pub new_sessions_stay :
      (w : IsWorking db) (s : db.State) (t t' idle : ℕ) (username : String) (sess : Session)
      (user : User)
      → t ≤ as_time (sess_get sess session_key_login_time)
      → (is_logged_in db ints show_as
            (invalidate_user_sessions db ints idle s t username)
            t'
            (some sess)
          ≡ logged_in username user)
        ↔ ((sess_get sess session_key_username ≡ some (text username))
            × ((k : String) × (sess_get sess session_key_sid ≡ some (text k))
                × (show_as k username ≡ some user))
            × (sess_get sess session_key_authenticated ≡ some (flag true)))
  new_sessions_stay w s t t' idle username sess user later =
      let (only, back) =
        is_logged_in_iff db ints show_as (invalidate_user_sessions db ints idle s t username) t'
          sess username user in
      (
        λ h. let (named, keyed, authed, live) = only h in (named, keyed, authed),
        λ (named, keyed, authed).
            back (named, keyed, authed, ground (arith, marker_lem w s t t' idle username sess)),
      )

  -- The sessions of other users are logged in as before.
  pub others_unaffected :
      (w : IsWorking db) (s : db.State) (t t' idle : ℕ) (username other : String) (sess : Session)
      (user : User)
      → other ≢ username
      → (is_logged_in db ints show_as
            (invalidate_user_sessions db ints idle s t username)
            t'
            (some sess)
          ≡ logged_in other user)
        ↔ (is_logged_in db ints show_as s t' (some sess) ≡ logged_in other user)
  others_unaffected w s t t' idle username other sess user apart =
      let (only, back) =
        is_logged_in_iff db ints show_as (invalidate_user_sessions db ints idle s t username) t'
          sess other user in
      let (only', back') = is_logged_in_iff db ints show_as s t' sess other user in
      let same : invalidated db ints show_as (invalidate_user_sessions db ints idle s t username) t'
            other sess
          ≡ invalidated db ints show_as s t' other sess =
        invalidated_other w s t t' idle username other sess apart in
      (
        λ h.
            let (named, keyed, authed, live) = only h in
            back' (named, keyed, authed, sym same ∙ live),
        λ h. let (named, keyed, authed, live) = only' h in back (named, keyed, authed, same ∙ live),
      )
