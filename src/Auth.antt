-- ===== src/Auth.antt =====
-- server/auth.go: which sessions count as logged in, signing in, and signing out. The fiber
-- session is its list of values with its id; loading and saving it is the session middleware's.
-- `now` is in seconds; the calls of FreeIPA and hydra are parameters.
pub mod Gate
pub mod SignIn
pub mod Laws
pub mod Answers
pub mod Expiry
mod Tests
use mokey.Base.{
  Bool, List, Option, String, [], any, concat, false, if◌then◌else◌, ltb, nat_eq, none, not, some,
  string_eq, true, ℕ, ◌+◌, ◌==◌, ◌||◌, ◌∷◌,
}
use mokey.Storage.{Storage, Codec, Fetched, failed, found, missing}
use mokey.Directory.{User}

-- What `sess.Get` returns, by its dynamic type.
pub data Value : Type 0 where
  text : String → Value
  flag : Bool → Value
  int64 : ℕ → Value

pub record Session : Type 0 where
  pub id : String
  pub values : List (String × Value)
  pub idle_timeout : ℕ

abbrev pub session_key_authenticated : String
session_key_authenticated = "authenticated"

abbrev pub session_key_username : String
session_key_username = "user"

abbrev pub session_key_sid : String
session_key_sid = "sid"

abbrev pub session_key_login_time : String
session_key_login_time = "login_time"

abbrev pub password_changed_prefix : String
password_changed_prefix = "pwchanged-"

abbrev pub lookup : String → List (String × Value) → Option Value
lookup k [] = none
lookup k ((j, v) ∷ values) = if j == k then some v else lookup k values

-- sess.Get and sess.Set: the newest value of a key stands first.
unfoldable pub sess_get : Session → String → Option Value
sess_get sess k = lookup k sess.values

abbrev pub sess_set : Session → String → Value → Session
sess_set sess k v = record sess { values = (k, v) ∷ sess.values }

-- The type assertions.
abbrev pub as_text : Option Value → Option String
as_text (some (text t)) = some t
as_text (some (flag b)) = none
as_text (some (int64 n)) = none
as_text none = none

abbrev pub as_flag : Option Value → Option Bool
as_flag (some (text t)) = none
as_flag (some (flag b)) = some b
as_flag (some (int64 n)) = none
as_flag none = none

-- `loginTime, _ := v.(int64)`
abbrev pub as_time : Option Value → ℕ
as_time (some (text t)) = 0
as_time (some (flag b)) = 0
as_time (some (int64 n)) = n
as_time none = 0

-- isBlocked, of the configured `accounts.block_users`.
unfoldable pub is_blocked : List String → String → Bool
is_blocked block_users username = any (λ u. username == u) block_users

module _ {Bytes : Type 0} (db : Storage Bytes) (ints : Codec Bytes ℕ) where
  abbrev older : ℕ → Option ℕ → Bool
  older login_time none = false
  older login_time (some changed_at) = ltb login_time changed_at

  -- The marker is nil where the storage fails: the error is not looked at.
  unfoldable pub session_invalidated_by_password_change : ℕ → Fetched Bytes → Bool
  session_invalidated_by_password_change login_time failed = false
  session_invalidated_by_password_change login_time missing = false
  session_invalidated_by_password_change login_time (found marker) =
      older login_time (ints.unmarshal marker)

  abbrev write_marker : db.State → ℕ → String → ℕ → Option Bytes → db.State
  write_marker s now username ttl none = s
  write_marker s now username ttl (some raw) =
      (db.set s now (concat password_changed_prefix username) raw ttl).1

  -- The marker outlives the idle timeout by a minute.
  unfoldable pub invalidate_user_sessions : ℕ → db.State → ℕ → String → db.State
  invalidate_user_sessions idle_timeout s now username =
      write_marker s now username (idle_timeout + 60) (ints.marshal now)

-- isLoggedIn's answer: the user that FreeIPA shows for the session's sid, or what is wrong.
-- `show_as`, of a sid and a name, is `newIPAClientWithSession` and then `UserShow`. The idle timeout
-- that is set on a session which passes is the configured one, that every session has.
pub data LoginCheck : Type 0 where
  rejected : String → LoginCheck
  logged_in : String → User → LoginCheck

module _ {Bytes : Type 0} (db : Storage Bytes) (ints : Codec Bytes ℕ)
    (show_as : String → String → Option User) where
  -- The checks after the session was read, in the code's order.
  unfoldable pub check_values :
      db.State → ℕ → Option String → Option String → Option Bool → ℕ → LoginCheck
  unfolding session_invalidated_by_password_change
  check_values s now none sid authenticated login_time = rejected "Invalid user in session"
  check_values s now (some username) none authenticated login_time =
      rejected "Invalid sid in session"
  check_values s now (some username) (some sid) authenticated login_time =
      if not (elim authenticated [ none ↦ false | some b ↦ b ])
      then rejected "User is not authenticated in session"
      else if session_invalidated_by_password_change db ints login_time
          (db.get s now (concat password_changed_prefix username))
      then rejected "Session invalidated by password change"
      else elim (show_as sid username) [
        | none ↦ rejected "Failed to refresh FreeIPA user session"
        | some user ↦ logged_in username user
      ]

  abbrev is_set : Option Value → Bool
  is_set none = false
  is_set (some v) = true

  unfoldable pub is_logged_in : db.State → ℕ → Option Session → LoginCheck
  unfolding check_values sess_get
  is_logged_in s now none = rejected "Failed to get session"
  is_logged_in s now (some sess) =
      let username = sess_get sess session_key_username in
      let sid = sess_get sess session_key_sid in
      let authenticated = sess_get sess session_key_authenticated in
      if not (is_set sid) || not (is_set username) || not (is_set authenticated)
      then rejected "Invalid session"
      else check_values s now (as_text username) (as_text sid) (as_flag authenticated)
          (as_time (sess_get sess session_key_login_time))
