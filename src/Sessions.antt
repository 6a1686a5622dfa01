-- ===== src/Sessions.antt =====
-- server/sessions.go: the inventory of a user's sessions, kept as one list per user in the
-- storage backend. The lists are changed under the lock of the user's key (Lock.antt), so each
-- operation here is one step of the whole. `now` is the time of the operation.
mod Index
mod Revoke
mod Shape
mod Listing
mod Login
mod Tests
pub mod Invariant
use mokey.Base.{
  Bool, List, Option, String, [], any, concat, drop, false, filter, if◌then◌else◌, length, ltb, map,
  nat_eq, none, not, reverse, some, string_eq, true, ℕ, ◌*◌, ◌++◌, ◌+◌, ◌-◌, ◌==◌, ◌∷◌,
}
use mokey.Storage.{Storage, Codec, Fetched, failed, missing, found, is_found}

-- The fields of `UserSession` that are stored.
pub record SessionEntry : Type 0 where
  pub sid : String
  pub login_time : ℕ
  pub ip : String
  pub browser : String
  pub os : String

-- `Current` is computed when the list is shown, and never stored.
pub record UserSession : Type 0 where
  pub entry : SessionEntry
  pub open entry use *
  pub current : Bool

abbrev pub user_sessions_prefix : String
user_sessions_prefix = "usersessions-"

abbrev pub user_sessions_ttl : ℕ
user_sessions_ttl = 30 * 24 * 3600

abbrev pub user_sessions_max : ℕ
user_sessions_max = 20

abbrev pub index_key : String → String
index_key username = concat user_sessions_prefix username

abbrev pub unmarked : SessionEntry → UserSession
unmarked e = record { entry = e; current = false }

abbrev pub stored : UserSession → SessionEntry
stored x = x.entry

-- `kept = kept[len(kept)-userSessionsMax:]` when there are more than that many.
unfoldable pub newest : List UserSession → List UserSession
newest kept =
    if ltb user_sessions_max (length kept)
    then drop (length kept - user_sessions_max) kept
    else kept

unfoldable pub mark_current : String → UserSession → UserSession
mark_current current_sid x = record x { current = x.sid == current_sid }

-- Whether the session data still exist.
unfoldable pub session_alive : {Bytes : Type 0} (db : Storage Bytes) → db.State → ℕ → String → Bool
session_alive db s now sid = is_found (db.get s now sid)

module _ {Bytes : Type 0} (db : Storage Bytes) (json : Codec Bytes (List SessionEntry)) where
  abbrev decoded : Option (List SessionEntry) → List UserSession
  decoded none = []
  decoded (some es) = map unmarked es

  abbrev index_of : Fetched Bytes → List UserSession
  index_of failed = []
  index_of missing = []
  index_of (found raw) = decoded (json.unmarshal raw)

  unfoldable pub load_session_index : db.State → ℕ → String → List UserSession
  load_session_index s now username = index_of (db.get s now (index_key username))

  abbrev write_index : db.State → ℕ → String → Option Bytes → db.State
  write_index s now username none = s
  write_index s now username (some raw) =
      (db.set s now (index_key username) raw user_sessions_ttl).1

  unfoldable pub save_session_index : db.State → ℕ → String → List UserSession → db.State
  save_session_index s now username [] = (db.delete s now (index_key username)).1
  save_session_index s now username (x ∷ xs) =
      write_index s now username (json.marshal (map stored (x ∷ xs)))

  unfoldable pub record_user_session : db.State → ℕ → String → SessionEntry → db.State
  record_user_session s now username e =
      let sessions = load_session_index s now username in
      let kept = filter (λ x. not (x.sid == e.sid)) sessions in
      save_session_index s now username (newest (kept ++ unmarked e ∷ []))

  unfoldable pub live_sessions : db.State → ℕ → String → List UserSession → List UserSession
  live_sessions s now current_sid [] = []
  live_sessions s now current_sid (x ∷ xs) =
      let rest = live_sessions s now current_sid xs in
      if session_alive db s now x.sid then mark_current current_sid x ∷ rest else rest

  unfoldable pub user_sessions : db.State → ℕ → String → String → db.State × List UserSession
  user_sessions s now username current_sid =
      let sessions = load_session_index s now username in
      let live = live_sessions s now current_sid sessions in
      let s' =
        (if not (length live == length sessions)
          then save_session_index s now username live
          else if ltb 0 (length live)
          then save_session_index s now username sessions
          else s) in
      (s', reverse live)

  unfoldable pub revoke_user_session : db.State → ℕ → String → String → db.State × Bool
  revoke_user_session s now username sid =
      let sessions = load_session_index s now username in
      let kept = filter (λ x. not (x.sid == sid)) sessions in
      if any (λ x. x.sid == sid) sessions
      then (save_session_index (db.delete s now sid).1 now username kept, true)
      else (s, false)

  -- The loop of `revokeOtherUserSessions`: what is kept, and how many deletes succeeded.
  unfoldable pub revoke_loop :
      db.State
      → ℕ
      → String
      → List UserSession
      → List UserSession
      → ℕ
      → db.State × List UserSession × ℕ
  revoke_loop s now current_sid [] kept revoked = (s, kept, revoked)
  revoke_loop s now current_sid (x ∷ xs) kept revoked =
      let keeping = revoke_loop s now current_sid xs (kept ++ x ∷ []) revoked in
      let (ok, s') = db.delete s now x.sid in
      let dropping = revoke_loop s' now current_sid xs kept (if ok then revoked + 1 else revoked) in
      if x.sid == current_sid then keeping else dropping

  unfoldable pub revoke_other_user_sessions : db.State → ℕ → String → String → db.State × ℕ
  revoke_other_user_sessions s now username current_sid =
      let sessions = load_session_index s now username in
      let (s', kept, revoked) = revoke_loop s now current_sid sessions [] 0 in
      (save_session_index s' now username kept, revoked)

  unfoldable pub drop_session_from_index : db.State → ℕ → String → String → db.State
  drop_session_from_index s now username sid =
      let sessions = load_session_index s now username in
      save_session_index s now username (filter (λ x. not (x.sid == sid)) sessions)
