-- ===== src/Requests.antt =====
-- The request queues: one storage key that holds a list with one entry for each user, as
-- server/group_requests.go (a key for each group) and server/otprecovery.go (one key) write them
-- out twice. Each operation runs under the lock of its key.
pub mod Laws
pub mod Invariant
mod Tests
use mokey.Base.{
  Bool, List, Option, String, [], any, concat, false, filter, if◌then◌else◌, length, nat_eq, none,
  not, some, string_eq, true, ℕ, ◌*◌, ◌++◌, ◌==◌, ◌∷◌,
}
use mokey.Storage.{Storage, Codec, Fetched, failed, missing, found}

-- 30 * 24 * time.Hour
abbrev pub requests_ttl : ℕ
requests_ttl = 30 * 24 * 3600

module _ {Bytes A : Type 0} (db : Storage Bytes) (json : Codec Bytes (List A)) (name : A → String)
    (key : String) where
  abbrev decoded : Option (List A) → List A
  decoded none = []
  decoded (some reqs) = reqs

  abbrev queue_of : Fetched Bytes → List A
  queue_of failed = []
  queue_of missing = []
  queue_of (found raw) = decoded (json.unmarshal raw)

  unfoldable pub load_requests : db.State → ℕ → List A
  load_requests s now = queue_of (db.get s now key)

  abbrev write_queue : db.State → ℕ → Option Bytes → db.State
  write_queue s now none = s
  write_queue s now (some raw) = (db.set s now key raw requests_ttl).1

  unfoldable pub save_requests : db.State → ℕ → List A → db.State
  save_requests s now [] = (db.delete s now key).1
  save_requests s now (x ∷ xs) = write_queue s now (json.marshal (x ∷ xs))

  -- Queues a request; false when its user is queued already.
  unfoldable pub add_request : db.State → ℕ → A → db.State × Bool
  add_request s now x =
      let reqs = load_requests s now in
      if any (λ r. name r == name x) reqs
      then (s, false)
      else (save_requests s now (reqs ++ x ∷ []), true)

  -- Drops a user's request; false when there is none.
  unfoldable pub remove_request : db.State → ℕ → String → db.State × Bool
  remove_request s now username =
      let reqs = load_requests s now in
      let kept = filter (λ r. not (name r == username)) reqs in
      if length kept == length reqs then (s, false) else (save_requests s now kept, true)

-- GroupRequest
pub record GroupRequest : Type 0 where
  pub username : String
  pub kind : String
  pub requested_at : ℕ

abbrev pub group_request_join : String
group_request_join = "join"

abbrev pub group_request_leave : String
group_request_leave = "leave"

abbrev pub group_requests_prefix : String
group_requests_prefix = "grouprequests-"

abbrev pub group_key : String → String
group_key group = concat group_requests_prefix group

abbrev pub requester : GroupRequest → String
requester r = r.username

module _ {Bytes : Type 0} (db : Storage Bytes) (json : Codec Bytes (List GroupRequest)) where
  unfoldable pub load_group_requests : db.State → ℕ → String → List GroupRequest
  unfolding load_requests
  load_group_requests s now group = load_requests db json requester (group_key group) s now

  unfoldable pub save_group_requests : db.State → ℕ → String → List GroupRequest → db.State
  unfolding save_requests
  save_group_requests s now group reqs =
      save_requests db json requester (group_key group) s now reqs

  unfoldable pub add_group_request : db.State → ℕ → String → String → String → db.State × Bool
  unfolding add_request
  add_group_request s now group username kind =
      add_request db json requester (group_key group) s now
        (record { username = username; kind = kind; requested_at = now })

  unfoldable pub remove_group_request : db.State → ℕ → String → String → db.State × Bool
  unfolding remove_request
  remove_group_request s now group username =
      remove_request db json requester (group_key group) s now username

-- OTPRecoveryRequest
pub record OtpRecoveryRequest : Type 0 where
  pub username : String
  pub requested_at : ℕ

abbrev pub otp_recovery_key : String
otp_recovery_key = "otprecovery"

abbrev pub claimant : OtpRecoveryRequest → String
claimant r = r.username

module _ {Bytes : Type 0} (db : Storage Bytes) (json : Codec Bytes (List OtpRecoveryRequest)) where
  unfoldable pub load_otp_recovery_requests : db.State → ℕ → List OtpRecoveryRequest
  unfolding load_requests
  load_otp_recovery_requests s now = load_requests db json claimant otp_recovery_key s now

  unfoldable pub save_otp_recovery_requests : db.State → ℕ → List OtpRecoveryRequest → db.State
  unfolding save_requests
  save_otp_recovery_requests s now reqs = save_requests db json claimant otp_recovery_key s now reqs

  unfoldable pub add_otp_recovery_request : db.State → ℕ → String → db.State × Bool
  unfolding add_request
  add_otp_recovery_request s now username =
      add_request db json claimant otp_recovery_key s now
        (record { username = username; requested_at = now })

  unfoldable pub remove_otp_recovery_request : db.State → ℕ → String → db.State × Bool
  unfolding remove_request
  remove_otp_recovery_request s now username =
      remove_request db json claimant otp_recovery_key s now username
