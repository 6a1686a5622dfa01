-- ===== src/Expiry.antt =====
-- server/expiry.go: mailing reminders before passwords expire. Times are in seconds.
pub mod Markers
pub mod Laws
mod Tests
use mokey.Base.{
  Bool, List, Option, String, [], concat, if◌then◌else◌, leb, ltb, nat_eq, none, not, some,
  string_eq, ℕ, ◌*◌, ◌++◌, ◌+◌, ◌-◌, ◌/◌, ◌==◌, ◌||◌, ◌∷◌,
}
use mokey.Storage.{Storage, is_found}
use mokey.Directory.{User, Effect, mail}

abbrev pub expiry_reminder_prefix : String
expiry_reminder_prefix = "expiry-reminder-"

abbrev pub day : ℕ
day = 86400

-- sort.Ints
abbrev pub insert : ℕ → List ℕ → List ℕ
insert d [] = d ∷ []
insert d (x ∷ xs) = let rest = insert d xs in if leb d x then d ∷ x ∷ xs else x ∷ rest

unfoldable pub sort : List ℕ → List ℕ
sort [] = []
sort (d ∷ ds) = insert d (sort ds)

-- The first window that the time left fits into.
unfoldable pub window_of : List ℕ → ℕ → Option ℕ
window_of [] left = none
window_of (d ∷ days) left = if ltb (d * day) left then window_of days left else some d

-- What the sweep is given: the configured windows, the printing of numbers, and whether a mail with
-- the days that are left goes out.
pub record Sweep : Type 0 where
  pub days : List ℕ
  pub sprint : ℕ → String
  pub sends : User → ℕ → Bool

module _ {Bytes : Type 0} (db : Storage Bytes) (text : String → Bytes) (cfg : Sweep) where
  unfoldable pub marker : User → ℕ → String
  marker user d = concat expiry_reminder_prefix (
      concat user.username
        (concat "-" (concat (cfg.sprint user.passwd_expire) (concat "-" (cfg.sprint d)))))

  -- A user in a window: one mail, and its marker, which dies a day after the password.
  unfoldable pub remind : db.State → ℕ → User → ℕ → db.State × List Effect
  unfolding marker
  remind s now user d =
      if is_found (db.get s now (marker user d))
      then (s, [])
      else if not (cfg.sends user ((user.passwd_expire - now) / day + 1))
      then (s, [])
      else (
        (db.set s now (marker user d) (text "sent") (user.passwd_expire - now + day)).1,
        mail "password-expiry" user.username ∷ [],
      )

  unfoldable pub sweep_user : db.State → ℕ → User → db.State × List Effect
  unfolding remind window_of sort
  sweep_user s now user =
      if user.locked || user.email == "" || user.passwd_expire == 0
      then (s, [])
      else if leb user.passwd_expire now
      then (s, [])
      else elim (window_of (sort cfg.days) (user.passwd_expire - now)) [
        | none ↦ (s, [])
        | some d ↦ remind s now user d
      ]

  -- expiryReminderSweep over the users that FreeIPA found.
  unfoldable pub expiry_reminder_sweep : db.State → ℕ → List User → db.State × List Effect
  unfolding sweep_user
  expiry_reminder_sweep s now [] = (s, [])
  expiry_reminder_sweep s now (user ∷ users) =
      let (s', sent) = sweep_user s now user in
      let (s'', more_sent) = expiry_reminder_sweep s' now users in (s'', sent ++ more_sent)

-- passwordExpiresInDays; none stands for -1.
unfoldable pub password_expires_in_days : ℕ → User → Option ℕ
password_expires_in_days now user =
    if user.passwd_expire == 0 then none else some ((user.passwd_expire - now) / day)

-- expiryWarningVars, of the configured number of days: the days that the banner shows.
unfoldable pub expiry_warning : ℕ → ℕ → User → Option ℕ
unfolding password_expires_in_days
expiry_warning warn_days now user =
    if warn_days == 0 then none else elim (password_expires_in_days now user) [
      | none ↦ none
      | some days ↦ if leb days warn_days then some days else none
    ]
