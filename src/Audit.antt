-- ===== src/Audit.antt =====
-- server/audit.go: the audit trail, a ring of the last 1000 events in the storage backend, with
-- the counter of server/storelock.go `incr` (the drivers of one process; redis counts by INCR).
-- Sequence numbers are naturals: an int64 counter is reached by no deployment.
mod Slots
mod Ring
mod Read
mod History
mod Tests
use mokey.Base.{
  Bool, List, Option, String, [], concat, false, if◌then◌else◌, ltb, max, nat_eq, none, some,
  string_eq, suc, true, zero, ℕ, ◌%◌, ◌*◌, ◌+◌, ◌-◌, ◌/◌, ◌==◌, ◌||◌, ◌∷◌,
}
use mokey.Storage.{Storage, Codec, Fetched, failed, missing, found}

pub record AuditEvent : Type 0 where
  pub seq : ℕ
  pub time : ℕ
  pub level : String
  pub message : String
  pub username : String
  pub actor : String
  pub ip : String
  pub attrs : List (String × String)

abbrev pub audit_ring_size : ℕ
audit_ring_size = 1000

abbrev pub audit_seq_key : String
audit_seq_key = "audit-seq"

abbrev pub audit_entry_key : String
audit_entry_key = "audit-entry-"

abbrev pub audit_retention : ℕ
audit_retention = 90 * 24 * 3600

-- `%d`, on numbers below 10 ^ fuel.
unfoldable pub digit : ℕ → String
digit n =
    if n == 0
    then "0"
    else if n == 1
    then "1"
    else if n == 2
    then "2"
    else if n == 3
    then "3"
    else if n == 4
    then "4"
    else if n == 5
    then "5"
    else if n == 6
    then "6"
    else if n == 7
    then "7"
    else if n == 8
    then "8"
    else "9"

unfoldable pub decimal_fuel : ℕ → ℕ → String
unfolding digit
decimal_fuel zero n = ""
decimal_fuel (suc fuel) n =
    let shorter = decimal_fuel fuel (n / 10) in
    if ltb n 10 then digit n else concat shorter (digit (n % 10))

-- fmt.Sprintf("%s%d", auditEntryKey, seq%auditRingSize): a slot has at most three digits.
unfoldable pub entry_key : ℕ → String
unfolding decimal_fuel
entry_key seq = concat audit_entry_key (decimal_fuel 4 (seq % audit_ring_size))

-- A key that is absent from the map reads as "".
unfoldable pub attr : String → List (String × String) → String
attr k [] = ""
attr k ((j, v) ∷ attrs) = if j == k then v else attr k attrs

-- The event of a log record, from its message, trimmed and redacted, and its redacted attributes.
unfoldable pub event_of : ℕ → String → String → List (String × String) → AuditEvent
unfolding attr
event_of time level message attrs =
    let invited_by = attr "invited_by" attrs in
    let username = attr "username" attrs in
    record {
      seq = 0;
      time = time;
      level = level;
      message = message;
      username = (if username == "" then attr "email" attrs else username);
      actor = (if invited_by == "" then attr "admin" attrs else invited_by);
      ip = attr "ip" attrs;
      attrs = attrs;
    }

-- A cursor is an int64.
pub data Cursor : Type 0 where
  negative : Cursor
  after_seq : ℕ → Cursor

-- A cursor ahead of the counter starts over.
unfoldable pub start_after : ℕ → Cursor → ℕ
start_after seq negative = 0
start_after seq (after_seq after) = if ltb seq after then 0 else after

unfoldable pub involves : String → AuditEvent → Bool
involves username e = e.username == username || e.actor == username

module _ {Bytes : Type 0} (db : Storage Bytes) (json : Codec Bytes AuditEvent)
    (ints : Codec Bytes ℕ) where
  abbrev number : Option ℕ → ℕ
  number none = 0
  number (some n) = n

  abbrev number_of : Fetched Bytes → ℕ
  number_of failed = 0
  number_of missing = 0
  number_of (found raw) = number (ints.unmarshal raw)

  -- strconv.ParseInt of what is stored, 0 if there is nothing to read.
  unfoldable pub counter : db.State → ℕ → String → ℕ
  counter s now key = number_of (db.get s now key)

  abbrev write_number : db.State → ℕ → String → Option Bytes → Bool × db.State
  write_number s now key none = (false, s)
  write_number s now key (some raw) = db.set s now key raw 0

  -- The new value, and whether it was stored.
  unfoldable pub incr : db.State → ℕ → String → db.State × ℕ × Bool
  unfolding counter
  incr s now key =
      let seq = counter s now key + 1 in
      let (done, s') = write_number s now key (ints.marshal seq) in (s', seq, done)

  abbrev write_event : db.State → ℕ → ℕ → Option Bytes → db.State
  write_event s now seq none = s
  write_event s now seq (some raw) = (db.set s now (entry_key seq) raw audit_retention).1

  -- The event is returned with its number; it stays out of the ring if the counter fails.
  unfoldable pub record_event : db.State → ℕ → AuditEvent → db.State × AuditEvent
  unfolding incr
  record_event s now event =
      let (s', seq, done) = incr s now audit_seq_key in
      let numbered = record event { seq = seq } in
      if done then (write_event s' now seq (json.marshal numbered), numbered) else (s', event)

  abbrev event_in : Fetched Bytes → Option AuditEvent
  event_in failed = none
  event_in missing = none
  event_in (found raw) = json.unmarshal raw

  unfoldable pub fetch_event : db.State → ℕ → ℕ → Option AuditEvent
  fetch_event s now i = event_in (db.get s now (entry_key i))

  -- `for i := seq; i > 0 && i > seq-auditRingSize && len(events) < n; i--`, with the number of
  -- events that may still be added, keeping those that pass the test.
  unfoldable pub recent_loop : (AuditEvent → Bool) → db.State → ℕ → ℕ → ℕ → ℕ → List AuditEvent
  recent_loop test s now floor zero n = []
  recent_loop test s now floor (suc i) zero = []
  recent_loop test s now floor (suc i) (suc n) =
      let skip = recent_loop test s now floor i (suc n) in
      let more = recent_loop test s now floor i n in
      if ltb floor (suc i)
      then elim (fetch_event s now (suc i)) [
        | none ↦ skip
        | some e ↦ if test e then e ∷ more else skip
      ]
      else []

  unfoldable pub audit_recent : db.State → ℕ → ℕ → List AuditEvent
  audit_recent s now n =
      let seq = counter s now audit_seq_key in
      recent_loop (λ e. true) s now (seq - audit_ring_size) seq n

  unfoldable pub audit_user_recent : db.State → ℕ → String → ℕ → List AuditEvent
  audit_user_recent s now username n =
      let seq = counter s now audit_seq_key in
      recent_loop (involves username) s now (seq - audit_ring_size) seq n

  -- Entries written before v2.8 carry no number.
  unfoldable pub numbered : ℕ → AuditEvent → AuditEvent
  numbered i e = if e.seq == 0 then record e { seq = i } else e

  -- `for i := max(after, seq-auditRingSize) + 1; i <= seq && len(events) < n; i++`, with the
  -- rounds that are left.
  unfoldable pub after_loop : db.State → ℕ → ℕ → ℕ → ℕ → List AuditEvent
  unfolding numbered
  after_loop s now i zero n = []
  after_loop s now i (suc rounds) zero = []
  after_loop s now i (suc rounds) (suc n) =
      let skip = after_loop s now (i + 1) rounds (suc n) in
      let more = after_loop s now (i + 1) rounds n in
      elim (fetch_event s now i) [
        | none ↦ skip
        | some e ↦ if (numbered i e).seq == i then numbered i e ∷ more else skip
      ]

  unfoldable pub audit_after : db.State → ℕ → Cursor → ℕ → List AuditEvent
  unfolding start_after
  audit_after s now after n =
      let seq = counter s now audit_seq_key in
      let start = max (start_after seq after) (seq - audit_ring_size) in
      after_loop s now (start + 1) (seq - start) n
