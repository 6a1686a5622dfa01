-- ===== src/Audit/Tests.antt =====
-- The audit trail on a small storage: runs, and the theorems at concrete inputs.
use mokey.Base.{
  List, [], arith, drop, filter, if◌then◌else◌, length, ltb, max, nat_eq, none, refl, reverse, some,
  string_eq, take, ℕ, ◌++◌, ◌-◌, ◌∷◌, ◌≡◌,
}
use mokey.Storage.{Storage, Codec}
use mokey.Storage.Table.{table, table-IsWorking}
use mokey.Audit.{
  AuditEvent, negative, after_loop, after_seq, audit_after, audit_recent, audit_ring_size,
  audit_seq_key, audit_user_recent, counter, entry_key, event_of, fetch_event, involves,
  record_event,
}
use mokey.Audit.Ring.{record_all, number_from}
use mokey.Audit.History.{audit_after_lem, audit_recent_lem, pages_join}

data Doc : Type 0 where
  event : AuditEvent → Doc
  count_of : ℕ → Doc

abbrev json : Codec Doc AuditEvent
json = record {
  marshal = λ e. some (event e);
  unmarshal = λ d. elim d [ event e ↦ some e | count_of n ↦ none ];
  roundtrip = λ e. (event e, refl, refl);
}

abbrev ints : Codec Doc ℕ
ints = record {
  marshal = λ n. some (count_of n);
  unmarshal = λ d. elim d [ event e ↦ none | count_of n ↦ some n ];
  roundtrip = λ n. (count_of n, refl, refl);
}

abbrev db : Storage Doc
db = table Doc

abbrev login : AuditEvent
login = event_of 10 "INFO" "User logged in successfully" (("username", "ann") ∷ [])

abbrev invited : AuditEvent
invited = event_of 20 "INFO" "Invite sent" (("email", "bob@x.org") ∷ ("invited_by", "ann") ∷ [])

invited_fields : (invited.username ≡ "bob@x.org") × (invited.actor ≡ "ann")
unfolding event_of
invited_fields = (refl, refl)

abbrev log : List (ℕ × AuditEvent)
log = (10, login) ∷ (20, invited) ∷ []

fresh : (t : ℕ) → counter db json ints [] t audit_seq_key ≡ 0
unfolding counter
fresh t = refl

second_page :
    audit_after db json ints (record_all db json ints [] log) 30 (after_seq 1) 10
    ≡ record invited { seq = 2 } ∷ []
unfolding audit_after record_all record_event after_loop fetch_event entry_key
second_page = refl

audit_after_example :
    (audit_after db json ints (record_all db json ints [] log) 30 (after_seq 1) 10
      ≡ take 10 (
          drop
            (max (if ltb (length log) 1 then 0 else 1) (length log - audit_ring_size))
            (number_from 1 log)))
    × (audit_after db json ints (record_all db json ints [] log) 30 negative 10
        ≡ take 10 (drop (length log - audit_ring_size) (number_from 1 log)))
audit_after_example =
    audit_after_lem db json ints (table-IsWorking Doc) 0 1000 (omega arith) [] log fresh
      (omega arith) 30 (omega arith) (omega arith) 1 10

audit_recent_example :
    (audit_recent db json ints (record_all db json ints [] log) 30 5
      ≡ take 5 (reverse (drop (length log - audit_ring_size) (number_from 1 log))))
    × (audit_user_recent db json ints (record_all db json ints [] log) 30 "ann" 5
        ≡ take 5 (
            filter
              (involves "ann")
              (reverse (drop (length log - audit_ring_size) (number_from 1 log)))))
audit_recent_example =
    audit_recent_lem db json ints (table-IsWorking Doc) 0 1000 (omega arith) [] log fresh
      (omega arith) 30 (omega arith) (omega arith) "ann" 5

pages_join_example :
    audit_after db json ints (record_all db json ints [] log) 30 (after_seq 0) 1
      ++ audit_after db json ints (record_all db json ints [] log) 30 (after_seq 1) 1
    ≡ audit_after db json ints (record_all db json ints [] log) 30 (after_seq 0) 2
pages_join_example =
    pages_join db json ints (table-IsWorking Doc) 0 1000 (omega arith) [] log fresh (omega arith) 30
      (omega arith) (omega arith) 0 1 1 (omega arith) (omega arith)
