-- ===== src/Audit/Ring.antt =====
-- What the ring holds after a history of events, while none of them has outlived its retention.
use mokey.Base.{
  List, [], ap, append-nil, append_assoc, arith, eq_refl, get_elem?, get_elem?-append_last,
  get_elem?-lt, inl, inr, length, length-append, nat_eq, some, string_eq, subst, true, ℕ, ◌++◌, ◌+◌,
  ◌<◌, ◌∙◌, ◌∷◌, ◌≡◌, ◌≤◌,
}
use mokey.Storage.{Storage, Codec, IsWorking, in_time}
use mokey.Audit.{
  AuditEvent, audit_ring_size, audit_retention, audit_seq_key, counter, entry_key, fetch_event,
  record_event,
}
use mokey.Audit.Slots.{seq-ne-entry, entry-ne-seq, entry_key-apart}

-- The events of a history bear the numbers from `n` on.
abbrev pub number_from : ℕ → List (ℕ × AuditEvent) → List AuditEvent
number_from n [] = []
number_from n ((t, e) ∷ log) = record e { seq = n } ∷ number_from (n + 1) log

-- All of a history falls into the window from `lo` to `hi`.
abbrev pub Within : ℕ → ℕ → List (ℕ × AuditEvent) → Type 0
Within lo hi [] = Unit
Within lo hi ((t, e) ∷ log) = (lo ≤ t) × (t < hi) × Within lo hi log

module _ {Bytes : Type 0} (db : Storage Bytes) (json : Codec Bytes AuditEvent)
    (ints : Codec Bytes ℕ) where
  unfoldable pub record_all : db.State → List (ℕ × AuditEvent) → db.State
  record_all s [] = s
  record_all s ((t, e) ∷ log) = record_all (record_event db json ints s t e).0 log

  pub record Holds (lo hi : ℕ) (s : db.State) (h : List AuditEvent) : Type 0 where
    pub counted : (t : ℕ) → lo ≤ t → t < hi → counter db json ints s t audit_seq_key ≡ length h
    pub kept :
        (t i : ℕ) (e : AuditEvent)
        → lo ≤ t
        → t < hi
        → get_elem? h i ≡ some e
        → length h ≤ i + audit_ring_size
        → fetch_event db json ints s t (i + 1) ≡ some e
    pub in_order : (i : ℕ) (e : AuditEvent) → get_elem? h i ≡ some e → e.seq ≡ i + 1

module _ {Bytes : Type 0} (db : Storage Bytes) (json : Codec Bytes AuditEvent)
    (ints : Codec Bytes ℕ) (w : IsWorking db) where
  -- The state that a recorded event leaves.
  recorded :
      (s : db.State) (t n : ℕ) (e : AuditEvent)
      → counter db json ints s t audit_seq_key ≡ n
      → (raw num : Bytes) × (ints.unmarshal num ≡ some (n + 1))
        × (json.unmarshal raw ≡ some (record e { seq = n + 1 }))
        × ((record_event db json ints s t e).0
            ≡ (db.set
                (db.set s t audit_seq_key num 0).1
                t
                (entry_key (n + 1))
                raw
                audit_retention).1)
  unfolding record_event
  recorded s t n e c =
      let (num, mi, ui) = ints.roundtrip (n + 1) in
      let (raw, mj, uj) = json.roundtrip (record e { seq = n + 1 }) in
      (raw, num, ui, uj, rw (c, mi, w.set_ok s t audit_seq_key num 0, mj))

  module _ (lo hi : ℕ) (short : hi ≤ lo + audit_retention) where
    Holds-record :
        (s : db.State) (h : List AuditEvent) (t : ℕ) (e : AuditEvent)
        → lo ≤ t
        → t < hi
        → Holds db json ints lo hi s h
        → Holds db json ints lo hi
            (record_event db json ints s t e).0
            (h ++ record e { seq = length h + 1 } ∷ [])
    unfolding counter fetch_event
    Holds-record s h t e l u holds =
        let n = length h in
        let x : AuditEvent = record e { seq = n + 1 } in
        let (raw, num, ui, uj, after) = recorded s t n e (holds.counted t l u) in
        let s1 = (db.set s t audit_seq_key num 0).1 in
        rw after (record {
          counted = λ t' l' u'.
              rw
                (
                  w.get-set s1 t t' (entry_key (n + 1)) audit_seq_key raw audit_retention,
                  seq-ne-entry (n + 1),
                  w.get-set s t t' audit_seq_key audit_seq_key num 0,
                  ui,
                )
                (omega (arith, length-append h (x ∷ [])));
          kept = λ t' i y l' u' at_i near. elim (get_elem?-append_last h x y i at_i) [
            | inr (last, same) ↦
                rw (last, same)
                  (let soon : in_time audit_retention t t' ≡ true = ground arith in
                    rw (
                      w.get-set s1 t t' (entry_key (n + 1)) (entry_key (n + 1)) raw audit_retention,
                      eq_refl (entry_key (n + 1)),
                      soon,
                      uj,
                    ))
            | inl earlier ↦
                let room = length-append h (x ∷ []) in
                let below = get_elem?-lt h y i earlier in
                rw
                  (
                    w.get-set s1 t t' (entry_key (n + 1)) (entry_key (i + 1)) raw audit_retention,
                    entry_key-apart (i + 1) (n + 1) (omega arith) (omega arith),
                    w.get-set s t t' audit_seq_key (entry_key (i + 1)) num 0,
                    entry-ne-seq (i + 1),
                  )
                  (holds.kept t' i y l' u' earlier (omega arith))
          ];
          in_order = λ i y at_i. elim (get_elem?-append_last h x y i at_i) [
            | inr (last, same) ↦ rw (last, same)
            | inl earlier ↦ holds.in_order i y earlier
          ];
        })

    -- Recording a history after another appends its events, numbered on.
    Holds-record_all :
        (s : db.State) (h : List AuditEvent) (log : List (ℕ × AuditEvent))
        → Within lo hi log
        → Holds db json ints lo hi s h
        → Holds db json ints lo hi
            (record_all db json ints s log)
            (h ++ number_from (length h + 1) log)
    unfolding record_all
    Holds-record_all s h [] v holds = rw append-nil holds
    Holds-record_all s h ((t, e) ∷ log) (l, u, v) holds =
        let x : AuditEvent = record e { seq = length h + 1 } in
        let rest =
          Holds-record_all (record_event db json ints s t e).0 (h ++ x ∷ []) log v
            (Holds-record s h t e l u holds) in
        subst
          (Holds db json ints lo hi
            (record_all db json ints (record_event db json ints s t e).0 log))
          (append_assoc h (x ∷ []) _
            ∙ ap (λ (m : ℕ). h ++ x ∷ number_from (m + 1) log) (length-append h (x ∷ [])))
          rest

    -- A storage with no counter, as a new one, holds the empty history.
    Holds-fresh :
        (s : db.State)
        → ((t : ℕ) → counter db json ints s t audit_seq_key ≡ 0)
        → Holds db json ints lo hi s []
    Holds-fresh s fresh = record {
      counted = λ t l u. fresh t;
      kept = λ t i e l u at_i near. absurd (ground arith);
      in_order = λ i e at_i. absurd (ground arith);
    }

    -- From a storage with no counter, the ring holds the history that was recorded.
    pub Holds-history :
        (s : db.State) (log : List (ℕ × AuditEvent))
        → ((t : ℕ) → counter db json ints s t audit_seq_key ≡ 0)
        → Within lo hi log
        → Holds db json ints lo hi (record_all db json ints s log) (number_from 1 log)
    Holds-history s log fresh v = Holds-record_all s [] log v (Holds-fresh s fresh)
