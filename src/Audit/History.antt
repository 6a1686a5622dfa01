-- ===== src/Audit/History.antt =====
-- The readers of the audit trail over a recorded history: the API's pages, and the two lists of
-- recent events.
use mokey.Base.{
  Bool, List, String, [], ap, arith, drop, filter, if◌then◌else◌, length, length-drop, ltb, max,
  nat_eq, refl, reverse, string_eq, subst, suc, sym, take, true, zero, ℕ, ◌++◌, ◌+◌, ◌-◌, ◌<◌, ◌∙◌,
  ◌∷◌, ◌≡◌, ◌≤◌,
}
use mokey.Storage.{Storage, Codec, IsWorking}
use mokey.Audit.{
  AuditEvent, audit_ring_size, audit_after, audit_recent, audit_retention, audit_seq_key,
  audit_user_recent, counter, involves, negative, after_loop, after_seq, recent_loop,
}
use mokey.Audit.Read.{drop-nil, after_loop_lem, recent_loop_lem, take-all}
use mokey.Audit.Ring.{Holds, Holds-history, Within, number_from, record_all}

length-number_from : (n : ℕ) (log : List (ℕ × AuditEvent)) → length (number_from n log) ≡ length log
length-number_from n [] = refl
length-number_from n ((t, e) ∷ log) = ap suc (length-number_from (n + 1) log)

filter-true : (xs : List AuditEvent) → filter (λ e. true) xs ≡ xs
filter-true [] = refl
filter-true (x ∷ xs) = ap (λ l. x ∷ l) (filter-true xs)

take-take-drop :
    {A : Type 0} (m n : ℕ) (xs : List A)
    → m ≤ length xs
    → take m xs ++ take n (drop m xs) ≡ take (m + n) xs
take-take-drop zero n xs h = ap (λ (k : ℕ). take k xs) (omega arith)
take-take-drop (suc m) n [] h = elim h [ ]
take-take-drop (suc m) n (x ∷ xs) h =
    ap (λ l. x ∷ l) (take-take-drop m n xs (omega arith))
    ∙ ap (λ (k : ℕ). take k (x ∷ xs)) {x = suc (m + n)} (omega arith)

drop-drop : {A : Type 0} (m n : ℕ) (xs : List A) → drop n (drop m xs) ≡ drop (m + n) xs
drop-drop zero n xs = ap (λ (k : ℕ). drop k xs) (omega arith)
drop-drop (suc m) n [] = drop-nil n ∙ sym (drop-nil (suc m + n))
drop-drop (suc m) n (x ∷ xs) =
    drop-drop m n xs ∙ ap (λ (k : ℕ). drop k (x ∷ xs)) {x = suc (m + n)} (omega arith)

-- The history was recorded from a storage with no counter, within a window no longer than the
-- retention, and is read in it.
module _ {Bytes : Type 0} (db : Storage Bytes) (json : Codec Bytes AuditEvent)
    (ints : Codec Bytes ℕ) (w : IsWorking db) (lo hi : ℕ) (short : hi ≤ lo + audit_retention)
    (s : db.State) (log : List (ℕ × AuditEvent))
    (fresh : (t : ℕ) → counter db json ints s t audit_seq_key ≡ 0) (recorded : Within lo hi log)
    (t : ℕ) (l : lo ≤ t) (u : t < hi) where
  abbrev h : List AuditEvent
  h = number_from 1 log

  holds : Holds db json ints lo hi (record_all db json ints s log) h
  holds = Holds-history db json ints w lo hi short s log fresh recorded

  count-eq : counter db json ints (record_all db json ints s log) t audit_seq_key ≡ length log
  count-eq = holds.counted t l u ∙ length-number_from 1 log

  after_of :
      (start n : ℕ)
      → start ≤ length log
      → length log ≤ start + audit_ring_size
      → after_loop db json ints (record_all db json ints s log) t (start + 1) (length log - start) n
        ≡ take n (drop start h)
  after_of start n le near =
      after_loop_lem db json ints lo hi _ h holds t l u start (length log - start) n
        (omega (arith, length-number_from 1 log)) (omega (arith, length-number_from 1 log))

  recent_of :
      (test : AuditEvent → Bool) (n : ℕ)
      → recent_loop db json ints test
          (record_all db json ints s log)
          t
          (length log - audit_ring_size)
          (length log)
          n
        ≡ take n (filter test (reverse (drop (length log - audit_ring_size) h)))
  recent_of test n =
      subst
        (λ (k : ℕ).
          recent_loop db json ints test (record_all db json ints s log) t (k - audit_ring_size) k n
          ≡ take n (filter test (reverse (drop (k - audit_ring_size) h))))
        (length-number_from 1 log)
        (recent_loop_lem db json ints lo hi _ h holds t l u test (length h) n (omega arith)
          ∙ ap (λ m. take n (filter test (reverse (drop (length h - audit_ring_size) m))))
              (take-all h))

  -- After a history of recorded events on a storage that answers, within the retention, the page
  -- after a cursor is the events that follow it, oldest first, from the newest 1000; a cursor below
  -- zero or ahead of the history starts over.
  pub audit_after_lem :
      (after n : ℕ)
      → (audit_after db json ints (record_all db json ints s log) t (after_seq after) n
          ≡ take n (
              drop
                (max (if ltb (length log) after then 0 else after) (length log - audit_ring_size))
                (number_from 1 log)))
        × (audit_after db json ints (record_all db json ints s log) t negative n
            ≡ take n (drop (length log - audit_ring_size) (number_from 1 log)))
  unfolding audit_after
  audit_after_lem after n = rw count-eq (
    after_of (max (if ltb (length log) after then 0 else after) (length log - audit_ring_size)) n
        (ground arith) (ground arith),
    ap
          (λ (k : ℕ).
            after_loop db json ints (record_all db json ints s log) t (k + 1) (length log - k) n)
          {x = max 0 (length log - audit_ring_size)} (omega arith)
        ∙ after_of (length log - audit_ring_size) n (omega arith) (omega arith),
  )

  -- The recent events are the newest of the history, newest first, and of a user those that name
  -- the user.
  pub audit_recent_lem :
      (username : String) (n : ℕ)
      → (audit_recent db json ints (record_all db json ints s log) t n
          ≡ take n (reverse (drop (length log - audit_ring_size) (number_from 1 log))))
        × (audit_user_recent db json ints (record_all db json ints s log) t username n
            ≡ take n (
                filter
                  (involves username)
                  (reverse (drop (length log - audit_ring_size) (number_from 1 log)))))
  unfolding audit_recent audit_user_recent
  audit_recent_lem username n =
      rw count-eq
        (recent_of (λ e. true) n ∙ ap (take n) (filter-true _), recent_of (involves username) n)

  page :
      (after n : ℕ)
      → length log ≤ after + audit_ring_size
      → after ≤ length log
      → audit_after db json ints (record_all db json ints s log) t (after_seq after) n
        ≡ take n (drop after h)
  page after n near room =
      (audit_after_lem after n).0 ∙ ap (λ (k : ℕ). take n (drop k h)) {y = after} (ground arith)

  -- Paging: a page and the page that follows its last number are together the one page of both
  -- sizes, so no event is lost or seen twice between them.
  pub pages_join :
      (after m n : ℕ)
      → length log ≤ after + audit_ring_size
      → after + m ≤ length log
      → audit_after db json ints (record_all db json ints s log) t (after_seq after) m
          ++ audit_after db json ints (record_all db json ints s log) t (after_seq (after + m)) n
        ≡ audit_after db json ints (record_all db json ints s log) t (after_seq after) (m + n)
  pages_join after m n near room =
      rw
        (
          page after m near (omega arith),
          page (after + m) n (omega arith) room,
          page after (m + n) near (omega arith),
          sym (drop-drop after m h),
        )
        (take-take-drop m n (drop after h)
          (omega (arith, length-drop after h, length-number_from 1 log)))
