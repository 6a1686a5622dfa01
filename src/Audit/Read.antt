-- ===== src/Audit/Read.antt =====
-- What the three readers of the ring return, over the history of recorded events.
use mathlib.Core.List.{reverse-append}
use mokey.Base.{
  Bool, Bool-cases, List, [], ap, arith, drop, filter, get_elem?, get_elem?-lt, if◌then◌else◌, inl,
  inr, leb, length, nat_eq, refl, reverse, some, string_eq, suc, sym, take, zero, ℕ, ◌++◌, ◌+◌, ◌-◌,
  ◌<◌, ◌∙◌, ◌∷◌, ◌≡◌, ◌≤◌,
}
use mokey.Storage.{Storage, Codec}
use mokey.Audit.{AuditEvent, audit_ring_size, after_loop, recent_loop, fetch_event}
use mokey.Audit.Ring.{Holds}

module _ {A : Type 0} where
  pub take-filter_cons :
      (p : A → Bool) (n : ℕ) (x : A) (xs : List A)
      → take (suc n) (filter p (x ∷ xs))
        ≡ (if p x then x ∷ take n (filter p xs) else take (suc n) (filter p xs))
  take-filter_cons p n x xs = ground arith

  take-nil : (n : ℕ) → take {A = A} n [] ≡ []
  take-nil zero = refl
  take-nil (suc n) = refl

  pub drop-nil : (n : ℕ) → drop {A = A} n [] ≡ []
  drop-nil zero = refl
  drop-nil (suc n) = refl

  pub drop-cons_elem :
      (h : List A) (i : ℕ) (x : A) → get_elem? h i ≡ some x → drop i h ≡ x ∷ drop (suc i) h
  drop-cons_elem [] i x e = absurd (ground arith)
  drop-cons_elem (y ∷ h) zero x e = ground arith
  drop-cons_elem (y ∷ h) (suc i) x e = drop-cons_elem h i x e

  pub drop-beyond : (h : List A) (n : ℕ) → length h ≤ n → drop n h ≡ []
  drop-beyond [] zero h = refl
  drop-beyond [] (suc n) h = refl
  drop-beyond (x ∷ xs) zero h = elim h [ ]
  drop-beyond (x ∷ xs) (suc n) h = drop-beyond xs n (omega arith)

  pub get_elem?_of_lt : (h : List A) (i : ℕ) → i < length h → (x : A) × (get_elem? h i ≡ some x)
  get_elem?_of_lt [] i lt = elim lt [ ]
  get_elem?_of_lt (y ∷ h) zero lt = (y, refl)
  get_elem?_of_lt (y ∷ h) (suc i) lt = get_elem?_of_lt h i (omega arith)

  pub take-suc :
      (h : List A) (i : ℕ) (x : A) → get_elem? h i ≡ some x → take (suc i) h ≡ take i h ++ x ∷ []
  take-suc [] i x e = absurd (ground arith)
  take-suc (y ∷ h) zero x e = ground arith
  take-suc (y ∷ h) (suc i) x e = ap (λ l. y ∷ l) (take-suc h i x e)

  pub length-take_le : (h : List A) (i : ℕ) → i ≤ length h → length (take i h) ≡ i
  length-take_le h zero le = refl
  length-take_le [] (suc i) le = elim le [ ]
  length-take_le (y ∷ h) (suc i) le = ap suc (length-take_le h i (omega arith))

  pub drop-append_le :
      (xs ys : List A) (n : ℕ) → n ≤ length xs → drop n (xs ++ ys) ≡ drop n xs ++ ys
  drop-append_le xs ys zero le = refl
  drop-append_le [] ys (suc n) le = elim le [ ]
  drop-append_le (x ∷ xs) ys (suc n) le = drop-append_le xs ys n (omega arith)

  pub take-all : (h : List A) → take (length h) h ≡ h
  take-all [] = refl
  take-all (x ∷ h) = ap (λ l. x ∷ l) (take-all h)

module _ {Bytes : Type 0} (db : Storage Bytes) (json : Codec Bytes AuditEvent)
    (ints : Codec Bytes ℕ) where
  -- One round of each loop, over a slot that can be read.
  after_loop-step :
      (s : db.State) (t i rounds n : ℕ) (x : AuditEvent)
      → fetch_event db json ints s t (i + 1) ≡ some x
      → x.seq ≡ i + 1
      → after_loop db json ints s t (i + 1) (suc rounds) (suc n)
        ≡ x ∷ after_loop db json ints s t (i + 1 + 1) rounds n
  unfolding after_loop
  after_loop-step s t i rounds n x e k = ground arith

  recent_loop-step :
      (test : AuditEvent → Bool) (s : db.State) (t floor i n : ℕ) (x : AuditEvent)
      → fetch_event db json ints s t (suc i) ≡ some x
      → floor ≤ i
      → recent_loop db json ints test s t floor (suc i) (suc n) ≡ (
          if test x
          then x ∷ recent_loop db json ints test s t floor i n
          else recent_loop db json ints test s t floor i (suc n))
  unfolding recent_loop
  recent_loop-step test s t floor i n x e k = ground arith

  recent_loop-stop :
      (test : AuditEvent → Bool) (s : db.State) (t floor i n : ℕ)
      → i ≤ floor
      → recent_loop db json ints test s t floor i n ≡ []
  unfolding recent_loop
  recent_loop-stop test s t floor zero n k = refl
  recent_loop-stop test s t floor (suc i) zero k = refl
  recent_loop-stop test s t floor (suc i) (suc n) k = ground arith

module _ {Bytes : Type 0} (db : Storage Bytes) (json : Codec Bytes AuditEvent)
    (ints : Codec Bytes ℕ) (lo hi : ℕ) (s : db.State) (h : List AuditEvent)
    (holds : Holds db json ints lo hi s h) (t : ℕ) (l : lo ≤ t) (u : t < hi) where
  pub after_loop_lem :
      (i rounds n : ℕ)
      → length h ≡ i + rounds
      → length h ≤ i + audit_ring_size
      → after_loop db json ints s t (i + 1) rounds n ≡ take n (drop i h)
  unfolding after_loop
  after_loop_lem i zero n e near = rw (drop-beyond h i (omega arith)) (sym (take-nil n))
  after_loop_lem i (suc rounds) zero e near = refl
  after_loop_lem i (suc rounds) (suc n) e near =
      let (x, at_i) = get_elem?_of_lt h i (omega arith) in
      after_loop-step db json ints s t i rounds n x (holds.kept t i x l u at_i near)
        (holds.in_order i x at_i)
      ∙ rw (drop-cons_elem h i x at_i) (
          ap (λ r. x ∷ r)
            (ap (λ (m : ℕ). after_loop db json ints s t m rounds n) (omega arith)
              ∙ after_loop_lem (suc i) rounds n (omega arith) (omega arith)))

  drop-take-suc :
      (floor i : ℕ) (x : AuditEvent)
      → floor ≤ i
      → get_elem? h i ≡ some x
      → reverse (drop floor (take (suc i) h)) ≡ x ∷ reverse (drop floor (take i h))
  drop-take-suc floor i x le at_i =
      let below = get_elem?-lt h x i at_i in
      let len = length-take_le h i (omega arith) in
      ap (λ m. reverse (drop floor m)) (take-suc h i x at_i)
      ∙ ap reverse (drop-append_le (take i h) (x ∷ []) floor (omega arith))
      ∙ reverse-append (drop floor (take i h)) (x ∷ [])

  recent_loop_in :
      (test : AuditEvent → Bool) (i n : ℕ)
      → suc i ≤ length h
      → length h - audit_ring_size ≤ i
      → ((m : ℕ)
          → i ≤ length h
          → recent_loop db json ints test s t (length h - audit_ring_size) i m
            ≡ take m (filter test (reverse (drop (length h - audit_ring_size) (take i h)))))
      → recent_loop db json ints test s t (length h - audit_ring_size) (suc i) n
        ≡ take n (filter test (reverse (drop (length h - audit_ring_size) (take (suc i) h))))
  recent_loop_in test i zero le inside ih = unfold recent_loop in refl
  recent_loop_in test i (suc n) le inside ih =
      let floor = length h - audit_ring_size in
      let (x, at_i) = get_elem?_of_lt h i (omega arith) in
      let older = reverse (drop floor (take i h)) in
      let at_slot : fetch_event db json ints s t (suc i) ≡ some x =
        ap (fetch_event db json ints s t) (omega arith) ∙ holds.kept t i x l u at_i (omega arith) in
      recent_loop-step db json ints test s t floor i n x at_slot inside
      ∙ rw (drop-take-suc floor i x inside at_i, ih n (omega arith), ih (suc n) (omega arith))
          (sym (take-filter_cons test n x older))

  pub recent_loop_lem :
      (test : AuditEvent → Bool) (i n : ℕ)
      → i ≤ length h
      → recent_loop db json ints test s t (length h - audit_ring_size) i n
        ≡ take n (filter test (reverse (drop (length h - audit_ring_size) (take i h))))
  recent_loop_lem test zero n le =
      recent_loop-stop db json ints test s t _ 0 n (omega arith)
      ∙ rw (drop-nil {A = AuditEvent} (length h - audit_ring_size)) (sym (take-nil n))
  recent_loop_lem test (suc i) n le =
      let floor = length h - audit_ring_size in
      elim (Bool-cases (leb floor i)) [
        | inl inside ↦ recent_loop_in test i n le (ground arith) (recent_loop_lem test i)
        | inr outside ↦
            let past : suc i ≤ floor = ground arith in
            recent_loop-stop db json ints test s t floor (suc i) n past
            ∙ rw (drop-beyond (take (suc i) h) floor (omega (arith, length-take_le h (suc i) le)))
                (sym (take-nil n))
      ]
