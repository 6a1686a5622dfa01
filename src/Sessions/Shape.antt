-- ===== src/Sessions/Shape.antt =====
-- The shape of an index: at most `userSessionsMax` entries, and one for each session id.
use mokey.Base.{
  Bool, Bool-cases, List, String, [], any, arith, drop, eq_iff, false, filter, inl, inr, length,
  length-append, length-drop, length-filter, ltb, nat_eq, not, refl, string_eq, suc, zero, ℕ, ◌++◌,
  ◌-◌, ◌==◌, ◌∷◌, ◌≡◌, ◌≤◌,
}
use mokey.Sessions.{SessionEntry, UserSession, user_sessions_max, unmarked, newest}

abbrev pub Distinct : List UserSession → Type 0
Distinct [] = Unit
Distinct (x ∷ xs) = (any (λ y. y.sid == x.sid) xs ≡ false) × Distinct xs

pub record IsIndex (xs : List UserSession) : Type 0 where
  pub bounded : length xs ≤ user_sessions_max
  pub distinct : Distinct xs

any-filter-false :
    (p q : UserSession → Bool) (xs : List UserSession)
    → any q xs ≡ false
    → any q (filter p xs) ≡ false
any-filter-false p q [] h = refl
any-filter-false p q (x ∷ xs) h = ground (arith, any-filter-false p q xs)

pub Distinct-filter :
    (p : UserSession → Bool) (xs : List UserSession) → Distinct xs → Distinct (filter p xs)
Distinct-filter p [] h = tt
Distinct-filter p (x ∷ xs) (fresh, h) = elim (Bool-cases (p x)) [
  | inl keep ↦ rw keep (any-filter-false p (λ y. y.sid == x.sid) xs fresh, Distinct-filter p xs h)
  | inr out ↦ rw out (Distinct-filter p xs h)
]

pub IsIndex-filter :
    (p : UserSession → Bool) (xs : List UserSession) → IsIndex xs → IsIndex (filter p xs)
IsIndex-filter p xs h = record {
  bounded = omega (arith, length-filter p xs, h.bounded);
  distinct = Distinct-filter p xs h.distinct;
}

Distinct-drop : (n : ℕ) (xs : List UserSession) → Distinct xs → Distinct (drop n xs)
Distinct-drop zero xs h = h
Distinct-drop (suc n) [] h = tt
Distinct-drop (suc n) (x ∷ xs) h = Distinct-drop n xs h.1

any-append_new :
    (sid : String) (xs : List UserSession) (e : SessionEntry)
    → any (λ y. y.sid == sid) xs ≡ false
    → (e.sid == sid) ≡ false
    → any (λ y. y.sid == sid) (xs ++ unmarked e ∷ []) ≡ false
any-append_new sid [] e h k = ground arith
any-append_new sid (x ∷ xs) e h k = ground (arith, any-append_new sid xs e)

-- Appending an entry whose id was filtered out first keeps the ids distinct.
Distinct-record :
    (xs : List UserSession) (e : SessionEntry)
    → Distinct xs
    → Distinct (filter (λ x. not (x.sid == e.sid)) xs ++ unmarked e ∷ [])
Distinct-record [] e h = (refl, tt)
Distinct-record (x ∷ xs) e (fresh, h) = elim (Bool-cases (x.sid == e.sid)) [
  | inl old ↦ rw old (Distinct-record xs e h)
  | inr new ↦ rw new (
    any-append_new x.sid _ e (any-filter-false _ (λ y. y.sid == x.sid) xs fresh)
        (ground (arith, eq_iff x.sid e.sid, eq_iff e.sid x.sid)),
    Distinct-record xs e h,
  )
]

pub IsIndex-record :
    (xs : List UserSession) (e : SessionEntry)
    → IsIndex xs
    → IsIndex (newest (filter (λ x. not (x.sid == e.sid)) xs ++ unmarked e ∷ []))
unfolding newest
IsIndex-record xs e h =
    let kept = filter (λ x. not (x.sid == e.sid)) xs ++ unmarked e ∷ [] in
    let d = Distinct-record xs e h.distinct in
    elim (Bool-cases (ltb user_sessions_max (length kept))) [
      | inl over ↦ rw over (record {
        bounded = ground (arith, length-drop (length kept - user_sessions_max) kept);
        distinct = Distinct-drop (length kept - user_sessions_max) kept d;
      })
      | inr fits ↦ rw fits (record { bounded = ground arith; distinct = d })
    ]

-- The newest entry is never the one that falls off.
drop-append_last :
    {A : Type 0} (n : ℕ) (xs : List A) (a : A)
    → n ≤ length xs
    → drop n (xs ++ a ∷ []) ≡ drop n xs ++ a ∷ []
drop-append_last zero xs a h = refl
drop-append_last (suc n) [] a h = elim h [ ]
drop-append_last (suc n) (x ∷ xs) a h = drop-append_last n xs a (omega arith)

pub newest-append_last :
    (xs : List UserSession) (x : UserSession)
    → (front : List UserSession) × (newest (xs ++ x ∷ []) ≡ front ++ x ∷ [])
unfolding newest
newest-append_last xs x =
    let kept = xs ++ x ∷ [] in
    elim (Bool-cases (ltb user_sessions_max (length kept))) [
      | inl over ↦ (
        drop (length kept - user_sessions_max) xs,
        rw over (
            drop-append_last (length kept - user_sessions_max) xs x
              (omega (arith, length-append xs (x ∷ [])))),
      )
      | inr fits ↦ (xs, rw fits)
    ]
