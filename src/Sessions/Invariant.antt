-- ===== src/Sessions/Invariant.antt =====
-- Every index in the storage keeps its shape, whatever sequence of operations runs.
use mokey.Base.{
  Bool, Bool-cases, List, String, [], any, ap, arith, inl, inr, length, ltb, map, nat_eq, not, refl,
  string_eq, suc, ℕ, ◌++◌, ◌==◌, ◌∙◌, ◌∷◌, ◌≡◌,
}
use mokey.Storage.{Storage, Codec, IsWorking, in_time}
use mokey.Sessions.{
  SessionEntry, UserSession, user_sessions_ttl, index_key, stored, load_session_index,
  save_session_index, mark_current, live_sessions, record_user_session, user_sessions,
  revoke_user_session, revoke_loop, revoke_other_user_sessions, drop_session_from_index,
}
use mokey.Sessions.Index.{unmark, map-unmarked-stored}
use mokey.Sessions.Revoke.{revoke_loop_kept}
use mokey.Sessions.Listing.{live_sessions-eq}
use mokey.Sessions.Shape.{Distinct, IsIndex, IsIndex-filter, IsIndex-record}

-- One operation of the component, at the time it is called.
pub data Operation : Type 0 where
  login : String → SessionEntry → Operation
  listing : String → String → Operation
  revoke : String → String → Operation
  revoke_rest : String → String → Operation
  logout : String → String → Operation

-- A change that leaves the ids alone leaves the shape alone.
module _ (f : UserSession → UserSession) (same : (x : UserSession) → (f x).sid ≡ x.sid) where
  any-map_same :
      (q : String → Bool) (xs : List UserSession)
      → any (λ x. q x.sid) (map f xs) ≡ any (λ x. q x.sid) xs
  any-map_same q [] = refl
  any-map_same q (x ∷ xs) = rw (same x, any-map_same q xs)

  Distinct-map_same : (xs : List UserSession) → Distinct xs → Distinct (map f xs)
  Distinct-map_same [] h = tt
  Distinct-map_same (x ∷ xs) (fresh, h) =
      (any-map_same (λ j. j == (f x).sid) xs ∙ rw (same x) fresh, Distinct-map_same xs h)

  length-map_same : (xs : List UserSession) → length (map f xs) ≡ length xs
  length-map_same [] = refl
  length-map_same (x ∷ xs) = ap suc (length-map_same xs)

  IsIndex-map_same : (xs : List UserSession) → IsIndex xs → IsIndex (map f xs)
  IsIndex-map_same xs h = record {
    bounded = omega (arith, length-map_same xs, h.bounded);
    distinct = Distinct-map_same xs h.distinct;
  }

IsIndex-nil : IsIndex []
IsIndex-nil = record { bounded = omega arith; distinct = tt }

module _ {Bytes : Type 0} (db : Storage Bytes) (json : Codec Bytes (List SessionEntry)) where
  unfoldable pub apply : db.State → ℕ → Operation → db.State
  apply s now (login u e) = record_user_session db json s now u e
  apply s now (listing u cur) = (user_sessions db json s now u cur).0
  apply s now (revoke u sid) = (revoke_user_session db json s now u sid).0
  apply s now (revoke_rest u cur) = (revoke_other_user_sessions db json s now u cur).0
  apply s now (logout u sid) = drop_session_from_index db json s now u sid

  unfoldable pub run : db.State → List (ℕ × Operation) → db.State
  run s [] = s
  run s ((now, op) ∷ ops) = run (apply s now op) ops

  -- Every user's index has the shape, whenever it is read.
  abbrev pub AllSound : db.State → Type 0
  AllSound s = (v : String) (t : ℕ) → IsIndex (load_session_index db json s t v)

module _ {Bytes : Type 0} (db : Storage Bytes) (json : Codec Bytes (List SessionEntry))
    (w : IsWorking db) where
  AllSound-delete :
      (s : db.State) (t : ℕ) (k : String)
      → AllSound db json s
      → AllSound db json (db.delete s t k).1
  unfolding load_session_index
  AllSound-delete s t k h v t' = elim (Bool-cases (k == index_key v)) [
    | inl same ↦ rw (w.get-delete s t t' k (index_key v), same) IsIndex-nil
    | inr other ↦ rw (w.get-delete s t t' k (index_key v), other) (h v t')
  ]

  AllSound-save :
      (s : db.State) (t : ℕ) (u : String) (xs : List UserSession)
      → AllSound db json s
      → IsIndex xs
      → AllSound db json (save_session_index db json s t u xs)
  unfolding save_session_index load_session_index
  AllSound-save s t u [] h k v t' = AllSound-delete s t (index_key u) h v t'
  AllSound-save s t u (x ∷ xs) h k v t' =
      let (raw, m, um) = json.roundtrip (map stored (x ∷ xs)) in
      rw (m, w.get-set s t t' (index_key u) (index_key v) raw user_sessions_ttl)
        (elim (Bool-cases (index_key u == index_key v)) [
          | inr other ↦ rw other (h v t')
          | inl same ↦ elim (Bool-cases (in_time user_sessions_ttl t t')) [
            | inl soon ↦
                rw (same, soon, um)
                  (rw (map-unmarked-stored (x ∷ xs))
                    (IsIndex-map_same unmark (λ y. refl) (x ∷ xs) k))
            | inr late ↦ rw (same, late) IsIndex-nil
          ]
        ])

  IsIndex-live :
      (s : db.State) (t : ℕ) (cur : String) (xs : List UserSession)
      → IsIndex xs
      → IsIndex (live_sessions db json s t cur xs)
  unfolding mark_current
  IsIndex-live s t cur xs h =
      rw (live_sessions-eq db json s t cur xs)
        (IsIndex-map_same (mark_current cur) (λ y. refl) _ (IsIndex-filter _ xs h))

  AllSound-revoke_loop :
      (s : db.State) (t : ℕ) (cur : String) (xs kept : List UserSession) (n : ℕ)
      → AllSound db json s
      → AllSound db json (revoke_loop db json s t cur xs kept n).0
  unfolding revoke_loop
  AllSound-revoke_loop s t cur [] kept n h = h
  AllSound-revoke_loop s t cur (x ∷ xs) kept n h = elim (Bool-cases (x.sid == cur)) [
    | inl same ↦ rw same (AllSound-revoke_loop s t cur xs (kept ++ x ∷ []) n h)
    | inr other ↦
        rw other (
          AllSound-revoke_loop (db.delete s t x.sid).1 t cur xs kept _
            (AllSound-delete s t x.sid h))
  ]

  -- From a storage whose indexes have the shape, every sequence of logins, listings, revocations
  -- and logouts of any users, at any times, leads to one whose indexes have it.
  pub apply-AllSound :
      (s : db.State) (now : ℕ) (op : Operation)
      → AllSound db json s
      → AllSound db json (apply db json s now op)
  unfolding apply record_user_session user_sessions revoke_user_session revoke_other_user_sessions
      drop_session_from_index
  apply-AllSound s now (login u e) h = AllSound-save s now u _ h (IsIndex-record _ e (h u now))
  apply-AllSound s now (listing u cur) h =
      let xs = load_session_index db json s now u in
      let live = live_sessions db json s now cur xs in
      elim (Bool-cases (not (length live == length xs))) [
        | inl pruned ↦
            rw pruned (AllSound-save s now u live h (IsIndex-live s now cur xs (h u now)))
        | inr same ↦ elim (Bool-cases (ltb 0 (length live))) [
          | inl some_left ↦ rw (same, some_left) (AllSound-save s now u xs h (h u now))
          | inr none_left ↦ rw (same, none_left) h
        ]
      ]
  apply-AllSound s now (revoke u sid) h =
      let xs = load_session_index db json s now u in
      elim (Bool-cases (any (λ x. x.sid == sid) xs)) [
        | inl own ↦
            rw (own, apply)
              (AllSound-save (db.delete s now sid).1 now u _ (AllSound-delete s now sid h)
                (IsIndex-filter _ xs (h u now)))
        | inr foreign ↦ rw (foreign, apply) h
      ]
  apply-AllSound s now (revoke_rest u cur) h =
      let xs = load_session_index db json s now u in
      AllSound-save _ now u _ (AllSound-revoke_loop s now cur xs [] 0 h)
        (rw (revoke_loop_kept db json w s now cur xs [] 0).0 (IsIndex-filter _ xs (h u now)))
  apply-AllSound s now (logout u sid) h = AllSound-save s now u _ h (IsIndex-filter _ _ (h u now))

  -- Whatever sequence of logins, listings, revocations and logouts of any users runs on a storage
  -- that answers, each user's index holds at most userSessionsMax entries and no session id twice,
  -- whenever it is read, if that was so before.
  pub run-AllSound :
      (s : db.State) (ops : List (ℕ × Operation))
      → AllSound db json s
      → AllSound db json (run db json s ops)
  unfolding run
  run-AllSound s [] h = h
  run-AllSound s ((now, op) ∷ ops) h =
      run-AllSound (apply db json s now op) ops (apply-AllSound s now op h)
