-- ===== src/Sessions/Revoke.antt =====
-- `revokeUserSession` and `revokeOtherUserSessions`: whose sessions end, and whose do not.
use mokey.Base.{
  Bool, Bool-cases, List, String, [], any, ap, append-nil, append_assoc, arith, count, eq_refl,
  false, filter, if◌then◌else◌, inl, inr, map, nat_eq, not, refl, string_eq, sym, true, ℕ, ◌&&◌,
  ◌++◌, ◌+◌, ◌<◌, ◌==◌, ◌∙◌, ◌∷◌, ◌≡◌,
}
use mokey.Storage.{Storage, Codec, is_found, IsWorking}
use mokey.Sessions.{
  SessionEntry, UserSession, user_sessions_ttl, index_key, load_session_index, save_session_index,
  session_alive, revoke_user_session, revoke_loop, revoke_other_user_sessions,
}
use mokey.Sessions.Index.{unmark, load-save, get-save, load-unmark}

-- A test on the session id alone does not see the mark.
pub filter-unmark :
    (q : String → Bool) (xs : List UserSession)
    → map unmark (filter (λ x. q x.sid) xs) ≡ filter (λ x. q x.sid) (map unmark xs)
filter-unmark q [] = refl
filter-unmark q (x ∷ xs) = ground (arith, filter-unmark q xs)

-- The ids of a list of sessions are not the keys of its owner's index.
abbrev pub OffIndex : String → List UserSession → Type 0
OffIndex u [] = Unit
OffIndex u (x ∷ xs) = ((index_key u == x.sid) ≡ false) × OffIndex u xs

module _ {Bytes : Type 0} (db : Storage Bytes) (json : Codec Bytes (List SessionEntry))
    (w : IsWorking db) where
  pub alive-delete :
      (s : db.State) (t t' : ℕ) (k j : String)
      → session_alive db (db.delete s t k).1 t' j
        ≡ (if k == j then false else session_alive db s t' j)
  unfolding session_alive
  alive-delete s t t' k j = rw (w.get-delete s t t' k j) (ground arith)

  pub alive-save :
      (s : db.State) (t t' : ℕ) (u j : String) (xs : List UserSession)
      → (index_key u == j) ≡ false
      → session_alive db (save_session_index db json s t u xs) t' j ≡ session_alive db s t' j
  unfolding session_alive
  alive-save s t t' u j xs h = ap is_found (get-save db json w s t t' u j xs h)

  load-save-filter :
      (s s' : db.State) (t t' : ℕ) (u : String) (q : String → Bool)
      → t' < t + user_sessions_ttl
      → load_session_index db json
          (save_session_index db json s' t u
            (filter (λ x. q x.sid) (load_session_index db json s t u)))
          t'
          u
        ≡ filter (λ x. q x.sid) (load_session_index db json s t u)
  load-save-filter s s' t t' u q h =
      load-save db json w s' t t' u _ h
      ∙ filter-unmark q (load_session_index db json s t u)
      ∙ ap (filter (λ x. q x.sid)) (load-unmark db json w s t u)

  -- A session of the user's own that is revoked is gone from the storage and from the index; the
  -- rest of the index stays, in its order.
  pub revoke_own :
      (s : db.State) (t t' : ℕ) (u sid : String)
      → any (λ x. x.sid == sid) (load_session_index db json s t u) ≡ true
      → (index_key u == sid) ≡ false
      → t' < t + user_sessions_ttl
      → ((revoke_user_session db json s t u sid).1 ≡ true)
        × (session_alive db (revoke_user_session db json s t u sid).0 t' sid ≡ false)
        × (load_session_index db json (revoke_user_session db json s t u sid).0 t' u
            ≡ filter (λ x. not (x.sid == sid)) (load_session_index db json s t u))
  unfolding revoke_user_session
  revoke_own s t t' u sid own off soon = rw own (
    refl,
    alive-save (db.delete s t sid).1 t t' u sid _ off
        ∙ alive-delete s t t' sid sid
        ∙ rw (eq_refl sid) refl,
    load-save-filter s _ t t' u (λ j. not (j == sid)) soon,
  )

  -- A session id that is not in the user's index is refused, and nothing changes.
  pub revoke_foreign :
      (s : db.State) (t : ℕ) (u sid : String)
      → any (λ x. x.sid == sid) (load_session_index db json s t u) ≡ false
      → revoke_user_session db json s t u sid ≡ (s, false)
  unfolding revoke_user_session
  revoke_foreign s t u sid foreign = rw foreign

  -- The loop keeps the current session and counts the others.
  pub revoke_loop_kept :
      (s : db.State) (t : ℕ) (cur : String) (xs kept : List UserSession) (n : ℕ)
      → ((revoke_loop db json s t cur xs kept n).1 ≡ kept ++ filter (λ x. x.sid == cur) xs)
        × ((revoke_loop db json s t cur xs kept n).2 ≡ n + count (λ x. not (x.sid == cur)) xs)
  unfolding revoke_loop
  revoke_loop_kept s t cur [] kept n = (sym (append-nil kept), omega arith)
  revoke_loop_kept s t cur (x ∷ xs) kept n = elim (Bool-cases (x.sid == cur)) [
    | inl same ↦
        let (k, c) = revoke_loop_kept s t cur xs (kept ++ x ∷ []) n in
        rw same (k ∙ append_assoc kept (x ∷ []) _, c)
    | inr other ↦
        let (k, c) = revoke_loop_kept (db.delete s t x.sid).1 t cur xs kept (n + 1) in
        rw (other, w.delete_ok s t x.sid) (k, omega arith)
  ]

  -- After the loop a session is alive if it was, and is not one of the others in the list.
  revoke_loop_alive :
      (s : db.State) (t t' : ℕ) (cur j : String) (xs kept : List UserSession) (n : ℕ)
      → session_alive db (revoke_loop db json s t cur xs kept n).0 t' j ≡ (
          if any (λ x. x.sid == j && not (x.sid == cur)) xs then false else session_alive db s t' j)
  unfolding revoke_loop
  revoke_loop_alive s t t' cur j [] kept n = refl
  revoke_loop_alive s t t' cur j (x ∷ xs) kept n = ground (
    arith,
    w.delete_ok s t x.sid,
    alive-delete s t t' x.sid j,
    revoke_loop_alive s t t' cur j xs (kept ++ x ∷ []) n,
    revoke_loop_alive (db.delete s t x.sid).1 t t' cur j xs kept (n + 1),
  )

  -- On a storage that answers, signing out everywhere else leaves the current session alone in the
  -- index, reports how many others there were, and ends exactly the other sessions of the index:
  -- any key but the index's own reads as before.
  pub revoke_others :
      (s : db.State) (t t' : ℕ) (u cur : String)
      → t' < t + user_sessions_ttl
      → (load_session_index db json (revoke_other_user_sessions db json s t u cur).0 t' u
          ≡ filter (λ x. x.sid == cur) (load_session_index db json s t u))
        × ((revoke_other_user_sessions db json s t u cur).1
            ≡ count (λ x. not (x.sid == cur)) (load_session_index db json s t u))
        × ((j : String)
            → (index_key u == j) ≡ false
            → session_alive db (revoke_other_user_sessions db json s t u cur).0 t' j ≡ (
                if any (λ x. x.sid == j && not (x.sid == cur)) (load_session_index db json s t u)
                then false
                else session_alive db s t' j))
  unfolding revoke_other_user_sessions
  revoke_others s t t' u cur soon =
      let xs = load_session_index db json s t u in
      let s' = (revoke_loop db json s t cur xs [] 0).0 in
      let (kept, counted) = revoke_loop_kept s t cur xs [] 0 in
      (
        rw kept (load-save-filter s s' t t' u (λ j. j == cur) soon),
        omega arith,
        λ j off.
            alive-save s' t t' u j (revoke_loop db json s t cur xs [] 0).1 off
            ∙ revoke_loop_alive s t t' cur j xs [] 0,
      )
