-- ===== src/Sessions/Listing.antt =====
-- `userSessions`: what the security page lists, and the index that it leaves.
use mokey.Base.{
  Bool, Bool-cases, List, String, [], ap, arith, filter, filter-length_eq, inl, inr, length, ltb,
  map, nat_eq, not, refl, reverse, string_eq, suc, sym, ℕ, ◌==◌, ◌∙◌, ◌∷◌, ◌≡◌,
}
use mokey.Storage.{Storage, Codec, IsWorking}
use mokey.Sessions.{
  SessionEntry, UserSession, load_session_index, session_alive, mark_current, live_sessions,
  user_sessions,
}
use mokey.Sessions.Index.{unmark, load-unmark, load-save}
use mokey.Sessions.Revoke.{filter-unmark}

map-unmark-mark :
    (cur : String) (xs : List UserSession) → map unmark (map (mark_current cur) xs) ≡ map unmark xs
unfolding mark_current
map-unmark-mark cur [] = refl
map-unmark-mark cur (x ∷ xs) = ap (λ r. unmark x ∷ r) (map-unmark-mark cur xs)

length-mark :
    (cur : String) (xs : List UserSession) → length (map (mark_current cur) xs) ≡ length xs
length-mark cur [] = refl
length-mark cur (x ∷ xs) = ap suc (length-mark cur xs)

module _ {Bytes : Type 0} (db : Storage Bytes) (json : Codec Bytes (List SessionEntry)) where
  -- The loop keeps the sessions that are alive, in order, and marks them.
  pub live_sessions-eq :
      (s : db.State) (t : ℕ) (cur : String) (xs : List UserSession)
      → live_sessions db json s t cur xs
        ≡ map (mark_current cur) (filter (λ x. session_alive db s t x.sid) xs)
  unfolding live_sessions
  live_sessions-eq s t cur [] = refl
  live_sessions-eq s t cur (x ∷ xs) = ground (arith, live_sessions-eq s t cur xs)

module _ {Bytes : Type 0} (db : Storage Bytes) (json : Codec Bytes (List SessionEntry))
    (w : IsWorking db) where
  -- On a storage that answers, the page lists the indexed sessions whose data still exist, newest
  -- first, with the caller's own marked, and leaves an index of exactly those.
  pub user_sessions_lem :
      (s : db.State) (t : ℕ) (u cur : String)
      → ((user_sessions db json s t u cur).1
          ≡ reverse (
              map
                (mark_current cur)
                (filter (λ x. session_alive db s t x.sid) (load_session_index db json s t u))))
        × (load_session_index db json (user_sessions db json s t u cur).0 t u
            ≡ filter (λ x. session_alive db s t x.sid) (load_session_index db json s t u))
  unfolding user_sessions
  user_sessions_lem s t u cur =
      let xs = load_session_index db json s t u in
      let alive : UserSession → Bool = λ x. session_alive db s t x.sid in
      let stripped : map unmark (filter alive xs) ≡ filter alive xs =
        filter-unmark (session_alive db s t) xs ∙ ap (filter alive) (load-unmark db json w s t u) in
      let len = length-mark cur (filter alive xs) in
      (
        ap reverse (live_sessions-eq db json s t cur xs),
        rw (live_sessions-eq db json s t cur xs)
            (elim (Bool-cases
              (not (length (map (mark_current cur) (filter alive xs)) == length xs))) [
                | inl pruned ↦ rw pruned (
                    load-save db json w s t t u _ (omega arith)
                    ∙ map-unmark-mark cur (filter alive xs)
                    ∙ stripped)
                | inr same ↦
                    let whole : filter alive xs ≡ xs =
                      filter-length_eq alive xs (ground (arith, len)) in
                    elim (Bool-cases (ltb 0 (length (map (mark_current cur) (filter alive xs))))) [
                      | inl left ↦
                          rw (same, left)
                            (load-save db json w s t t u xs (omega arith)
                              ∙ load-unmark db json w s t u
                              ∙ sym whole)
                      | inr none_left ↦ rw (same, none_left) (sym whole)
                    ]
              ]),
      )
