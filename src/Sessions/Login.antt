-- ===== src/Sessions/Login.antt =====
-- `recordUserSession`: a login is in the index, stands first on the page, and pushes out only the
-- oldest.
use mokey.Base.{
  Bool, Bool-cases, List, String, [], ap, arith, drop, eq_refl, false, filter, filter-append, inl,
  inr, length, ltb, map, nat_eq, not, refl, reverse, string_eq, suc, true, zero, ℕ, ◌++◌, ◌+◌, ◌-◌,
  ◌<◌, ◌==◌, ◌∙◌, ◌∷◌, ◌≡◌,
}
use mathlib.Core.List.{map-append, reverse-append}
use mokey.Storage.{Storage, Codec, IsWorking}
use mokey.Sessions.{
  SessionEntry, UserSession, index_key, load_session_index, mark_current, newest,
  record_user_session, session_alive, unmarked, user_sessions, user_sessions_max, user_sessions_ttl,
}
use mokey.Sessions.Index.{unmark, load-save, load-unmark}
use mokey.Sessions.Revoke.{filter-unmark, alive-save}
use mokey.Sessions.Shape.{newest-append_last}
use mokey.Sessions.Listing.{user_sessions_lem}

drop-unmark : (n : ℕ) (xs : List UserSession) → map unmark (drop n xs) ≡ drop n (map unmark xs)
drop-unmark zero xs = refl
drop-unmark (suc n) [] = refl
drop-unmark (suc n) (x ∷ xs) = drop-unmark n xs

length-unmark : (xs : List UserSession) → length (map unmark xs) ≡ length xs
length-unmark [] = refl
length-unmark (x ∷ xs) = ap suc (length-unmark xs)

newest-unmark : (xs : List UserSession) → map unmark (newest xs) ≡ newest (map unmark xs)
unfolding newest
newest-unmark xs = rw (length-unmark xs) (elim (Bool-cases (ltb user_sessions_max (length xs))) [
  | inl over ↦ rw over (drop-unmark (length xs - user_sessions_max) xs)
  | inr fits ↦ rw fits
])

module _ {Bytes : Type 0} (db : Storage Bytes) (json : Codec Bytes (List SessionEntry))
    (w : IsWorking db) where
  -- After a login the index holds the earlier entries of other ids and then the new one, cut to
  -- the newest `userSessionsMax`.
  pub load-record :
      (s : db.State) (t t' : ℕ) (u : String) (e : SessionEntry)
      → t' < t + user_sessions_ttl
      → load_session_index db json (record_user_session db json s t u e) t' u
        ≡ newest (
            filter (λ x. not (x.sid == e.sid)) (load_session_index db json s t u)
            ++ unmarked e ∷ [])
  unfolding record_user_session
  load-record s t t' u e soon =
      let xs = load_session_index db json s t u in
      let q : String → Bool = λ j. not (j == e.sid) in
      let kept : map unmark (filter (λ x. q x.sid) xs) ≡ filter (λ x. q x.sid) xs =
        filter-unmark q xs ∙ ap (filter (λ x. q x.sid)) (load-unmark db json w s t u) in
      load-save db json w s t t' u _ soon
      ∙ newest-unmark (filter (λ x. q x.sid) xs ++ unmarked e ∷ [])
      ∙ ap newest (
          map-append unmark (filter (λ x. q x.sid) xs) (unmarked e ∷ [])
          ∙ ap (λ l. l ++ unmarked e ∷ []) kept)

  filter-last :
      (p : UserSession → Bool) (xs : List UserSession) (x : UserSession)
      → p x ≡ true
      → filter p (xs ++ x ∷ []) ≡ filter p xs ++ x ∷ []
  filter-last p xs x h = filter-append p xs (x ∷ []) ∙ rw h refl

  -- A session whose data are in the storage when its login is recorded stands first on its
  -- owner's page, marked as the current one.
  pub login_listed_first :
      (s : db.State) (t : ℕ) (u : String) (e : SessionEntry)
      → session_alive db s t e.sid ≡ true
      → (index_key u == e.sid) ≡ false
      → (rest : List UserSession) × ((user_sessions db json
            (record_user_session db json s t u e)
            t
            u
            e.sid).1
          ≡ record { entry = e; current = true } ∷ rest)
  login_listed_first s t u e alive off =
      let s' = record_user_session db json s t u e in
      let xs = filter (λ x. not (x.sid == e.sid)) (load_session_index db json s t u) in
      let p : UserSession → Bool = λ x. session_alive db s' t x.sid in
      let (front, last) = newest-append_last xs (unmarked e) in
      let there : p (unmarked e) ≡ true =
        unfold record_user_session in (alive-save db json w s t t u e.sid _ off ∙ alive) in
      (
        reverse (map (mark_current e.sid) (filter p front)),
        (user_sessions_lem db json w s' t u e.sid).0
            ∙ rw (load-record s t t u e (omega arith), last, filter-last p front (unmarked e) there)
                (rw (map-append, reverse-append) (unfold mark_current in rw (eq_refl e.sid))),
      )
