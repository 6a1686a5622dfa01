-- ===== src/Sessions/Index.antt =====
-- Reading the index back after a write, for the backends that answer.
use mokey.Base.{
  List, Option, String, [], ap, eq_refl, false, lt→ltb, map, nat_eq, none, refl, some, string_eq, ℕ,
  ◌+◌, ◌<◌, ◌==◌, ◌∷◌, ◌≡◌,
}
use mokey.Storage.{Storage, Codec, Fetched, failed, missing, found, IsWorking}
use mokey.Sessions.{
  SessionEntry, UserSession, user_sessions_ttl, index_key, unmarked, stored, load_session_index,
  save_session_index, decoded, index_of,
}

abbrev pub unmark : UserSession → UserSession
unmark x = unmarked (stored x)

pub map-unmark : (es : List SessionEntry) → map unmark (map unmarked es) ≡ map unmarked es
map-unmark [] = refl
map-unmark (e ∷ es) = ap (λ t. unmarked e ∷ t) (map-unmark es)

pub map-unmarked-stored : (xs : List UserSession) → map unmarked (map stored xs) ≡ map unmark xs
map-unmarked-stored [] = refl
map-unmarked-stored (x ∷ xs) = ap (λ t. unmark x ∷ t) (map-unmarked-stored xs)

module _ {Bytes : Type 0} (db : Storage Bytes) (json : Codec Bytes (List SessionEntry))
    (w : IsWorking db) where
  -- A saved index is read back, the marks stripped, until it expires.
  pub load-save :
      (s : db.State) (t t' : ℕ) (u : String) (xs : List UserSession)
      → t' < t + user_sessions_ttl
      → load_session_index db json (save_session_index db json s t u xs) t' u ≡ map unmark xs
  unfolding load_session_index save_session_index
  load-save s t t' u [] h =
      rw (w.get-delete s t t' (index_key u) (index_key u), eq_refl (index_key u))
  load-save s t t' u (x ∷ xs) h =
      let (raw, m, um) = json.roundtrip (map stored (x ∷ xs)) in
      rw
        (
          m,
          w.get-set s t t' (index_key u) (index_key u) raw user_sessions_ttl,
          eq_refl (index_key u),
          lt→ltb t' (t + user_sessions_ttl) h,
          um,
        )
        (map-unmarked-stored (x ∷ xs))

  -- Saving an index leaves every other key alone.
  pub get-save :
      (s : db.State) (t t' : ℕ) (u j : String) (xs : List UserSession)
      → (index_key u == j) ≡ false
      → db.get (save_session_index db json s t u xs) t' j ≡ db.get s t' j
  unfolding save_session_index
  get-save s t t' u j [] h = rw (w.get-delete s t t' (index_key u) j, h)
  get-save s t t' u j (x ∷ xs) h =
      let (raw, m, um) = json.roundtrip (map stored (x ∷ xs)) in
      rw (m, w.get-set s t t' (index_key u) j raw user_sessions_ttl, h)

  decoded-unmark :
      (o : Option (List SessionEntry)) → map unmark (decoded db json o) ≡ decoded db json o
  decoded-unmark none = refl
  decoded-unmark (some es) = map-unmark es

  index_of-unmark : (f : Fetched Bytes) → map unmark (index_of db json f) ≡ index_of db json f
  index_of-unmark failed = refl
  index_of-unmark missing = refl
  index_of-unmark (found raw) = decoded-unmark (json.unmarshal raw)

  -- The index that is loaded bears no marks.
  pub load-unmark :
      (s : db.State) (t : ℕ) (u : String)
      → map unmark (load_session_index db json s t u) ≡ load_session_index db json s t u
  unfolding load_session_index
  load-unmark s t u = index_of-unmark (db.get s t (index_key u))
