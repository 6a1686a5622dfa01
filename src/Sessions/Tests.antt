-- ===== src/Sessions/Tests.antt =====
-- The session inventory on a small storage: runs, and the theorems at concrete inputs.
use mokey.Base.{
  List, String, [], any, arith, count, false, filter, if◌then◌else◌, map, nat_eq, not, refl,
  reverse, string_eq, true, ◌&&◌, ◌==◌, ◌∷◌, ◌≡◌,
}
use mokey.Storage.{Storage, Codec}
use mokey.Storage.Table.{table, plain, table-IsWorking}
use mokey.Sessions.{
  SessionEntry, UserSession, index_key, live_sessions, load_session_index, mark_current, newest,
  record_user_session, revoke_loop, revoke_other_user_sessions, revoke_user_session,
  save_session_index, session_alive, user_sessions,
}
use mokey.Sessions.Revoke.{revoke_own, revoke_foreign, revoke_others}
use mokey.Sessions.Listing.{user_sessions_lem}
use mokey.Sessions.Login.{login_listed_first}
use mokey.Sessions.Invariant.{run-AllSound, AllSound, login, revoke, run}

abbrev json : Codec (List SessionEntry) (List SessionEntry)
json = plain (List SessionEntry)

abbrev db : Storage (List SessionEntry)
db = table (List SessionEntry)

abbrev at_home : SessionEntry
at_home = record { sid = "s1"; login_time = 10; ip = "10.0.0.1"; browser = "Firefox"; os = "Linux" }

abbrev at_work : SessionEntry
at_work = record { sid = "s2"; login_time = 20; ip = "10.0.0.2"; browser = "Chrome"; os = "macOS" }

-- The data of both sessions, then both logins.
abbrev signed_in : db.State
signed_in =
    let s = (db.set (db.set [] 10 "s1" [] 0).1 20 "s2" [] 0).1 in
    record_user_session db json (record_user_session db json s 10 "ann" at_home) 20 "ann" at_work

both_listed :
    (user_sessions db json signed_in 30 "ann" "s1").1
    ≡ record { entry = at_work; current = false } ∷ record { entry = at_home; current = true } ∷ []
unfolding user_sessions record_user_session load_session_index save_session_index live_sessions
    session_alive mark_current newest
both_listed = refl

others_revoked : (revoke_other_user_sessions db json signed_in 30 "ann" "s1").1 ≡ 1
unfolding revoke_other_user_sessions record_user_session load_session_index save_session_index
    revoke_loop newest
others_revoked = refl

revoke_own_example :
    ((revoke_user_session db json signed_in 30 "ann" "s1").1 ≡ true)
    × (session_alive db (revoke_user_session db json signed_in 30 "ann" "s1").0 40 "s1" ≡ false)
    × (load_session_index db json (revoke_user_session db json signed_in 30 "ann" "s1").0 40 "ann"
        ≡ filter (λ x. not (x.sid == "s1")) (load_session_index db json signed_in 30 "ann"))
unfolding record_user_session load_session_index save_session_index newest
revoke_own_example =
    revoke_own db json (table-IsWorking (List SessionEntry)) signed_in 30 40 "ann" "s1" refl refl
      (omega arith)

revoke_foreign_example : revoke_user_session db json signed_in 30 "ann" "s9" ≡ (signed_in, false)
unfolding record_user_session load_session_index save_session_index newest
revoke_foreign_example =
    revoke_foreign db json (table-IsWorking (List SessionEntry)) signed_in 30 "ann" "s9" refl

revoke_others_example :
    (load_session_index db json
        (revoke_other_user_sessions db json signed_in 30 "ann" "s1").0
        40
        "ann"
      ≡ filter (λ x. x.sid == "s1") (load_session_index db json signed_in 30 "ann"))
    × ((revoke_other_user_sessions db json signed_in 30 "ann" "s1").1
        ≡ count (λ x. not (x.sid == "s1")) (load_session_index db json signed_in 30 "ann"))
    × ((j : String)
        → (index_key "ann" == j) ≡ false
        → session_alive db (revoke_other_user_sessions db json signed_in 30 "ann" "s1").0 40 j ≡ (
            if any
              (λ x. x.sid == j && not (x.sid == "s1"))
              (load_session_index db json signed_in 30 "ann")
            then false
            else session_alive db signed_in 40 j))
revoke_others_example =
    revoke_others db json (table-IsWorking (List SessionEntry)) signed_in 30 40 "ann" "s1"
      (omega arith)

user_sessions_example :
    ((user_sessions db json signed_in 30 "ann" "s1").1
      ≡ reverse (
          map (mark_current "s1") (
            filter
              (λ x. session_alive db signed_in 30 x.sid)
              (load_session_index db json signed_in 30 "ann"))))
    × (load_session_index db json (user_sessions db json signed_in 30 "ann" "s1").0 30 "ann"
        ≡ filter
            (λ x. session_alive db signed_in 30 x.sid)
            (load_session_index db json signed_in 30 "ann"))
user_sessions_example =
    user_sessions_lem db json (table-IsWorking (List SessionEntry)) signed_in 30 "ann" "s1"

login_listed_first_example :
    (rest : List UserSession) × ((user_sessions db json
        (record_user_session db json signed_in 30 "ann" (record at_home { login_time = 30 }))
        30
        "ann"
        "s1").1
      ≡ record { entry = record at_home { login_time = 30 }; current = true } ∷ rest)
unfolding session_alive record_user_session load_session_index save_session_index newest
login_listed_first_example =
    login_listed_first db json (table-IsWorking (List SessionEntry)) signed_in 30 "ann"
      (record at_home { login_time = 30 }) refl refl

empty-AllSound : AllSound db json []
unfolding load_session_index
empty-AllSound v t = record { bounded = omega arith; distinct = tt }

run-AllSound_example : AllSound db json (
    run db json []
      ((10, login "ann" at_home) ∷ (20, login "bob" at_work) ∷ (30, revoke "ann" "s1") ∷ []))
run-AllSound_example =
    run-AllSound db json (table-IsWorking (List SessionEntry)) []
      ((10, login "ann" at_home) ∷ (20, login "bob" at_work) ∷ (30, revoke "ann" "s1") ∷ [])
      empty-AllSound
