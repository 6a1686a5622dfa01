-- ===== src/Auth/Tests.antt =====
-- Sessions on a small storage: the theorems at concrete inputs.
use mokey.Base.{
  List, Option, String, [], arith, concat, eq_iff, false, if◌then◌else◌, inl, inr, nat_eq, none,
  refl, some, string_eq, true, ℕ, ◌&&◌, ◌==◌, ◌↔◌, ◌∷◌, ◌≡◌, ◌≢◌,
}
use mokey.Storage.Table.{table, plain, table-IsWorking}
use mokey.Auth.{
  sess_get, is_blocked, is_logged_in, Session, check_values, flag, invalidate_user_sessions,
  logged_in, password_changed_prefix, session_invalidated_by_password_change,
  session_key_authenticated, session_key_sid, session_key_username, text,
}
use mokey.Auth.SignIn.{
  AuthService, AuthConfig, FormFor, absent, check_user, denied, login_form, name_only, pending,
  present, signed_in, Middleware, World, authenticate,
}
use mokey.Storage.{Codec, Storage}
use mokey.Directory.{User}
use mokey.Auth.Laws.{invalidated, is_logged_in_iff}
use mokey.Auth.Answers.{
  check_user_hidden, pending_not_logged_in, check_user_blocked_as_unknown, signed_in_logged_in,
  authenticate_refused, is_refusal,
}
use mokey.Auth.Expiry.{new_sessions_stay, old_sessions_end, others_unaffected}
use mokey.Sessions.{SessionEntry}

abbrev ints : Codec ℕ ℕ
ints = plain ℕ

abbrev db : Storage ℕ
db = table ℕ

abbrev ann : User
ann = record {
  username = "ann";
  email = "ann@example.com";
  groups = [];
  indirect_groups = [];
  auth_types = [];
  locked = false;
  passwd_expire = 0;
}

-- FreeIPA shows "ann" to the sid "k".
abbrev show_as : String → String → Option User
show_as sid username = if sid == "k" && username == "ann" then some ann else none

abbrev blank : Session
blank = record { id = "s1"; values = []; idle_timeout = 900 }

-- A session of "ann", set up at the time 100.
abbrev hers : Session
hers = signed_in blank "ann" "k" 100

is_logged_in_example : (is_logged_in db ints show_as [] 200 (some hers) ≡ logged_in "ann" ann) ↔ (
    (sess_get hers session_key_username ≡ some (text "ann"))
    × ((k : String) × (sess_get hers session_key_sid ≡ some (text k))
        × (show_as k "ann" ≡ some ann))
    × (sess_get hers session_key_authenticated ≡ some (flag true))
    × (invalidated db ints show_as [] 200 "ann" hers ≡ false))
is_logged_in_example = is_logged_in_iff db ints show_as [] 200 hers "ann" ann

logged_in_run : is_logged_in db ints show_as [] 200 (some hers) ≡ logged_in "ann" ann
unfolding is_logged_in check_values sess_get session_invalidated_by_password_change
logged_in_run = refl

old_sessions_end_example :
    is_logged_in db ints show_as (invalidate_user_sessions db ints 900 [] 150 "ann") 200 (some hers)
    ≢ logged_in "ann" ann
unfolding sess_get
old_sessions_end_example =
    old_sessions_end db ints show_as (table-IsWorking ℕ) [] 150 200 120 900 "ann" hers ann
      (omega arith) (omega arith) (omega arith)

new_sessions_stay_example :
    (is_logged_in db ints show_as (invalidate_user_sessions db ints 900 [] 90 "ann") 200 (some hers)
      ≡ logged_in "ann" ann)
    ↔ ((sess_get hers session_key_username ≡ some (text "ann"))
        × ((k : String) × (sess_get hers session_key_sid ≡ some (text k))
            × (show_as k "ann" ≡ some ann))
        × (sess_get hers session_key_authenticated ≡ some (flag true)))
unfolding sess_get
new_sessions_stay_example =
    new_sessions_stay db ints show_as (table-IsWorking ℕ) [] 90 200 900 "ann" hers ann (omega arith)

others_unaffected_example :
    (is_logged_in db ints show_as
        (invalidate_user_sessions db ints 900 [] 150 "bob")
        200
        (some hers)
      ≡ logged_in "ann" ann)
    ↔ (is_logged_in db ints show_as [] 200 (some hers) ≡ logged_in "ann" ann)
others_unaffected_example =
    others_unaffected db ints show_as (table-IsWorking ℕ) [] 150 200 900 "bob" "ann" hers ann
      (λ e. absurd (ground (arith, e, eq_iff "ann" "bob")))

pending_not_logged_in_example :
    is_logged_in db ints show_as [] 200 (some (pending blank "ann")) ≢ logged_in "ann" ann
pending_not_logged_in_example = pending_not_logged_in db ints show_as [] 200 blank "ann" "ann" ann

signed_in_logged_in_example :
    (is_logged_in db ints show_as [] 200 (some hers) ≡ logged_in "ann" ann) ↔ (
      (◌≡◌ {A = String} "ann" "ann")
      × (show_as "k" "ann" ≡ some ann)
      × (session_invalidated_by_password_change db ints 100
            (db.get [] 200 (concat password_changed_prefix "ann"))
          ≡ false))
signed_in_logged_in_example =
    signed_in_logged_in db ints show_as [] 200 100 blank "ann" "k" "ann" ann

-- A directory with "ann" alone, who is denied.
abbrev service : AuthService
service = record {
  user_show = λ u. if u == "ann" then present ann else absent;
  remote_login = λ u p. denied;
  ping = λ k. true;
  locked_out = λ u. false;
  accept_login = λ u c. none;
}

abbrev hiding : AuthConfig
hiding = record {
  block_users = "root" ∷ [];
  hide_invalid_username_error = true;
  hydra_configured = false;
}

check_user_hidden_example :
    (form : FormFor) × ((check_user service hiding (λ u. false) (λ u. "") "bob" "").1
      ≡ login_form form "")
check_user_hidden_example =
    check_user_hidden service hiding (λ u. false) (λ u. "") "bob" "" refl refl refl
      (λ e. absurd (ground arith))

check_user_blocked_as_unknown_example :
    (check_user service hiding (λ u. false) (λ u. "") "root" "").1
    ≡ login_form (name_only "root") ""
unfolding is_blocked
check_user_blocked_as_unknown_example =
    check_user_blocked_as_unknown service hiding (λ u. false) (λ u. "") "root" "" refl refl refl
      (inl refl)

abbrev Index : Type 0
Index = List SessionEntry

-- One session, saved at once.
abbrev fiber : Middleware (table Index).State
fiber = record {
  load = λ s t. some blank;
  regenerate = λ s t sess. some (sess, s);
  save = λ s t sess. some s;
  destroy = λ s t sess. s;
}

abbrev from_home : SessionEntry
from_home = record { sid = ""; login_time = 0; ip = "::1"; browser = ""; os = "" }

abbrev start : World (table Index).State
start = record { store = []; effects = [] }

authenticate_refused_example :
    ((authenticate
        (table Index)
        (plain Index)
        fiber
        service
        hiding
        (λ u. false)
        start
        9
        "ann"
        "pw"
        ""
        ""
        false
        from_home).0.store
      ≡ [])
    × (is_refusal
          (authenticate
            (table Index)
            (plain Index)
            fiber
            service
            hiding
            (λ u. false)
            start
            9
            "ann"
            "pw"
            ""
            ""
            false
            from_home).1
        ≡ true)
authenticate_refused_example =
    authenticate_refused (table Index) (plain Index) fiber service hiding (λ u. false) start 9 "ann"
      "pw" "" "" false from_home (inr refl)
