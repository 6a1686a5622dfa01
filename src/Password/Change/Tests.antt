-- ===== src/Password/Change/Tests.antt =====
-- Changing a password in a small storage, and the theorems at concrete inputs.
use package.text.Mathlib.TextLemmas.{cons-append}
use mokey.Base.{
  Bool-cases, List, Option, String, [], ap, arith, concat, eq_iff, eq_refl, false, head_code,
  if◌then◌else◌, inl, inr, nat_eq, none, refl, some, string_eq, subst, sym, true, ℕ, ◌+◌, ◌<◌, ◌==◌,
  ◌↔◌, ◌∙◌, ◌≡◌, ◌≢◌,
}
use mokey.Storage.{Storage, Codec, Fetched, failed, found, in_time, missing}
use mokey.Storage.Table.{table, table-IsWorking}
use mokey.Directory.{User}
use mokey.Auth.{
  Session, invalidate_user_sessions, is_logged_in, logged_in, sess_get, password_changed_prefix,
  flag, session_key_authenticated, session_key_sid, session_key_username, text,
}
use mokey.Auth.SignIn.{AuthService, Middleware, signed_in, pending, accepted, present}
use mokey.Sessions.{SessionEntry}
use mokey.Password.{PasswordService, password_set}
use mokey.Password.Change.{
  ChangeForm, Setting, Site, password_change, password_expired, changed, checked, managed_by,
  success_page,
}
use mokey.Password.Change.Laws.{change_ends_others, change_keeps_own, password_expired_guarded}

data Doc : Type 0 where
  num : ℕ → Doc
  sessions : List SessionEntry → Doc
  kept : Session → Doc

abbrev json : Codec Doc (List SessionEntry)
json = record {
  marshal = λ l. some (sessions l);
  unmarshal = λ d. elim d [ num n ↦ none | sessions l ↦ some l | kept s ↦ none ];
  roundtrip = λ l. (sessions l, refl, refl);
}

abbrev ints : Codec Doc ℕ
ints = record {
  marshal = λ n. some (num n);
  unmarshal = λ d. elim d [ num n ↦ some n | sessions l ↦ none | kept s ↦ none ];
  roundtrip = λ n. (num n, refl, refl);
}

abbrev db : Storage Doc
db = table Doc

abbrev ann : User
ann = record {
  username = "ann";
  email = "ann@x.org";
  groups = [];
  indirect_groups = [];
  auth_types = [];
  locked = false;
  passwd_expire = 0;
}

abbrev directory : PasswordService
directory = record {
  State = ℕ;
  user_show = λ s u. if u == "ann" then some ann else none;
  default_auth_types = λ s. [];
  policies =
      λ s. record { user_status = λ u. none; user_pw_policy = λ u. none; global_pw_policy = none };
  reset_password = λ s u. (some "random", s + 1);
  set_password = λ s u old new otp. (password_set, s + 1);
}

abbrev logins : AuthService
logins = record {
  user_show = λ u. present ann;
  remote_login = λ u p. accepted "sid";
  ping = λ sid. true;
  locked_out = λ u. false;
  accept_login = λ u c. none;
}

abbrev session_key : String → String
session_key id = concat "session-" id

-- What stands under the key of a session; the cookie gives its id.
abbrev read_session : String → Fetched Doc → Option Session
read_session id failed = none
read_session id missing = none
read_session id (found (num n)) = none
read_session id (found (sessions l)) = none
read_session id (found (kept x)) = some (record x { id = id })

-- The middleware keeps a session under its id, for its idle timeout; the request has the cookie of
-- one id.
abbrev fiber : String → Middleware db.State
fiber id = record {
  load = λ s t. read_session id (db.get s t (session_key id));
  regenerate = λ s t sess. some (sess, s);
  save = λ s t sess. some (db.set s t (session_key sess.id) (kept sess) sess.idle_timeout).1;
  destroy = λ s t sess. s;
}

abbrev setting : String → Setting
setting id = record {
  Bytes = Doc;
  db = db;
  json = json;
  ints = ints;
  fiber = fiber id;
  service = record {
    base = directory;
    change_password = λ s u old new otp. (changed, s + 1);
    logins = λ s. logins;
  };
  methods = record { otp_only = λ u. false; has_group = λ u g. false };
  rules = record {
    config = record {
      min_passwd_len = 0;
      min_passwd_classes = 0;
      check_breached_passwords = false;
    };
    to_lower = λ t. t;
    breached = λ p. some false;
  };
  cfg = record { block_users = []; hide_invalid_username_error = true; hydra_configured = false };
  ad_trust_username = λ u. false;
  idle_timeout = 900;
}

key_apart : (id name : String) → (session_key id == concat password_changed_prefix name) ≡ false
key_apart id name = elim (Bool-cases (session_key id == concat password_changed_prefix name)) [
  | inl same ↦
      let e = (eq_iff (session_key id) (concat password_changed_prefix name)).0 same in
      absurd (
        omega (
          arith,
          rw (cons-append _ "ession-" id, cons-append _ "wchanged-" name) at (ap head_code e),
        ))
  | inr differ ↦ differ
]

save_leaves :
    (id : String) (s s' : db.State) (n t : ℕ) (sess : Session) (name : String)
    → (fiber id).save s n sess ≡ some s'
    → db.get s' t (concat password_changed_prefix name)
      ≡ db.get s t (concat password_changed_prefix name)
save_leaves id s s' n t sess name h =
    let e = ap (λ o. elim o [ none ↦ s | some z ↦ z ]) h in
    subst
      (λ z.
        db.get z t (concat password_changed_prefix name)
        ≡ db.get s t (concat password_changed_prefix name))
      e (rw (key_apart sess.id name) refl)

abbrev form : ChangeForm
form = record {
  password = "old";
  newpassword = "new secret";
  newpassword2 = "new secret";
  otp = "";
}

abbrev own : Session
own = signed_in (record { id = "s1"; values = []; idle_timeout = 900 }) "ann" "k" 100

abbrev other : Session
other = signed_in (record { id = "s2"; values = []; idle_timeout = 900 }) "ann" "k" 150

abbrev site : Site (setting "s1")
site = record {
  world = record { store = (db.set [] 150 (session_key "s1") (kept own) 900).1; effects = [] };
  dir = 0;
}

changes : (password_change (setting "s1") site 200 201 ann (some form)).1 ≡ success_page
unfolding password_change
changes = refl

change_ends_others_example :
    is_logged_in db ints
      (λ k u. some ann)
      (password_change (setting "s1") site 200 201 ann (some form)).0.world.store
      300
      (some other)
    ≢ logged_in "ann" ann
unfolding sess_get
change_ends_others_example =
    change_ends_others (setting "s1") (save_leaves "s1") (table-IsWorking Doc) (λ k u. some ann)
      site 200 201 300 180 ann ann form other changes (omega arith) (omega arith) (omega arith)

read_session-id :
    (id : String) (b : Fetched Doc) (x : Session) → read_session id b ≡ some x → x.id ≡ id
read_session-id id failed x h = absurd (ground (arith, h))
read_session-id id missing x h = absurd (ground (arith, h))
read_session-id id (found (num n)) x h = absurd (ground (arith, h))
read_session-id id (found (sessions l)) x h = absurd (ground (arith, h))
read_session-id id (found (kept y)) x h = ap (λ o. elim o [ none ↦ id | some z ↦ z.id ]) (sym h)

load_saved :
    (id : String) (s : db.State) (n t : ℕ) (x : Session)
    → x.id ≡ id
    → t < n + x.idle_timeout
    → (fiber id).load (db.set s n (session_key x.id) (kept x) x.idle_timeout).1 t ≡ some x
load_saved id s n t x e young =
    let alive : in_time x.idle_timeout n t ≡ true = ground (arith, young) in
    rw (← e, eq_refl (session_key x.id), alive) refl

load_save :
    (id : String) (s s' : db.State) (n t : ℕ) (own x : Session)
    → (fiber id).load s n ≡ some own
    → x.id ≡ own.id
    → (fiber id).save s n x ≡ some s'
    → t < n + x.idle_timeout
    → (fiber id).load s' t ≡ some x
load_save id s s' n t own x loaded same h young =
    let named_so = read_session-id id (db.get s n (session_key id)) own loaded in
    subst (λ z. (fiber id).load z t ≡ some x) (ap (λ o. elim o [ none ↦ s | some z ↦ z ]) h)
      (load_saved id s n t x (same ∙ named_so) young)

change_keeps_own_example :
    (is_logged_in db ints
        (λ k u. some ann)
        (password_change (setting "s1") site 200 201 ann (some form)).0.world.store
        300
        ((fiber "s1").load
          (password_change (setting "s1") site 200 201 ann (some form)).0.world.store
          300)
      ≡ logged_in "ann" ann)
    ↔ ((sess_get own session_key_username ≡ some (text "ann"))
        × ((k : String) × (sess_get own session_key_sid ≡ some (text k))
            × (◌≡◌ {A = Option User} (some ann) (some ann)))
        × (sess_get own session_key_authenticated ≡ some (flag true)))
unfolding invalidate_user_sessions
change_keeps_own_example =
    change_keeps_own (setting "s1") (save_leaves "s1") (table-IsWorking Doc)
      (λ s n x h. ground (arith, h)) (load_save "s1") (λ k u. some ann) site 200 201 300 ann ann
      form own changes refl (omega arith) (omega arith)

-- A session that an expired password has left.
abbrev expired : Session
expired = pending (record { id = "s3"; values = []; idle_timeout = 900 }) "ann"

abbrev expired_site : Site (setting "s3")
expired_site = record {
  world = record { store = (db.set [] 150 (session_key "s3") (kept expired) 900).1; effects = [] };
  dir = 0;
}

abbrev visitor : SessionEntry
visitor = record { sid = ""; login_time = 0; ip = "::1"; browser = "b"; os = "o" }

expired_changes : (password_expired (setting "s3") expired_site 200 form visitor true).0.dir ≡ 1
unfolding password_expired
expired_changes = refl

expired_asked : (password_expired (setting "s3") expired_site 200 form visitor true).0.dir ≢ 0
expired_asked same = omega (arith, same, expired_changes)

password_expired_guarded_example :
    (sess : Session) × (username : String) × (user : User) × ((setting "s3").fiber.load
        expired_site.world.store 200
      ≡ some sess)
    × (sess_get sess session_key_authenticated ≡ some (flag false))
    × (sess_get sess session_key_username ≡ some (text username))
    × (directory.user_show 0 username ≡ some user)
    × ((managed_by (setting "s3") 0 user == "") ≡ true)
    × (checked (setting "s3") 0 user form ≡ none)
password_expired_guarded_example =
    password_expired_guarded (setting "s3") expired_site 200 form visitor true expired_asked
