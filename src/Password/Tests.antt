-- ===== src/Password/Tests.antt =====
-- Resetting a password on a small storage: a run, and the theorems at concrete inputs.
use mokey.Base.{
  Option, String, [], arith, eq_iff, false, if◌then◌else◌, ltb, nat_eq, none, refl, some, string_eq,
  ℕ, ◌&&◌, ◌+◌, ◌==◌, ◌∷◌, ◌≡◌, ◌≢◌,
}
use mokey.Storage.{Storage, Codec}
use mokey.Storage.Table.{table, table-IsWorking}
use mokey.Token.{Token, Claims, TokenConfig, IsSealing, Branca, parse_token}
use mokey.Password.{
  ResetForm, password_forgot, PasswordService, World, password_reset, reset_target, answer_set,
  elsewhere, finish_reset, check_form, password_set, set_new, target,
}
use mokey.Auth.{sess_get, Session, is_logged_in, logged_in}
use mokey.Directory.{UserMethods, User, render, status}
use mokey.Password.Elsewhere.{password_elsewhere, effective_types, uses_free_ipa_password}
use mokey.Password.Laws.{password_forgot_same}
use mokey.Password.Once.{reset_once, reset_ends_sessions}
use mokey.Auth.SignIn.{signed_in}
use mokey.Password.Policy.{PasswordRules}

data Doc : Type 0 where
  mark : Doc
  num : ℕ → Doc
  claim : Claims → Doc

abbrev text_doc : String → Doc
text_doc word = mark

abbrev sample : Claims
sample = record { username = "ann"; email = "ann@x.org" }

abbrev json : Codec Doc Claims
json = record {
  marshal = λ c. some (claim c);
  unmarshal = λ d. elim d [ mark ↦ none | num n ↦ none | claim c ↦ some c ];
  roundtrip = λ c. (claim c, refl, refl);
}

abbrev ints : Codec Doc ℕ
ints = record {
  marshal = λ n. some (num n);
  unmarshal = λ d. elim d [ mark ↦ none | num n ↦ some n | claim c ↦ none ];
  roundtrip = λ n. (num n, refl, refl);
}

abbrev seal : ℕ → Doc → Option String
seal now mark = none
seal now (num n) = none
seal now (claim c) =
    if c.username == "ann" && (c.email == "ann@x.org" && now == 100) then some "tok" else none

abbrev unseal : String → Option (Doc × ℕ)
unseal token = if token == "tok" then some (claim sample, 100) else none

abbrev branca : Branca Doc
branca = record {
  Key = Unit {0};
  new_branca = λ secret. some tt;
  encode = λ key now payload. seal now payload;
  decode = λ key token. unseal token;
  is_expired = λ stamp age now. ltb (stamp + age) now;
}

seal-open :
    (now : ℕ) (payload : Doc) (token : String)
    → seal now payload ≡ some token
    → unseal token ≡ some (payload, now)
seal-open now mark token h = cc
seal-open now (num n) token h = cc
seal-open now (claim c) token h =
    ground (arith, eq_iff c.username "ann", eq_iff c.email "ann@x.org", eq_iff token "tok")

branca-IsSealing : IsSealing branca
branca-IsSealing = record {
  decode-encode = λ key now payload token h. seal-open now payload token h;
  young = λ stamp age now h. ground arith;
  old = λ stamp age now h. ground arith;
}

abbrev db : Storage Doc
db = table Doc

abbrev tokens : TokenConfig
tokens = record { token_secret = "00ff"; token_max_age = 3600; resend_cooldown = 120 }

abbrev ann : User
ann = record {
  username = "ann";
  email = "ann@x.org";
  groups = [];
  indirect_groups = [];
  auth_types = [];
  locked = false;
  passwd_expire = 0;
}

-- A directory with "ann" alone, that takes every password.
abbrev directory : PasswordService
directory = record {
  State = ℕ;
  user_show = λ s u. if u == "ann" then some ann else none;
  default_auth_types = λ s. [];
  policies =
      λ s. record { user_status = λ u. none; user_pw_policy = λ u. none; global_pw_policy = none };
  reset_password = λ s u. (some "random", s + 1);
  set_password = λ s u old new otp. (password_set, s + 1);
}

abbrev methods : UserMethods
methods = record { otp_only = λ u. false; has_group = λ u g. false }

-- No minimums, and no breached passwords.
abbrev lenient : PasswordRules
lenient = record {
  config = record { min_passwd_len = 0; min_passwd_classes = 0; check_breached_passwords = false };
  to_lower = λ t. t;
  breached = λ p. some false;
}

abbrev form : ResetForm
form = record { password = "correct horse"; password_confirm = "correct horse"; otp = "" }

abbrev start : World db json ints branca text_doc tokens directory methods lenient 900
start = record { store = []; dir = 0; effects = [] }

abbrev token_of_ann : Token
token_of_ann = record { claims = sample; timestamp = 100 }

ann_target :
    reset_target db json ints branca text_doc tokens directory methods lenient 900 start 200 "tok"
    ≡ target token_of_ann ann
unfolding reset_target parse_token elsewhere password_elsewhere effective_types
    uses_free_ipa_password
ann_target = refl

ann_resets :
    (password_reset db json ints branca text_doc tokens directory methods lenient 900 start 200
      "tok"
      (some form)).1
    ≡ render "password-reset-success.html"
unfolding password_reset set_new answer_set finish_reset reset_target parse_token elsewhere
    password_elsewhere effective_types uses_free_ipa_password check_form
ann_resets = refl

reset_once_example :
    password_reset db json ints branca text_doc tokens directory methods lenient 900
      (record {
        store =
            (password_reset db json ints branca text_doc tokens directory methods lenient 900 start
              200 "tok"
              (some form)).0.store;
        dir = 7;
        effects = [];
      })
      300
      "tok"
      none
    ≡ (
      record {
        store =
            (password_reset db json ints branca text_doc tokens directory methods lenient 900 start
              200 "tok"
              (some form)).0.store;
        dir = 7;
        effects = [];
      },
      status 404 "",
    )
reset_once_example =
    reset_once db json ints branca text_doc tokens directory methods lenient 900
      (table-IsWorking Doc) branca-IsSealing start 200 300 "tok" form token_of_ann ann 7 [] none
      ann_target ann_resets (omega arith) (λ e. absurd (omega (arith, e)))

-- A session of "ann", set up at the time 150.
abbrev hers : Session
hers = signed_in (record { id = "s1"; values = []; idle_timeout = 900 }) "ann" "k" 150

reset_ends_sessions_example :
    is_logged_in db ints
      (λ k u. some ann)
      (password_reset db json ints branca text_doc tokens directory methods lenient 900 start 200
        "tok"
        (some form)).0.store
      300
      (some hers)
    ≢ logged_in "ann" ann
unfolding sess_get
reset_ends_sessions_example =
    reset_ends_sessions db json ints branca text_doc tokens directory methods lenient 900
      (table-IsWorking Doc) (λ k u. some ann) start 200 300 180 "tok" form token_of_ann ann ann hers
      ann_target ann_resets (omega arith) (omega arith) (omega arith)

password_forgot_same_example :
    (password_forgot db json ints branca text_doc tokens directory methods lenient 900
      (λ u. false)
      ("root" ∷ [])
      start
      none
      "root").1
    ≡ render "password-forgot-success.html"
password_forgot_same_example =
    password_forgot_same db json ints branca text_doc tokens directory methods lenient 900
      (λ u. false) ("root" ∷ []) start "root" refl
