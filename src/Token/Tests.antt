-- ===== src/Token/Tests.antt =====
-- Tokens on a small storage with a sealing that knows one payload: runs, and the theorems at
-- concrete inputs.
use mokey.Base.{
  Option, String, [], arith, eq_iff, if◌then◌else◌, ltb, nat_eq, none, refl, some, string_eq, true,
  ℕ, ◌&&◌, ◌+◌, ◌==◌, ◌≡◌, ◌≢◌,
}
use mokey.Storage.{Storage, Codec, missing}
use mokey.Storage.Table.{table, down, table-IsWorking}
use mokey.Token.{
  Claims, Branca, IsSealing, Token, TokenConfig, already_issued, err, issued_key, mark_token_used,
  new_token, ok, parse_token, storage_error,
}
use mokey.Token.Laws.{single_use, new_token_guarded, one_outstanding, parse-new, tokens_fail_closed}

pub data Doc : Type 0 where
  mark : Doc
  claim : Claims → Doc

abbrev pub text : String → Doc
text word = mark

abbrev pub sample : Claims
sample = record { username = "ann"; email = "ann@x.org" }

abbrev pub json : Codec Doc Claims
json = record {
  marshal = λ c. some (claim c);
  unmarshal = λ d. elim d [ mark ↦ none | claim c ↦ some c ];
  roundtrip = λ c. (claim c, refl, refl);
}

abbrev pub seal : ℕ → Doc → Option String
seal now mark = none
seal now (claim c) =
    if c.username == "ann" && (c.email == "ann@x.org" && now == 100) then some "tok" else none

abbrev pub unseal : String → Option (Doc × ℕ)
unseal token = if token == "tok" then some (claim sample, 100) else none

abbrev pub branca : Branca Doc
branca = record {
  Key = Unit {0};
  new_branca = λ secret. some tt;
  encode = λ key now payload. seal now payload;
  decode = λ key token. unseal token;
  is_expired = λ stamp age now. ltb (stamp + age) now;
}

seal-open :
    (now : ℕ) (payload : Doc) (token : String)
    → seal now payload ≡ some token
    → unseal token ≡ some (payload, now)
seal-open now mark token h = cc
seal-open now (claim c) token h =
    ground (arith, eq_iff c.username "ann", eq_iff c.email "ann@x.org", eq_iff token "tok")

pub branca-IsSealing : IsSealing branca
branca-IsSealing = record {
  decode-encode = λ key now payload token h. seal-open now payload token h;
  young = λ stamp age now h. ground arith;
  old = λ stamp age now h. ground arith;
}

abbrev pub db : Storage Doc
db = table Doc

abbrev pub cfg : TokenConfig
cfg = record { token_secret = "00ff"; token_max_age = 3600; resend_cooldown = 120 }

issued : (new_token db json branca text cfg [] 100 "ann" "ann@x.org" "reset").1 ≡ ok "tok"
unfolding new_token
issued = refl

abbrev after_issue : db.State
after_issue = (new_token db json branca text cfg [] 100 "ann" "ann@x.org" "reset").0

abbrev pub ann_token : Token
ann_token = record { claims = sample; timestamp = 100 }

accepted : parse_token db json branca text cfg after_issue 200 "tok" "reset" ≡ ok ann_token
unfolding new_token parse_token
accepted = refl

new_token_guarded_example :
    (db.get [] 100 (issued_key "reset" "ann") ≡ missing)
    × ((db.set [] 100 (issued_key "reset" "ann") (text "true") cfg.resend_cooldown).0 ≡ true)
    × (after_issue ≡ (db.set [] 100 (issued_key "reset" "ann") (text "true") cfg.resend_cooldown).1)
new_token_guarded_example =
    new_token_guarded db json branca text cfg [] 100 "ann" "ann@x.org" "reset" "tok" issued

one_outstanding_example :
    new_token db json branca text cfg after_issue 150 "ann" "ann@y.org" "reset"
    ≡ (after_issue, err already_issued)
one_outstanding_example =
    one_outstanding db json branca text cfg (table-IsWorking Doc) branca-IsSealing [] 100 150 "ann"
      "ann@x.org" "ann@y.org" "reset" "tok" issued refl

parse-new_example : parse_token db json branca text cfg after_issue 200 "tok" "reset" ≡ ok ann_token
parse-new_example =
    parse-new db json branca text cfg (table-IsWorking Doc) branca-IsSealing [] 100 200 "ann"
      "ann@x.org" "reset" "tok" issued refl (omega arith)

single_use_example :
    parse_token db json branca text cfg
      (mark_token_used db json branca text cfg after_issue 200 "tok" "reset" ann_token)
      300
      "tok"
      "reset"
    ≢ ok ann_token
single_use_example =
    single_use db json branca text cfg (table-IsWorking Doc) branca-IsSealing after_issue 200 300
      "reset" "tok" ann_token ann_token accepted (omega arith) (omega arith)

abbrev offline : Storage Doc
offline = down Doc

tokens_fail_closed_example :
    (new_token offline json branca text cfg tt 100 "ann" "ann@x.org" "reset"
      ≡ (tt, err storage_error))
    × (parse_token offline json branca text cfg tt 100 "tok" "reset" ≡ err storage_error)
tokens_fail_closed_example =
    tokens_fail_closed offline json branca text cfg tt 100 "ann" "ann@x.org" "reset" "tok" refl refl
