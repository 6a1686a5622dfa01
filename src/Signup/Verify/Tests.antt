-- ===== src/Signup/Verify/Tests.antt =====
-- Sign-ups and their verification in small directories, and the theorems at concrete inputs.
use mokey.Base.{
  Option, [], ap, arith, false, inl, nat_eq, none, refl, some, string_eq, true, ◌==◌, ◌≡◌, ◌≢◌, ◌⊎◌,
}
use mokey.Storage.Table.{table-IsWorking}
use mokey.Directory.{render, status}
use mokey.Token.{ok, parse_token, Token}
use mokey.Token.Tests.{Doc, branca, branca-IsSealing, cfg, db, json, mark}
use mokey.Signup.{Account, admitted, declined, validate_username}
use mokey.Signup.Tests.{person}
use mokey.Signup.Directory.{
  Accounts, account_rules, accounts, accounts-IsAdding, accounts-IsDisabling,
  accounts-IsStagingApart, put,
}
use mokey.Signup.Create.{account_create, name_of, user_category_unverified}
use mokey.Signup.Inactive.{refused_leaves_nothing, signup_inactive}
use mokey.Signup.Added.{asked_for, unknown_failure}
use mokey.Signup.Verify.{Office, Setting, account_verify, resend_to}
use mokey.Signup.Verify.Laws.{resend_guarded, verify_enables_locked, verify_once}
use mokey.Text.{rune_len}

abbrev nobody : Accounts
nobody n = none

refuses_weak :
    (account_create accounts account_rules nobody (person "Ann" "a@x.org") "weak" "weak" false).0
    ≡ declined "password.rejected_by_policy"
unfolding account_create rune_len
refuses_weak = refl

told_apart : "password.rejected_by_policy" ≢ unknown_failure
told_apart h = ground (arith, ap (λ m. m == unknown_failure) h)

refused_leaves_nothing_example :
    ((account_create accounts account_rules nobody (person "Ann" "a@x.org") "weak" "weak" false).1
        "other"
      ≡ none)
    ⊎ ((named : Account) × (validate_username account_rules.names (person "Ann" "a@x.org")
          ≡ admitted named)
        × ((accounts.user_delete
              (accounts.user_add_with_password nobody (asked_for named) "weak").1
              (name_of accounts account_rules named)).0
            ≡ false))
refused_leaves_nothing_example =
    refused_leaves_nothing accounts account_rules accounts-IsAdding accounts-IsStagingApart nobody
      (person "Ann" "a@x.org") "weak" "weak" "password.rejected_by_policy" "other" refuses_weak
      (inl told_apart)

abbrev signed_up : Account
signed_up = record (person "ann" "a@x.org") { category = user_category_unverified }

accepts_good :
    (account_create accounts account_rules nobody
      (person "Ann" "a@x.org")
      "good one"
      "good one"
      false).0
    ≡ admitted signed_up
unfolding account_create rune_len
accepts_good = refl

shown_locked :
    (account_create accounts account_rules nobody
        (person "Ann" "a@x.org")
        "good one"
        "good one"
        false).1
      "other"
    ≡ some (record signed_up { locked = true })
unfolding account_create rune_len
shown_locked = refl

signup_inactive_example :
    (account_rules.staged_signup ≡ false)
    × (((record signed_up { locked = true }).locked ≡ true)
        ⊎ ((accounts.user_disable
              (accounts.user_add_with_password nobody signed_up "good one").1
              (name_of accounts account_rules signed_up)).0
            ≡ false))
signup_inactive_example =
    signup_inactive accounts account_rules accounts-IsDisabling accounts-IsStagingApart nobody
      (person "Ann" "a@x.org") signed_up (record signed_up { locked = true }) "good one" "good one"
      accepts_good shown_locked

abbrev setting : Setting
setting = record {
  Bytes = Doc;
  db = db;
  json = json;
  branca = branca;
  text = λ word. mark;
  tokens = cfg;
  ipa = accounts;
  rules = account_rules;
}

-- The token is ann's; the account is locked, as it has not been verified.
abbrev office : Account → Office setting
office user = record { store = []; dir = put nobody "ann" (some user); effects = [] }

abbrev unverified : Account
unverified = record signed_up { locked = true }

abbrev ann_claims : Token
ann_claims = record { claims = record { username = "ann"; email = "ann@x.org" }; timestamp = 100 }

link_is_good : parse_token db json branca (λ word. mark) cfg [] 200 "tok" "verify" ≡ ok ann_claims
unfolding parse_token
link_is_good = refl

verifies :
    (account_verify setting (office unverified) 200 "tok" true).1 ≡ render "verify-success.html"
unfolding account_verify
verifies = refl

verify_once_example :
    account_verify setting
      (record {
        store = (account_verify setting (office unverified) 200 "tok" true).0.store;
        dir = nobody;
        effects = [];
      })
      300
      "tok"
      true
    ≡ (
      record {
        store = (account_verify setting (office unverified) 200 "tok" true).0.store;
        dir = nobody;
        effects = [];
      },
      status 404 "",
    )
verify_once_example =
    verify_once setting (table-IsWorking Doc) branca-IsSealing (office unverified) 200 300 "tok"
      ann_claims nobody [] true link_is_good verifies (omega arith)
      (λ same. absurd (omega (arith, same)))

resends : resend_to setting (office unverified).dir "ann" ≡ some unverified
unfolding resend_to
resends = refl

resend_guarded_example :
    ((unverified.category == user_category_unverified) ≡ true)
    × (((office unverified).dir "ann" ≡ some unverified)
        ⊎ (◌≡◌ {A = Option Account} none (some unverified)))
resend_guarded_example = resend_guarded setting (office unverified).dir "ann" unverified resends

-- An account that was verified once, and that an admin has locked since.
abbrev disabled : Account
disabled = record unverified { category = "" }

verify_enables_locked_example :
    ((account_verify setting (office disabled) 200 "tok" true).0.dir
      ≡ (accounts.user_enable (office disabled).dir "ann").1)
    × ((account_verify setting (office disabled) 200 "tok" true).1 ≡ render "verify-success.html")
verify_enables_locked_example =
    verify_enables_locked setting (office disabled) 200 "tok" ann_claims disabled link_is_good refl
      refl refl refl refl refl
