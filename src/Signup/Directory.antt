-- ===== src/Signup/Directory.antt =====
-- A directory for the tests: a table of accounts, which rejects the password "weak".
use mokey.Base.{
  Bool-cases, Option, String, ap, arith, eq_iff, false, if◌then◌else◌, inl, inr, nat_eq, none, refl,
  some, string_eq, sym, true, ◌==◌, ◌∙◌, ◌≡◌,
}
use mokey.Signup.{Account}
use mokey.Signup.Create.{
  AccountRules, AccountService, AddResult, added, password_rejected, user_exists,
}
use mokey.Signup.Added.{IsAdding, IsDisabling}
use mokey.Signup.Staged.{IsStagingApart}
use mokey.Signup.Tests.{rules, string_of}

abbrev pub Accounts : Type 0
Accounts = String → Option Account

abbrev pub put : Accounts → String → Option Account → Accounts
put s k v j = if k == j then v else s j

abbrev key : Account → String
key user = string_of user.username

-- Adding a user to what stands under its name.
abbrev pub add_where : Option Account → Accounts → Account → String → AddResult × Accounts
add_where (some taken) s user password = (user_exists, s)
add_where none s user password =
    ((if password == "weak" then password_rejected else added), put s (key user) (some user))

abbrev pub lock : Option Account → Option Account
lock none = none
lock (some user) = some (record user { locked = true })

abbrev pub unlock : Option Account → Option Account
unlock none = none
unlock (some user) = some (record user { locked = false })

abbrev pub accounts : AccountService
accounts = record {
  State = Accounts;
  policies =
      λ s. record { user_status = λ u. none; user_pw_policy = λ u. none; global_pw_policy = none };
  user_show = λ s n. s n;
  stage_user_show = λ s n. none;
  user_add_with_password = λ s user password. add_where (s (key user)) s user password;
  user_delete = λ s n. (true, put s n none);
  user_disable = λ s n. (true, put s n (lock (s n)));
  user_enable = λ s n. (true, put s n (unlock (s n)));
  user_mod = λ s user. (true, put s (key user) (some user));
  stage_user_add = λ s user password. (added, s);
  stage_user_set_category = λ s n c. (true, s);
  stage_user_activate = λ s n. (true, s);
}

abbrev pub account_rules : AccountRules
account_rules = record {
  names = rules false;
  passwords = record {
    config = record {
      min_passwd_len = 4;
      min_passwd_classes = 0;
      check_breached_passwords = false;
    };
    to_lower = λ t. t;
    breached = λ p. none;
  };
  staged_signup = false;
  require_admin_verify = false;
}

lock-locked : (o : Option Account) (user : Account) → lock o ≡ some user → user.locked ≡ true
lock-locked none user h = absurd (ground (arith, h))
lock-locked (some v) user h = sym (ap (λ o. elim o [ none ↦ true | some x ↦ x.locked ]) h)

add_where-taken :
    (o : Option Account) (s : Accounts) (user : Account) (password n : String)
    → (add_where o s user password).0 ≡ user_exists
    → (add_where o s user password).1 n ≡ s n
add_where-taken (some there) s user password n h = refl
add_where-taken none s user password n h = elim (Bool-cases (password == "weak")) [
  | inl weak ↦ absurd (ground (arith, h, weak))
  | inr fine ↦ absurd (ground (arith, h, fine))
]

add_where-free :
    (o : Option Account) (s : Accounts) (user : Account) (password : String)
    → (add_where o s user password).0 ≡ password_rejected
    → o ≡ none
add_where-free (some there) s user password h = absurd (ground (arith, h))
add_where-free none s user password h = refl

put-other :
    (s : Accounts) (k n : String) (v : Option Account) → (k == n) ≡ false → put s k v n ≡ s n
put-other s k n v h = rw h refl

add_where-others :
    (o : Option Account) (s : Accounts) (user : Account) (password n : String)
    → (key user == n) ≡ false
    → (add_where o s user password).1 n ≡ s n
add_where-others (some there) s user password n h = refl
add_where-others none s user password n h = put-other s (key user) n (some user) h

put-same : (s : Accounts) (k : String) (v : Option Account) → put s k v k ≡ v
put-same s k v = rw ((eq_iff k k).1 refl) refl

pub accounts-IsAdding : IsAdding accounts account_rules
accounts-IsAdding = record {
  taken = λ s user password n h. add_where-taken (s (key user)) s user password n h;
  rejected_free = λ s user password h. add_where-free (s (key user)) s user password h;
  rejected_others =
      λ s user password n h other. add_where-others (s (key user)) s user password n other;
  deleted = λ s name h. put-same s name none;
  deleted_others = λ s name n h other. put-other s name n none other;
}

pub accounts-IsDisabling : IsDisabling accounts
accounts-IsDisabling s name user h shown =
    lock-locked (s name) user (sym (put-same s name (lock (s name))) ∙ shown)

pub accounts-IsStagingApart : IsStagingApart accounts
accounts-IsStagingApart s user password n = refl
