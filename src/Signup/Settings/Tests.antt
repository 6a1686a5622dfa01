-- ===== src/Signup/Settings/Tests.antt =====
-- One user's page and a forgotten name, and the theorems at them.
use mokey.Base.{
  List, [], any, ap, arith, false, get_elem?, nat_eq, refl, some, string_eq, true, ℕ, ◌+◌, ◌∷◌, ◌≡◌,
  ◌≤◌, ◌⊎◌,
}
use mokey.Text.{codes, trim_space, byte_length, is_space, rune_len}
use mokey.Directory.Names.{At}
use mokey.Auth.{is_blocked}
use mokey.Signup.{Account, same_text}
use mokey.Signup.Tests.{person, rules, string_of, lower}
use mokey.Signup.Settings.{
  PageRules, Profile, ProfileService, SettingsForm, account_settings, forgotten_names, saved,
}
use mokey.Signup.Settings.Laws.{forgotten_names_guarded, settings_guarded}

abbrev page_rules : PageRules
page_rules = record {
  names = rules false;
  equal_fold = λ a b. same_text (lower a) (lower b);
  allow_change_shell = true;
  allowed_shells = codes "/bin/zsh" ∷ [];
  sends_confirm = λ p e. true;
  sends_reminder = λ e names. true;
}

-- The state counts the saves.
abbrev profiles : ProfileService
profiles = record {
  State = ℕ;
  user_mod = λ s p. (saved, s + 1);
  user_find = λ s email. some (person "annex" "ann@x.org.uk" ∷ person "ann" "Ann@x.org" ∷ []);
}

abbrev ann : Profile
ann = record {
  username = codes "ann";
  email = codes "ann@x.org";
  first = codes "Ann";
  last = codes "Lee";
  display_name = codes "Ann";
  mobile = [];
  telephone_number = [];
  shell = codes "/bin/sh";
}

abbrev form : SettingsForm
form = record {
  first = codes "Anne";
  last = codes "Lee";
  displayname = codes "Anne";
  phone_cc = codes "44";
  phone = codes "20 7946";
  telephone_cc = [];
  telephone = [];
  shell = codes "/bin/zsh";
  email = [];
}

saves : (account_settings profiles page_rules 0 ann (some form)).1 ≡ 1
unfolding account_settings trim_space is_space rune_len
saves = refl

settings_guarded_example :
    (p : Profile) × ((account_settings profiles page_rules 0 ann (some form)).1 ≡ 1)
    × (p.username ≡ codes "ann")
    × (p.email ≡ codes "ann@x.org")
    × (byte_length p.first ≤ 150)
    × (byte_length p.last ≤ 150)
    × ((p.shell ≡ codes "/bin/sh")
        ⊎ (any (λ s. same_text s p.shell) (codes "/bin/zsh" ∷ []) ≡ true))
settings_guarded_example =
    settings_guarded profiles page_rules 0 ann form (λ same. omega (arith, same, saves))

mailed : forgotten_names profiles page_rules 0 (codes "ann@X.org") ≡ codes "ann" ∷ []
unfolding forgotten_names trim_space is_space is_blocked
mailed = refl

mailed-At : At (codes "ann") (forgotten_names profiles page_rules 0 (codes "ann@X.org"))
mailed-At = (0, ap (λ l. get_elem? l 0) mailed)

forgotten_names_example :
    (users : List Account) × (u : Account) × (profiles.user_find 0 (trim_space (codes "ann@x.org"))
      ≡ some users)
    × At u users
    × (codes "ann" ≡ u.username)
    × (same_text (lower u.email) (lower (trim_space (codes "ann@x.org"))) ≡ true)
    × (u.locked ≡ false)
    × (is_blocked ("root" ∷ []) (string_of u.username) ≡ false)
forgotten_names_example =
    forgotten_names_guarded profiles page_rules 0 (codes "ann@X.org") (codes "ann") mailed-At
