-- ===== src/Signup/Tests.antt =====
-- Names that are admitted and refused, and the theorems at concrete inputs.
use mokey.Base.{
  Bool, String, [], any, false, if◌then◌else◌, map, nat_eq, refl, string_eq, true, ◌+◌, ◌==◌, ◌↔◌,
  ◌∷◌, ◌≡◌,
}
use mokey.Text.{Text, codes}
use mokey.Auth.{is_blocked}
use mokey.Password.Policy.{is_upper}
use mokey.Signup.{
  Account, NameRules, validate_username, generate_username_from_email, admitted, check_name,
  flast_username_generator, generate_from, is_digits, matches_username, panics, same_text,
  validate_email,
}
use mokey.Signup.Laws.{blocked_admitted, generate_username_panics_iff, validate_username_admitted}

abbrev pub lower : Text → Text
lower t = map (λ r. if is_upper r then r + 32 else r) t

-- The names of the tests, back from their code points.
abbrev pub string_of : Text → String
string_of t =
    if same_text t (codes "root")
    then "root"
    else if same_text t (codes "Root")
    then "Root"
    else "other"

abbrev pub rules : Bool → NameRules
rules from_email = record {
  is_email = λ t. any (λ r. r == 64) t;
  to_lower = lower;
  string_of = string_of;
  allowed_domains = (codes "x.org", "flast") ∷ [];
  username_from_email = from_email;
  block_users = "root" ∷ [];
}

abbrev pub person : String → String → Account
person name email = record {
  username = codes name;
  email = codes email;
  first = codes "A";
  last = codes "B";
  category = "";
  locked = false;
}

generated :
    generate_username_from_email (rules true) (person "" "ann.lee@x.org")
    ≡ admitted (person "alee" "ann.lee@x.org")
unfolding generate_username_from_email generate_from flast_username_generator
generated = refl

generate_username_panics_example :
    (generate_username_from_email (rules true) (person "" "ann@x.org") ≡ panics)
    ↔ (any (λ r. r == 46) (codes "ann") ≡ false)
generate_username_panics_example =
    generate_username_panics_iff (rules true) (person "" "ann@x.org") (codes "ann") (codes "x.org")
      refl refl

admits_ann :
    validate_username (rules false) (person "Ann" "a@x.org") ≡ admitted (person "ann" "a@x.org")
unfolding validate_username validate_email check_name matches_username is_digits is_blocked
admits_ann = refl

validate_username_example :
    (name : Text) × (codes "ann" ≡ lower name)
    × (matches_username name ≡ true)
    × (is_digits name ≡ false)
    × (is_blocked ("root" ∷ []) (string_of name) ≡ false)
validate_username_example =
    validate_username_admitted (rules false) (person "Ann" "a@x.org") (person "ann" "a@x.org")
      admits_ann

blocked_admitted_example :
    (u : Account) × (validate_username (rules false) (person "Root" "a@x.org") ≡ admitted u)
    × (is_blocked ("root" ∷ []) (string_of u.username) ≡ true)
unfolding validate_email matches_username is_digits is_blocked
blocked_admitted_example =
    blocked_admitted (rules false) (person "Root" "a@x.org") refl refl refl refl refl refl
