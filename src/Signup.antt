-- ===== src/Signup.antt =====
-- server/usernames.go: the names that accounts are created under. What Unicode's tables and package
-- net/mail decide is a parameter.
pub mod Create
pub mod Verify
pub mod Settings
pub mod Laws
pub mod Staged
pub mod Added
pub mod Inactive
mod Directory
mod Tests
use mokey.Base.{
  Bool, List, Option, String, [], all, false, filter, if◌then◌else◌, leb, length, nat_eq, none, not,
  some, string_eq, true, ℕ, ◌&&◌, ◌++◌, ◌==◌, ◌||◌, ◌∷◌,
}
use mokey.Text.{Text, utf8_bytes}
use mokey.Auth.{is_blocked}
use mokey.Password.Policy.{is_digit, is_lower, is_upper}

-- The fields of `ipa.User` that a sign-up fills in.
pub record Account : Type 0 where
  pub username : Text
  pub email : Text
  pub first : Text
  pub last : Text
  pub category : String
  pub locked : Bool

-- What a check of an account returns; `panics` is Go's panic on a slice out of range.
pub data Verdict : Type 0 where
  admitted : Account → Verdict
  declined : String → Verdict
  panics : Verdict

-- The class [a-zA-Z0-9_.-], and the one a name may start with.
abbrev pub is_name_rune : ℕ → Bool
is_name_rune r = is_lower r || is_upper r || is_digit r || r == 95 || r == 46 || r == 45

abbrev pub starts_name : ℕ → Bool
starts_name r = is_lower r || is_upper r || is_digit r || r == 95 || r == 46

-- usernameRegx: one rune that starts a name, and at most 31 more.
unfoldable pub matches_username : Text → Bool
matches_username [] = false
matches_username (r ∷ rs) = starts_name r && all is_name_rune rs && leb (length rs) 31

-- server/phone.go isDigits
unfoldable pub is_digits : Text → Bool
is_digits [] = false
is_digits (r ∷ rs) = is_digit r && all is_digit rs

-- The text before and after the first `c`.
abbrev pub cut : ℕ → Text → Option (Text × Text)
cut c [] = none
cut c (r ∷ rs) =
    let rest = cut c rs in
    if r == c
    then some ([], rs)
    else elim rest [ none ↦ none | some (before, after) ↦ some (r ∷ before, after) ]

-- The text before and after the last `c`.
abbrev pub cut_last : ℕ → Text → Option (Text × Text)
cut_last c [] = none
cut_last c (r ∷ rs) = elim (cut_last c rs) [
  | some (before, after) ↦ some (r ∷ before, after)
  | none ↦ if r == c then some ([], rs) else none
]

unfoldable pub default_username_generator : Text → Text
default_username_generator username = filter is_name_rune username

-- `string(first[0])`: the first byte, taken as a rune.
abbrev pub first_byte : Text → Text
first_byte t = elim (utf8_bytes t) [ [] ↦ [] | b ∷ bs ↦ b ∷ [] ]

-- Without a dot the code slices at -1: none.
unfoldable pub flast_username_generator : Text → Option Text
unfolding utf8_bytes
flast_username_generator username = elim (cut 46 username) [
  | none ↦ none
  | some (first, last) ↦ some (filter is_name_rune (first_byte first ++ last))
]

pub record NameRules : Type 0 where
  pub is_email : Text → Bool
  pub to_lower : Text → Text
  pub string_of : Text → String
  -- accounts.allowed_domains: a generator for each domain.
  pub allowed_domains : List (Text × String)
  pub username_from_email : Bool
  pub block_users : List String

abbrev pub same_text : Text → Text → Bool
same_text [] [] = true
same_text [] (b ∷ bs) = false
same_text (a ∷ xs) [] = false
same_text (a ∷ xs) (b ∷ bs) = a == b && same_text xs bs

abbrev pub generator_of : Text → List (Text × String) → Option String
generator_of domain [] = none
generator_of domain ((d, g) ∷ domains) =
    if same_text d domain then some g else generator_of domain domains

abbrev pub named_by : Account → Text → Verdict
named_by user [] = declined "Username is invalid. May only include letters, numbers, _, -, ."
named_by user (r ∷ rs) = admitted (record user { username = r ∷ rs })

module _ (rules : NameRules) where
  -- generateUsernameFromEmail of the parts of the address.
  unfoldable pub generate_from : Account → Text → Text → Verdict
  unfolding default_username_generator flast_username_generator
  generate_from user name domain =
      if length rules.allowed_domains == 0
      then named_by user (default_username_generator name)
      else elim (generator_of domain rules.allowed_domains) [
        | none ↦ declined "Email domain not allowed"
        | some generator ↦
            if generator == "flast"
            then elim (flast_username_generator name) [ none ↦ panics | some u ↦ named_by user u ]
            else named_by user (default_username_generator name)
      ]

  unfoldable pub generate_username_from_email : Account → Verdict
  unfolding generate_from
  generate_username_from_email user = elim (cut_last 64 user.email) [
    | none ↦ panics
    | some (name, domain) ↦ generate_from user name (rules.to_lower domain)
  ]

  unfoldable pub validate_email : Account → Verdict
  validate_email user =
      if not (rules.is_email user.email)
      then declined "Please provide a valid email address"
      else if length rules.allowed_domains == 0
      then admitted user
      else elim (cut_last 64 user.email) [
        | none ↦ panics
        | some (name, domain) ↦ elim (generator_of (rules.to_lower domain) rules.allowed_domains) [
          | none ↦ declined "Email domain not allowed"
          | some generator ↦ admitted user
        ]
      ]

  -- validateUsername once the name is there.
  unfoldable pub check_name : Account → Verdict
  unfolding matches_username is_digits is_blocked
  check_name user =
      if not (matches_username user.username)
      then declined "Username is invalid. May only include letters, numbers, _, -, ."
      else if is_digits user.username
      then declined "Username must include at least one letter"
      else if is_blocked rules.block_users (rules.string_of user.username)
      then declined
          "Username not allowed. Please try different username or contact the administrator"
      else admitted (record user { username = rules.to_lower user.username })

  unfoldable pub validate_username : Account → Verdict
  unfolding validate_email generate_username_from_email check_name
  validate_username user = elim (validate_email user) [
    | declined message ↦ declined message
    | panics ↦ panics
    | admitted checked ↦
        if rules.username_from_email
        then elim (generate_username_from_email user) [
          | admitted generated ↦ check_name generated
          | declined message ↦ declined message
          | panics ↦ panics
        ]
        else check_name user
  ]
