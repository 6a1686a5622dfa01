-- ===== src/Signup/Laws.antt =====
-- Which names are admitted, and when the code panics.
use mokey.Base.{
  Bool-cases, List, Option-cases, String, [], any, arith, false, filter, inl, inr, length, nat_eq,
  none, refl, some, string_eq, sym, true, ℕ, ◌++◌, ◌==◌, ◌↔◌, ◌∙◌, ◌∷◌, ◌≡◌, ◌≢◌, ◌⊎◌,
}
use mokey.Text.{Text}
use mokey.Auth.{is_blocked}
use mokey.Signup.{
  Account, Verdict, NameRules, check_name, cut, cut_last, generate_from,
  generate_username_from_email, generator_of, is_digits, matches_username, named_by,
  flast_username_generator, admitted, declined, panics, first_byte, is_name_rune, validate_email,
  validate_username,
}

cut-none : (c : ℕ) (t : Text) → (cut c t ≡ none) ↔ (any (λ r. r == c) t ≡ false)
cut-none c [] = (λ h. refl, λ h. refl)
cut-none c (r ∷ rs) =
    let (only, back) = cut-none c rs in
    elim (Bool-cases (r == c)) [
      | inl here ↦ rw here (λ h. absurd (ground (arith, h)), λ h. absurd (ground (arith, h)))
      | inr elsewhere ↦ elim (Option-cases (cut c rs)) [
        | inl absent ↦ rw (elsewhere, absent) (λ h. only absent, λ h. refl)
        | inr ((before, after), there) ↦
            rw (elsewhere, there)
              (λ h. absurd (ground (arith, h)), λ h. absurd (ground (arith, there, back h)))
      ]
    ]

generator_of-nonempty :
    (domain : Text) (domains : List (Text × String)) {g : String}
    → generator_of domain domains ≡ some g
    → (length domains == 0) ≡ false
generator_of-nonempty domain [] h = absurd (ground (arith, h))
generator_of-nonempty domain ((d, g) ∷ domains) h = ground arith

named_by-panics : (user : Account) (t : Text) → named_by user t ≢ panics
named_by-panics user [] h = ground (arith, h)
named_by-panics user (r ∷ rs) h = ground (arith, h)

pub Verdict-cases :
    (v : Verdict)
    → ((u : Account) × (v ≡ admitted u)) ⊎ ((((m : String) × (v ≡ declined m))) ⊎ (v ≡ panics))
Verdict-cases (admitted u) = inl (u, refl)
Verdict-cases (declined m) = inr (inl (m, refl))
Verdict-cases panics = inr (inr refl)

module _ (rules : NameRules) where
  -- For an address with an @, of a domain that is configured with names made of first and last
  -- name, making the user name panics exactly where the part before the last @ has no dot.
  pub generate_username_panics_iff :
      (user : Account) (name domain : Text)
      → cut_last 64 user.email ≡ some (name, domain)
      → generator_of (rules.to_lower domain) rules.allowed_domains ≡ some "flast"
      → (generate_username_from_email rules user ≡ panics) ↔ (any (λ r. r == 46) name ≡ false)
  unfolding generate_username_from_email generate_from flast_username_generator
  generate_username_panics_iff user name domain address chosen =
      let (only, back) = cut-none 46 name in
      let some_domain =
        generator_of-nonempty (rules.to_lower domain) rules.allowed_domains chosen in
      elim (Option-cases (cut 46 name)) [
        | inl absent ↦ (
          λ h. only absent,
          λ h.
              rw
                (
                  generate_username_from_email, address, generate_from, some_domain, chosen,
                  flast_username_generator, absent,
                )
                refl,
        )
        | inr ((first, last), there) ↦
            let same : generate_username_from_email rules user
                ≡ named_by user (filter is_name_rune (first_byte first ++ last)) =
              rw
                (
                  generate_username_from_email, address, generate_from, some_domain, chosen,
                  flast_username_generator, there,
                )
                refl in
            (
              λ h. absurd (named_by-panics user _ (sym same ∙ h)),
              λ h. absurd (ground (arith, there, back h)),
            )
      ]

  check_name-admitted :
      (user u : Account)
      → check_name rules user ≡ admitted u
      → (u.username ≡ rules.to_lower user.username)
        × (matches_username user.username ≡ true)
        × (is_digits user.username ≡ false)
        × (is_blocked rules.block_users (rules.string_of user.username) ≡ false)
  unfolding check_name
  check_name-admitted user u h = elim (Bool-cases (matches_username user.username)) [
    | inr no_match ↦ absurd (ground (arith, h, no_match))
    | inl match_now ↦ elim (Bool-cases (is_digits user.username)) [
      | inl all_digits ↦ absurd (ground (arith, h, match_now, all_digits))
      | inr a_letter ↦
          elim (Bool-cases (is_blocked rules.block_users (rules.string_of user.username))) [
            | inl blocked ↦ absurd (ground (arith, h, match_now, a_letter, blocked))
            | inr free ↦ (ground (arith, h, match_now, a_letter, free), match_now, a_letter, free)
          ]
    ]
  ]

  -- However the name comes about, an account is admitted only under the lower case of a name of 1
  -- to 32 of the allowed characters, which are not all digits, and which is not itself blocked.
  pub validate_username_admitted :
      (user u : Account)
      → validate_username rules user ≡ admitted u
      → (name : Text) × (u.username ≡ rules.to_lower name)
        × (matches_username name ≡ true)
        × (is_digits name ≡ false)
        × (is_blocked rules.block_users (rules.string_of name) ≡ false)
  unfolding validate_username
  validate_username_admitted user u h = elim (Verdict-cases (validate_email rules user)) [
    | inr (inl (m, bad)) ↦
        let same : validate_username rules user ≡ declined m = rw (validate_username, bad) refl in
        absurd (ground (arith, sym same ∙ h))
    | inr (inr worse) ↦
        let same : validate_username rules user ≡ panics = rw (validate_username, worse) refl in
        absurd (ground (arith, sym same ∙ h))
    | inl (checked, good) ↦ elim (Bool-cases rules.username_from_email) [
      | inr typed ↦
          let same : validate_username rules user ≡ check_name rules user =
            rw (validate_username, good, typed) refl in
          let (lowered, match_now, a_letter, free) = check_name-admitted user u (sym same ∙ h) in
          (user.username, lowered, match_now, a_letter, free)
      | inl from_email ↦ elim (Verdict-cases (generate_username_from_email rules user)) [
        | inr (inl (m, bad)) ↦
            let same : validate_username rules user ≡ declined m =
              rw (validate_username, good, from_email, bad) refl in
            absurd (ground (arith, sym same ∙ h))
        | inr (inr worse) ↦
            let same : validate_username rules user ≡ panics =
              rw (validate_username, good, from_email, worse) refl in
            absurd (ground (arith, sym same ∙ h))
        | inl (generated, made) ↦
            let same : validate_username rules user ≡ check_name rules generated =
              rw (validate_username, good, from_email, made) refl in
            let (lowered, match_now, a_letter, free) =
              check_name-admitted generated u (sym same ∙ h) in
            (generated.username, lowered, match_now, a_letter, free)
      ]
    ]
  ]

  -- Where names are typed, one that passes the other checks and is not on the block list as it is
  -- typed is admitted in lower case, even where the lower case is on the list.
  pub blocked_admitted :
      (user : Account)
      → rules.username_from_email ≡ false
      → validate_email rules user ≡ admitted user
      → matches_username user.username ≡ true
      → is_digits user.username ≡ false
      → is_blocked rules.block_users (rules.string_of user.username) ≡ false
      → is_blocked rules.block_users (rules.string_of (rules.to_lower user.username)) ≡ true
      → (u : Account) × (validate_username rules user ≡ admitted u)
        × (is_blocked rules.block_users (rules.string_of u.username) ≡ true)
  unfolding validate_username check_name
  blocked_admitted user typed good match_now a_letter free blocked = (
    record user { username = rules.to_lower user.username },
    rw (validate_username, check_name, good, typed, match_now, a_letter, free) refl,
    blocked,
  )
