-- ===== src/Phone.antt =====
-- server/phone.go: splitting and joining the two halves of a phone number. The picker of countries,
-- made from a third-party table, is not modelled.
pub mod Laws
mod Tests
use mokey.Base.{
  Bool, Option, String, [], all, any, false, filter, if◌then◌else◌, leb, length, ltb, nat_eq, none,
  not, some, ℕ, ◌&&◌, ◌++◌, ◌==◌, ◌||◌, ◌∷◌,
}
use mokey.Text.{Text, byte_length, trim_space}
use mokey.Password.Policy.{is_digit}
use mokey.Signup.{cut, is_digits}

-- What joinPhone returns: the stored value, or an error's text.
pub data Joined : Type 0 where
  joined : Text → Joined
  rejected : String → Joined

abbrev pub trim_plus : Text → Text
trim_plus [] = []
trim_plus (r ∷ rs) = if r == 43 then rs else r ∷ rs

abbrev pub digits_only : Text → Text
digits_only t = filter is_digit t

-- The punctuation that people write numbers with.
abbrev pub is_punctuation : ℕ → Bool
is_punctuation r = r == 32 || r == 45 || r == 46 || r == 40 || r == 41

unfoldable pub is_phoneish : Text → Bool
is_phoneish t = all (λ r. is_digit r || is_punctuation r) t && any is_digit t

-- isE164 of a plus and the text: 2 to 15 digits, the first not 0.
unfoldable pub is_e164 : Text → Bool
unfolding is_digits
is_e164 [] = false
is_e164 (r ∷ rs) =
    leb 2 (byte_length (r ∷ rs))
    && leb (byte_length (r ∷ rs)) 15
    && not (r == 48)
    && is_digits (r ∷ rs)

-- splitPhone after the plus.
abbrev pub split_after : Text → Option (Text × Text) → Text × Text
split_after stored none = ([], stored)
split_after stored (some (code, national)) =
    if is_digits code then (code, trim_space national) else ([], stored)

unfoldable pub split_phone : Text → Text × Text
unfolding is_digits
split_phone stored = elim (trim_space stored) [
  | [] ↦ ([], [])
  | r ∷ rs ↦ if r == 43 then split_after (r ∷ rs) (cut 32 rs) else ([], r ∷ rs)
]

-- "+" + code + " " + national
abbrev pub stored_form : Text → Text → Text
stored_form code national = 43 ∷ (code ++ 32 ∷ national)

-- splitCompact, and what joinPhone makes of it.
abbrev pub join_compact : Text → Joined
join_compact [] = rejected "account.phone_needs_country_code"
join_compact (d ∷ ds) = joined (stored_form (d ∷ []) ds)

-- A number without a code, which has to bring its own.
unfoldable pub join_international : Text → Joined
unfolding is_phoneish is_e164
join_international [] = rejected "account.phone_needs_country_code"
join_international (r ∷ rs) =
    if r == 43 && is_phoneish rs && is_e164 (digits_only rs)
    then join_compact (digits_only rs)
    else rejected "account.phone_needs_country_code"

unfoldable pub join_with : Text → Text → Joined
unfolding is_digits is_phoneish is_e164
join_with code national =
    if not (is_digits code) || ltb 4 (byte_length code)
    then rejected "account.phone_invalid_country_code"
    else if not (is_phoneish national) || not (is_e164 (code ++ digits_only national))
    then rejected "account.phone_invalid"
    else joined (stored_form code national)

-- joinPhone; an empty number clears the attribute.
unfoldable pub join_phone : Text → Text → Joined
unfolding join_with join_international
join_phone code national =
    let c = trim_plus (trim_space code) in
    let n = trim_space national in
    if length n == 0
    then joined []
    else if length c == 0
    then join_international n
    else join_with c n
