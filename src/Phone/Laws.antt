-- ===== src/Phone/Laws.antt =====
-- What is joined is split again: the two halves of a stored number come back into the form.
use mathlib.Core.List.{reverse-append, reverse-reverse, reverse-cons}
use mokey.Base.{
  Bool-cases, [], all, ap, append_assoc, arith, false, inl, inr, length, ltb, nat_eq, not, refl,
  reverse, some, subst, sym, true, ℕ, ◌++◌, ◌==◌, ◌||◌, ◌∙◌, ◌∷◌, ◌≡◌, ◌≢◌, ◌⊎◌,
}
use mokey.Text.{Text, is_space, trim_left, trim_space, byte_length}
use mokey.Password.Policy.{is_digit}
use mokey.Signup.{cut, is_digits}
use mokey.Phone.{
  split_phone, join_with, stored_form, joined, digits_only, is_e164, is_phoneish, join_phone,
  rejected, trim_plus,
}

trim_left-head : (t rs : Text) (r : ℕ) → trim_left t ≡ r ∷ rs → is_space r ≡ false
trim_left-head [] rs r h = absurd (ground (arith, h))
trim_left-head (a ∷ t) rs r h = elim (Bool-cases (is_space a)) [
  | inl space ↦
      let same : trim_left (a ∷ t) ≡ trim_left t = rw space refl in
      trim_left-head t rs r (sym same ∙ h)
  | inr other ↦
      let same : trim_left (a ∷ t) ≡ a ∷ t = rw other refl in
      subst (λ z. is_space z ≡ false) (ap (λ l. elim l [ [] ↦ 0 | x ∷ xs ↦ x ]) (sym same ∙ h))
        other
]

trim_left-keeps : (r : ℕ) (rs : Text) → is_space r ≡ false → trim_left (r ∷ rs) ≡ r ∷ rs
trim_left-keeps r rs h = rw h refl

trim_left-append :
    (z ys : Text) (r : ℕ) (rs : Text)
    → trim_left z ≡ r ∷ rs
    → trim_left ((r ∷ rs) ++ ys) ≡ (r ∷ rs) ++ ys
trim_left-append z ys r rs h = trim_left-keeps r (rs ++ ys) (trim_left-head z rs r h)

trim_left-snoc :
    (ys : Text) (c : ℕ) → is_space c ≡ false → trim_left (ys ++ c ∷ []) ≡ trim_left ys ++ c ∷ []
trim_left-snoc [] c h = rw h refl
trim_left-snoc (y ∷ ys) c h = elim (Bool-cases (is_space y)) [
  | inl space ↦ rw space (trim_left-snoc ys c h)
  | inr other ↦ rw other refl
]

-- From the right.
trim_right : Text → Text
trim_right t = reverse (trim_left (reverse t))

trim_right-cons : (c : ℕ) (t : Text) → is_space c ≡ false → trim_right (c ∷ t) ≡ c ∷ trim_right t
unfolding trim_right
trim_right-cons c t h =
    ap (λ z. reverse (trim_left z)) (reverse-cons c t)
    ∙ ap reverse (trim_left-snoc (reverse t) c h)
    ∙ reverse-append (trim_left (reverse t)) (c ∷ [])

trim_left-twice : (t : Text) → trim_left (trim_left t) ≡ trim_left t
trim_left-twice [] = refl
trim_left-twice (a ∷ t) = elim (Bool-cases (is_space a)) [
  | inl space ↦ rw space (trim_left-twice t)
  | inr other ↦ rw (other, other) refl
]

Text-cases : (t : Text) → (t ≡ []) ⊎ ((r : ℕ) × (rs : Text) × (t ≡ r ∷ rs))
Text-cases [] = inl refl
Text-cases (r ∷ rs) = inr (r, rs, refl)

trim_right-twice : (t : Text) → trim_right (trim_right t) ≡ trim_right t
unfolding trim_right
trim_right-twice t =
    ap (λ z. reverse (trim_left z)) (reverse-reverse (trim_left (reverse t)))
    ∙ ap reverse (trim_left-twice (reverse t))

trim_space-left : (t : Text) → trim_left (trim_space t) ≡ trim_space t
unfolding trim_space trim_right
trim_space-left t = elim (Text-cases (trim_left t)) [
  | inl nothing ↦ rw nothing refl
  | inr (c, v, e) ↦
      let head = trim_left-head t v c e in
      let same : trim_space t ≡ c ∷ trim_right v = rw (trim_space, e) (trim_right-cons c v head) in
      ap trim_left same ∙ trim_left-keeps c (trim_right v) head ∙ sym same
]

trim_space-twice : (t : Text) → trim_space (trim_space t) ≡ trim_space t
unfolding trim_space trim_right
trim_space-twice t = ap trim_right (trim_space-left t) ∙ trim_right-twice (trim_left t)

-- Text before a trimmed one that is not empty protects nothing and is not touched.
trim_right-append :
    (pre z rs : Text) (r : ℕ)
    → trim_left z ≡ r ∷ rs
    → trim_right (pre ++ reverse (r ∷ rs)) ≡ pre ++ reverse (r ∷ rs)
unfolding trim_right
trim_right-append pre z rs r h =
    ap (λ x. reverse (trim_left x))
      (reverse-append pre (reverse (r ∷ rs))
        ∙ ap (λ x. x ++ reverse pre) (reverse-reverse (r ∷ rs)))
    ∙ ap reverse (trim_left-append z (reverse pre) r rs h)
    ∙ reverse-append (r ∷ rs) (reverse pre)
    ∙ ap (λ x. x ++ reverse (r ∷ rs)) (reverse-reverse pre)

digit_no_blank : (r : ℕ) → is_digit r ≡ true → (r == 32) ≡ false
digit_no_blank r h = ground (arith, h)

cut-digits : (code n : Text) → all is_digit code ≡ true → cut 32 (code ++ 32 ∷ n) ≡ some (code, n)
cut-digits [] n h = refl
cut-digits (r ∷ rs) n h =
    let rest = cut-digits rs n (ground (arith, h)) in
    rw (digit_no_blank r (ground (arith, h)), rest) refl

-- A trimmed text that is not empty ends in no space, whatever stands before it.
ends_trimmed :
    (pre m : Text) → trim_space m ≢ [] → trim_right (pre ++ trim_space m) ≡ pre ++ trim_space m
unfolding trim_space
ends_trimmed pre m some_text = elim (Text-cases (trim_left (reverse (trim_left m)))) [
  | inl nothing ↦ absurd (some_text (ap reverse nothing))
  | inr (r, rs, e) ↦
      let same : trim_space m ≡ reverse (r ∷ rs) = ap reverse e in
      ap (λ x. trim_right (pre ++ x)) same
      ∙ trim_right-append pre (reverse (trim_left m)) rs r e
      ∙ ap (λ x. pre ++ x) (sym same)
]

stored_form-trimmed :
    (code m : Text)
    → trim_space m ≢ []
    → trim_space (stored_form code (trim_space m)) ≡ stored_form code (trim_space m)
unfolding trim_right is_space trim_space
stored_form-trimmed code m some_text =
    let n = trim_space m in
    let assoc : (code ++ 32 ∷ []) ++ n ≡ code ++ 32 ∷ n = append_assoc code (32 ∷ []) n in
    let whole : trim_space (stored_form code n) ≡ trim_right (stored_form code n) = refl in
    whole
    ∙ trim_right-cons 43 (code ++ 32 ∷ n) refl
    ∙ ap (λ x. 43 ∷ x)
        (ap trim_right (sym assoc) ∙ ends_trimmed (code ++ 32 ∷ []) m some_text ∙ assoc)

is_digits-all : (code : Text) → is_digits code ≡ true → all is_digit code ≡ true
unfolding is_digits
is_digits-all [] h = refl
is_digits-all (r ∷ rs) h = ground (arith, h)

split-stored_form :
    (code m : Text)
    → is_digits code ≡ true
    → trim_space m ≢ []
    → split_phone (stored_form code (trim_space m)) ≡ (code, trim_space m)
unfolding split_phone
split-stored_form code m digits some_text =
    rw
      (
        split_phone,
        stored_form-trimmed code m some_text,
        cut-digits code (trim_space m) (is_digits-all code digits),
        digits,
        trim_space-twice m,
      )
      refl

join_with-stored :
    (code n stored : Text)
    → join_with code n ≡ joined stored
    → (is_digits code ≡ true) × (stored ≡ stored_form code n)
unfolding join_with
join_with-stored code n stored h =
    elim (Bool-cases (not (is_digits code) || ltb 4 (byte_length code))) [
      | inl bad_code ↦
          let same : join_with code n ≡ rejected "account.phone_invalid_country_code" =
            rw (join_with, bad_code) refl in
          absurd (ground (arith, sym same ∙ h))
      | inr good_code ↦
          elim (Bool-cases (not (is_phoneish n) || not (is_e164 (code ++ digits_only n)))) [
            | inl bad_number ↦
                let same : join_with code n ≡ rejected "account.phone_invalid" =
                  rw (join_with, good_code, bad_number) refl in
                absurd (ground (arith, sym same ∙ h))
            | inr good_number ↦
                let same : join_with code n ≡ joined (stored_form code n) =
                  rw (join_with, good_code, good_number) refl in
                (
                  ground (arith, good_code),
                  ap (λ j. elim j [ joined x ↦ x | rejected m ↦ stored ]) (sym h ∙ same),
                )
          ]
    ]

length-some : (t : Text) → t ≢ [] → (length t == 0) ≡ false
length-some [] h = absurd (h refl)
length-some (r ∷ rs) h = ground arith

-- Where the form gives a country code and a number, and they are accepted, the stored value is
-- split again into just these two, less blanks around them and the plus of the code.
pub split-join :
    (code number stored : Text)
    → trim_plus (trim_space code) ≢ []
    → trim_space number ≢ []
    → join_phone code number ≡ joined stored
    → split_phone stored ≡ (trim_plus (trim_space code), trim_space number)
unfolding join_phone
split-join code number stored some_code some_number h =
    let same : join_phone code number
        ≡ join_with (trim_plus (trim_space code)) (trim_space number) =
      rw
        (
          join_phone,
          length-some (trim_space number) some_number,
          length-some (trim_plus (trim_space code)) some_code,
        )
        refl in
    let (digits, form) =
      join_with-stored (trim_plus (trim_space code)) (trim_space number) stored (sym same ∙ h) in
    ap split_phone form ∙ split-stored_form (trim_plus (trim_space code)) number digits some_number
