-- ===== src/Password/Policy/Classes.antt =====
-- The score of a password against its description: how many of the five classes occur, less one
-- where some rune stands three times in a row.
use mokey.Base.{
  Bool, Bool-cases, Option, [], any, arith, false, if◌then◌else◌, inl, inr, leb, ltb, max, nat_eq,
  none, not, refl, some, true, ℕ, ◌&&◌, ◌+◌, ◌-◌, ◌==◌, ◌||◌, ◌∙◌, ◌∷◌, ◌≡◌,
}
use mokey.Text.{Text}
use mokey.Password.Policy.{
  Scan, scan, is_digit, is_lower, is_upper, one_if, classify, repeats, num_categories, scan_start,
}

abbrev pub is_special : ℕ → Bool
is_special r = not (is_digit r || is_lower r || is_upper r) && ltb r 128

abbrev pub is_8bit : ℕ → Bool
is_8bit r = not (is_digit r || is_lower r || is_upper r) && not (ltb r 128)

abbrev pub has_triple : Text → Bool
has_triple [] = false
has_triple (a ∷ []) = false
has_triple (a ∷ b ∷ []) = false
has_triple (a ∷ b ∷ c ∷ rs) = a == b && b == c || has_triple (b ∷ c ∷ rs)

-- The description.
unfoldable pub score : Text → ℕ
score pass =
    one_if (any is_digit pass)
    + one_if (any is_upper pass)
    + one_if (any is_lower pass)
    + one_if (any is_special pass)
    + one_if (any is_8bit pass)
    - one_if (has_triple pass)

-- Looking at repetitions leaves the flags alone.
repeats-flags :
    (prev : Option ℕ) (r : ℕ) (st : Scan)
    → ((repeats prev r st).has_digit ≡ st.has_digit)
      × ((repeats prev r st).has_upper ≡ st.has_upper)
      × ((repeats prev r st).has_lower ≡ st.has_lower)
      × ((repeats prev r st).has_special ≡ st.has_special)
      × ((repeats prev r st).has_8bit ≡ st.has_8bit)
unfolding repeats
repeats-flags none r st = (refl, refl, refl, refl, refl)
repeats-flags (some p) r st = (refl, refl, refl, refl, refl)

classify-flags :
    (r : ℕ) (st : Scan)
    → ((classify r st).has_digit ≡ (st.has_digit || is_digit r))
      × ((classify r st).has_upper ≡ (st.has_upper || is_upper r))
      × ((classify r st).has_lower ≡ (st.has_lower || is_lower r))
      × ((classify r st).has_special ≡ (st.has_special || is_special r))
      × ((classify r st).has_8bit ≡ (st.has_8bit || is_8bit r))
unfolding classify
classify-flags r st = (ground arith, ground arith, ground arith, ground arith, ground arith)

or_assoc : (a b c : Bool) → ((a || b) || c) ≡ (a || (b || c))
or_assoc true b c = refl
or_assoc false b c = refl

-- The flags after the loop.
scan_flags :
    (prev : Option ℕ) (st : Scan) (rs : Text)
    → ((scan prev st rs).has_digit ≡ (st.has_digit || any is_digit rs))
      × ((scan prev st rs).has_upper ≡ (st.has_upper || any is_upper rs))
      × ((scan prev st rs).has_lower ≡ (st.has_lower || any is_lower rs))
      × ((scan prev st rs).has_special ≡ (st.has_special || any is_special rs))
      × ((scan prev st rs).has_8bit ≡ (st.has_8bit || any is_8bit rs))
unfolding scan
scan_flags prev st [] = (ground arith, ground arith, ground arith, ground arith, ground arith)
scan_flags prev st (r ∷ rs) =
    let (rd, ru, rl, rp, rb) = repeats-flags prev r (classify r st) in
    let (cd, cu, cl, cp, cb) = classify-flags r st in
    let (d, u, l, p, b) = scan_flags (some r) (repeats prev r (classify r st)) rs in
    (
      d ∙ rw (rd, cd) (or_assoc st.has_digit (is_digit r) (any is_digit rs)),
      u ∙ rw (ru, cu) (or_assoc st.has_upper (is_upper r) (any is_upper rs)),
      l ∙ rw (rl, cl) (or_assoc st.has_lower (is_lower r) (any is_lower rs)),
      p ∙ rw (rp, cp) (or_assoc st.has_special (is_special r) (any is_special rs)),
      b ∙ rw (rb, cb) (or_assoc st.has_8bit (is_8bit r) (any is_8bit rs)),
    )

-- The triples that begin with the last runes: `n` is how often `p` has followed itself.
abbrev pub triple_from : ℕ → ℕ → Text → Bool
triple_from n p [] = false
triple_from n p (r ∷ rs) = p == r && leb 1 n || has_triple (p ∷ r ∷ rs)

classify-counts :
    (r : ℕ) (st : Scan)
    → ((classify r st).num_repeated ≡ st.num_repeated)
      × ((classify r st).max_repeated ≡ st.max_repeated)
unfolding classify
classify-counts r st = (ground arith, ground arith)

-- The greatest of the counts that the loop makes.
abbrev most : Option ℕ → ℕ → ℕ → Text → ℕ
most prev n m [] = m
most none n m (r ∷ rs) = most (some r) 0 m rs
most (some p) n m (r ∷ rs) = let n' = if p == r then n + 1 else 0 in most (some r) n' (max m n') rs

scan-most :
    (prev : Option ℕ) (st : Scan) (rs : Text)
    → (scan prev st rs).max_repeated ≡ most prev st.num_repeated st.max_repeated rs
unfolding scan repeats
scan-most none st [] = refl
scan-most (some p) st [] = refl
scan-most none st (r ∷ rs) =
    let (n, m) = classify-counts r st in
    scan-most (some r) (repeats none r (classify r st)) rs ∙ rw m refl
scan-most (some p) st (r ∷ rs) =
    let (n, m) = classify-counts r st in
    scan-most (some r) (repeats (some p) r (classify r st)) rs ∙ rw (n, m) refl

most-triple :
    (p n m : ℕ) (rs : Text) → ltb 1 (most (some p) n m rs) ≡ (ltb 1 m || triple_from n p rs)
most-triple p n m [] = ground arith
most-triple p n m (r ∷ []) = ground arith
most-triple p n m (r ∷ s ∷ rs) = elim (Bool-cases (p == r)) [
  | inl same ↦ rw same (ground (arith, most-triple r (n + 1) (max m (n + 1)) (s ∷ rs)))
  | inr differ ↦ rw differ (ground (arith, most-triple r 0 (max m 0) (s ∷ rs)))
]

scan-triple : (pass : Text) → ltb 1 (scan none scan_start pass).max_repeated ≡ has_triple pass
scan-triple [] = rw (scan-most none scan_start []) refl
scan-triple (r ∷ []) = rw (scan-most none scan_start (r ∷ [])) refl
scan-triple (r ∷ s ∷ rs) =
    rw (scan-most none scan_start (r ∷ s ∷ rs)) (most-triple r 0 0 (s ∷ rs) ∙ ground arith)

-- The loop over the runes computes the score of a password: how many of the five classes occur,
-- less one where some rune stands three times in a row.
pub num_categories-score : (pass : Text) → num_categories pass ≡ score pass
unfolding num_categories score
num_categories-score pass =
    let (d, u, l, p, b) = scan_flags none scan_start pass in
    rw (d, u, l, p, b, scan-triple pass) (ground arith)
