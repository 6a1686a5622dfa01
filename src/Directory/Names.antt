-- ===== src/Directory/Names.antt =====
-- What the loops over names find, said by places in the lists.
use mokey.Base.{
  Bool, Bool-cases, List, String, [], any, arith, eq_iff, eq_refl, filter, get_elem?, if◌then◌else◌,
  inl, inr, nat_eq, refl, some, string_eq, subst, suc, sym, true, zero, ℕ, ◌==◌, ◌↔◌, ◌∷◌, ◌≡◌,
}
use mokey.Directory.{meets}

-- An entry's place in a list.
abbrev pub At {ℓ} : {A : Type ℓ} → A → List A → Type ℓ
At x xs = (i : ℕ) × (get_elem? xs i ≡ some x)

any-At :
    (p : String → Bool) (x : String) (ys : List String) → p x ≡ true → At x ys → any p ys ≡ true
any-At p x [] h (i, e) = absurd (ground arith)
any-At p x (y ∷ ys) h (zero, e) = ground arith
any-At p x (y ∷ ys) h (suc i, e) = ground (arith, any-At p x ys h (i, e))

any-found :
    (p : String → Bool) (ys : List String) → any p ys ≡ true → (x : String) × (p x ≡ true) × At x ys
any-found p [] h = absurd (ground arith)
any-found p (y ∷ ys) h = elim (Bool-cases (p y)) [
  | inl e ↦ (y, e, (0, refl))
  | inr e ↦ let (x, q, (i, found)) = any-found p ys (ground arith) in (x, q, (suc i, found))
]

-- A loop that compares the names of a list with one.
pub contains_iff : (x : String) (ys : List String) → (any (λ y. y == x) ys ≡ true) ↔ At x ys
contains_iff x ys = (
  λ h. let (y, e, found) = any-found (λ y. y == x) ys h in rw (sym ((eq_iff y x).0 e)) found,
  λ found. any-At (λ y. y == x) x ys (eq_refl x) found,
)

meets-found :
    (x : String) (xs ys : List String)
    → ((z : String) × At z xs × At z ys → meets xs ys ≡ true)
    → (z : String) × At z (x ∷ xs) × At z ys
    → meets (x ∷ xs) ys ≡ true
unfolding meets
meets-found x xs ys rest (z, (zero, e), found) =
    ground (arith, any-At (λ y. x == y) z ys (ground (arith, eq_refl x)) found)
meets-found x xs ys rest (z, (suc i, e), found) = ground (arith, rest (z, (i, e), found))

pub meets_iff : (xs ys : List String) → (meets xs ys ≡ true) ↔ ((x : String) × At x xs × At x ys)
unfolding meets
meets_iff [] ys = (λ h. absurd (ground arith), λ (x, (i, e), f). absurd (ground arith))
meets_iff (x ∷ xs) ys = (
  λ h. elim (Bool-cases (any (λ y. x == y) ys)) [
    | inl e ↦
        let (y, same, found) = any-found (λ y. x == y) ys e in
        (x, (0, refl), rw ((eq_iff x y).0 same) found)
    | inr e ↦
        let (z, (i, left), right) = (meets_iff xs ys).0 (ground arith) in (z, (suc i, left), right)
  ],
  λ h. meets-found x xs ys (λ k. (meets_iff xs ys).1 k) h,
)

module _ {ℓ} {A : Type ℓ} (p : A → Bool) (x : A) where
  At-cons :
      (y : A) (ys kept : List A) (i : ℕ)
      → p y ≡ true
      → (((k : ℕ) → get_elem? kept k ≡ some x → At x ys × (p x ≡ true)))
      → get_elem? (y ∷ kept) i ≡ some x
      → At x (y ∷ ys) × (p x ≡ true)
  At-cons y ys kept zero passes rest e = ((0, e), cc)
  At-cons y ys kept (suc i) passes rest e = let ((k, found), h) = rest i e in ((suc k, found), h)

  filter-kept : (xs : List A) (i : ℕ) → get_elem? (filter p xs) i ≡ some x → At x xs × (p x ≡ true)
  filter-kept [] i e = absurd (ground arith)
  filter-kept (y ∷ ys) i e = elim (Bool-cases (p y)) [
    | inl passes ↦
        At-cons y ys (filter p ys) i passes (filter-kept ys)
          (subst (λ b. get_elem? (if b then y ∷ filter p ys else filter p ys) i ≡ some x) passes e)
    | inr fails ↦
        let ((k, found), h) = filter-kept ys i (
          subst (λ b. get_elem? (if b then y ∷ filter p ys else filter p ys) i ≡ some x) fails e) in
        ((suc k, found), h)
  ]

  filter-At : (xs : List A) (i : ℕ) → get_elem? xs i ≡ some x → p x ≡ true → At x (filter p xs)
  filter-At [] i e h = absurd (ground arith)
  filter-At (y ∷ ys) zero e h = let passes : p y ≡ true = ground (arith, h) in rw passes (0, e)
  filter-At (y ∷ ys) (suc i) e h =
      let (k, found) = filter-At ys i e h in
      elim (Bool-cases (p y)) [
        | inl passes ↦ rw passes (suc k, found)
        | inr fails ↦ rw fails (k, found)
      ]

  -- A filtered list has the entries that pass the test.
  pub filter_iff : (xs : List A) → At x (filter p xs) ↔ (At x xs × (p x ≡ true))
  filter_iff xs = (λ (i, e). filter-kept xs i e, λ ((i, e), h). filter-At xs i e h)
