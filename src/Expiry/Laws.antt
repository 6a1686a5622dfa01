-- ===== src/Expiry/Laws.antt =====
-- Which window a reminder is for, and that there is one reminder for each.
use mokey.Base.{
  Bool, Bool-cases, List, String, [], any, ap, arith, inl, inr, leb, ltb, nat_eq, refl, some, sym,
  true, ℕ, ◌*◌, ◌++◌, ◌+◌, ◌-◌, ◌<◌, ◌==◌, ◌||◌, ◌∙◌, ◌∷◌, ◌≡◌, ◌≢◌, ◌≤◌,
}
use mokey.Expiry.{insert, sort, Sweep, day, window_of, marker, expiry_reminder_sweep, sweep_user}
use mokey.Expiry.Markers.{
  sweep_user-marks, sweep_user-marked, sweep_user-young, sweep-append, sweep-keeps,
}
use mokey.Storage.{Storage, IsWorking, is_found}
use mokey.Directory.{User}

abbrev Below : ℕ → List ℕ → Type 0
Below d [] = Unit
Below d (x ∷ xs) = (d ≤ x) × Below d xs

abbrev IsSorted : List ℕ → Type 0
IsSorted [] = Unit
IsSorted (x ∷ xs) = Below x xs × IsSorted xs

Below-trans : (d e : ℕ) (xs : List ℕ) → d ≤ e → Below e xs → Below d xs
Below-trans d e [] le h = tt
Below-trans d e (x ∷ xs) le h = (omega (arith, le, h.0), Below-trans d e xs le h.1)

insert-Below : (d e : ℕ) (xs : List ℕ) → e ≤ d → Below e xs → Below e (insert d xs)
insert-Below d e [] le h = (le, tt)
insert-Below d e (x ∷ xs) le h = elim (Bool-cases (leb d x)) [
  | inl small ↦ rw small (le, h)
  | inr large ↦ rw large (h.0, insert-Below d e xs le h.1)
]

insert-IsSorted : (d : ℕ) (xs : List ℕ) → IsSorted xs → IsSorted (insert d xs)
insert-IsSorted d [] h = (tt, tt)
insert-IsSorted d (x ∷ xs) h = elim (Bool-cases (leb d x)) [
  | inl small ↦
      rw small ((ground (arith, small), Below-trans d x xs (ground (arith, small)) h.0), h)
  | inr large ↦ rw large (insert-Below d x xs (ground (arith, large)) h.0, insert-IsSorted d xs h.1)
]

sort-IsSorted : (xs : List ℕ) → IsSorted (sort xs)
unfolding sort
sort-IsSorted [] = tt
sort-IsSorted (x ∷ xs) = insert-IsSorted x (sort xs) (sort-IsSorted xs)

insert-any : (p : ℕ → Bool) (d : ℕ) (xs : List ℕ) → any p (insert d xs) ≡ (p d || any p xs)
insert-any p d [] = refl
insert-any p d (x ∷ xs) = elim (Bool-cases (leb d x)) [
  | inl small ↦ rw small refl
  | inr large ↦ rw (large, insert-any p d xs) (ground arith)
]

sort-any : (p : ℕ → Bool) (xs : List ℕ) → any p (sort xs) ≡ any p xs
unfolding sort
sort-any p [] = refl
sort-any p (x ∷ xs) = rw (insert-any p x (sort xs), sort-any p xs) refl

Below-any : (d e : ℕ) (xs : List ℕ) → Below d xs → any (λ x. x == e) xs ≡ true → d ≤ e
Below-any d e [] h there = absurd (ground (arith, there))
Below-any d e (x ∷ xs) h there = elim (Bool-cases (x == e)) [
  | inl same ↦ let e_is : x ≡ e = ground (arith, same) in omega (arith, h.0, e_is)
  | inr other ↦ Below-any d e xs h.1 (ground (arith, there, other))
]

-- The window of sorted days is the tightest one that the time fits into.
abbrev IsTightest : List ℕ → ℕ → ℕ → Type 0
IsTightest xs left d =
    (any (λ x. x == d) xs ≡ true)
    × (left ≤ d * day)
    × ((e : ℕ) → any (λ x. x == e) xs ≡ true → left ≤ e * day → d ≤ e)

window_of-sorted :
    (xs : List ℕ) (left d : ℕ) → IsSorted xs → window_of xs left ≡ some d → IsTightest xs left d
unfolding window_of
window_of-sorted [] left d sorted h = absurd (ground (arith, h))
window_of-sorted (x ∷ xs) left d sorted h = elim (Bool-cases (ltb (x * day) left)) [
  | inl too_tight ↦
      let same : window_of (x ∷ xs) left ≡ window_of xs left = rw (window_of, too_tight) refl in
      let (there, fits, least) = window_of-sorted xs left d sorted.1 (sym same ∙ h) in
      (
        ground (arith, there),
        fits,
        λ e there' fits'. elim (Bool-cases (x == e)) [
          | inl e_is ↦ absurd (ground (arith, e_is, fits', too_tight))
          | inr e_not ↦ least e (ground (arith, there', e_not)) fits'
        ],
      )
  | inr fits ↦
      let same : window_of (x ∷ xs) left ≡ some x = rw (window_of, fits) refl in
      let d_is : x ≡ d = ground (arith, sym same ∙ h) in
      (
        ground (arith, d_is),
        ground (arith, d_is, fits),
        λ e there fits'. elim (Bool-cases (x == e)) [
          | inl e_is ↦ ground (arith, d_is, e_is)
          | inr e_not ↦
              let le = Below-any x e xs sorted.0 (ground (arith, there, e_not)) in
              omega (arith, d_is, le)
        ],
      )
]

-- A reminder is for the tightest of the configured windows, in whatever order they stand, that the
-- time left fits into.
pub window_tightest :
    (days : List ℕ) (left d : ℕ)
    → window_of (sort days) left ≡ some d
    → (any (λ x. x == d) days ≡ true)
      × (left ≤ d * day)
      × ((e : ℕ) → any (λ x. x == e) days ≡ true → left ≤ e * day → d ≤ e)
window_tightest days left d h =
    let (there, fits, least) = window_of-sorted (sort days) left d (sort-IsSorted days) h in
    (
      sym (sort-any (λ x. x == d) days) ∙ there,
      fits,
      λ e there' fits'. least e (sort-any (λ x. x == e) days ∙ there') fits',
    )

module _ {Bytes : Type 0} (db : Storage Bytes) (text : String → Bytes) (cfg : Sweep) where
  -- The marker stands after the whole sweep that has reminded a user of it.
  sweep-marks :
      (works : IsWorking db) (s : db.State) (now t d : ℕ) (user : User) (before after : List User)
      → (sweep_user db text cfg (expiry_reminder_sweep db text cfg s now before).0 now user).1 ≢ []
      → window_of (sort cfg.days) (user.passwd_expire - now) ≡ some d
      → t < user.passwd_expire + day
      → is_found (
          db.get
            (expiry_reminder_sweep db text cfg s now (before ++ user ∷ after)).0
            t
            (marker db text cfg user d))
        ≡ true
  unfolding expiry_reminder_sweep
  sweep-marks works s now t d user before after sent e young =
      let key = marker db text cfg user d in
      let b = (expiry_reminder_sweep db text cfg s now before).0 in
      let (s', mails) = sweep_user db text cfg b now user in
      let marked = sweep_user-marks db text cfg works b now t user d sent e young in
      let marked_now =
        sweep_user-marks db text cfg works b now now user d sent e
          (sweep_user-young db text cfg b now user sent) in
      ap (λ z. is_found (db.get z.0 t key)) (sweep-append db text cfg s now before (user ∷ after))
      ∙ ap (λ z. is_found z) (sweep-keeps db text cfg works s' now t after key marked_now)
      ∙ marked

  -- On a storage that answers: where a sweep over any users has mailed a reminder to a user, and
  -- the user's marker has not been touched since, a later sweep over any users, which finds the
  -- user with the same name and expiry in the same window, leaves the same store and sends the same
  -- mails as if the user were not among them.
  pub remind_once :
      (works : IsWorking db) (s later : db.State) (now t d : ℕ) (user again : User)
      (before after before_again after_again : List User)
      → (sweep_user db text cfg (expiry_reminder_sweep db text cfg s now before).0 now user).1 ≢ []
      → window_of (sort cfg.days) (user.passwd_expire - now) ≡ some d
      → again.username ≡ user.username
      → again.passwd_expire ≡ user.passwd_expire
      → window_of (sort cfg.days) (again.passwd_expire - t) ≡ some d
      → db.get later t (marker db text cfg user d)
        ≡ db.get
            (expiry_reminder_sweep db text cfg s now (before ++ user ∷ after)).0
            t
            (marker db text cfg user d)
      → expiry_reminder_sweep db text cfg later t (before_again ++ again ∷ after_again)
        ≡ expiry_reminder_sweep db text cfg later t (before_again ++ after_again)
  unfolding expiry_reminder_sweep
  remind_once works s later now t d user again before after before_again after_again sent e
        same_name same_expiry e_again untouched =
      let key = marker db text cfg user d in
      let b = (expiry_reminder_sweep db text cfg later t before_again).0 in
      let same_key : marker db text cfg again d ≡ key = rw (marker, same_name, same_expiry) refl in
      let nothing : sweep_user db text cfg b t again ≡ (b, []) =
        sweep_user-marked db text cfg b t again d e_again (λ young.
          let there : is_found (db.get later t key) ≡ true =
            ap (λ z. is_found z) untouched
            ∙ sweep-marks works s now t d user before after sent e
                (omega (arith, young, same_expiry)) in
          ap (λ k. is_found (db.get b t k)) same_key
          ∙ ap (λ z. is_found z) (sweep-keeps db text cfg works later t t before_again key there)
          ∙ there) in
      sweep-append db text cfg later t before_again (again ∷ after_again)
      ∙ rw nothing refl
      ∙ sym (sweep-append db text cfg later t before_again after_again)
