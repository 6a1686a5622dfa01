-- ===== src/Expiry/Markers.antt =====
-- server/expiry.go: what a sweep does to the markers of reminders.
use mokey.Base.{
  Bool, Bool-cases, List, Option-cases, String, [], ap, append_assoc, arith, eq_iff, eq_refl, false,
  inl, inr, leb, nat_eq, none, refl, some, string_eq, subst, sym, true, ℕ, ◌++◌, ◌+◌, ◌-◌, ◌/◌, ◌<◌,
  ◌==◌, ◌||◌, ◌∙◌, ◌∷◌, ◌≡◌, ◌≢◌, ◌≤◌,
}
use mokey.Storage.{Storage, IsWorking, in_time, is_found}
use mokey.Directory.{User}
use mokey.Expiry.{Sweep, sort, sweep_user, window_of, day, expiry_reminder_sweep, marker, remind}

module _ {Bytes : Type 0} (db : Storage Bytes) (text : String → Bytes) (cfg : Sweep) where
  -- A sweep passes over whom it cannot mail, and over an expired password.
  abbrev passes_over : ℕ → User → Bool
  passes_over now user =
      (user.locked || user.email == "" || user.passwd_expire == 0) || leb user.passwd_expire now

  sweep_user-passes_over :
      (s : db.State) (now : ℕ) (user : User)
      → passes_over now user ≡ true
      → sweep_user db text cfg s now user ≡ (s, [])
  unfolding sweep_user
  sweep_user-passes_over s now user h = ground (arith, h)

  sweep_user-remind :
      (s : db.State) (now : ℕ) (user : User) (d : ℕ)
      → passes_over now user ≡ false
      → window_of (sort cfg.days) (user.passwd_expire - now) ≡ some d
      → sweep_user db text cfg s now user ≡ remind db text cfg s now user d
  unfolding sweep_user
  sweep_user-remind s now user d h e = ground (arith, h, e)

  sweep_user-none :
      (s : db.State) (now : ℕ) (user : User)
      → passes_over now user ≡ false
      → window_of (sort cfg.days) (user.passwd_expire - now) ≡ none
      → sweep_user db text cfg s now user ≡ (s, [])
  unfolding sweep_user
  sweep_user-none s now user h e = ground (arith, h, e)

  remind-marked :
      (s : db.State) (now : ℕ) (user : User) (d : ℕ)
      → is_found (db.get s now (marker db text cfg user d)) ≡ true
      → remind db text cfg s now user d ≡ (s, [])
  unfolding remind
  remind-marked s now user d h = rw (remind, h) refl

  -- A reminder that goes out leaves a marker that lives for a day longer than the password.
  remind-marks :
      (works : IsWorking db) (s : db.State) (now t : ℕ) (user : User) (d : ℕ)
      → (remind db text cfg s now user d).1 ≢ []
      → now ≤ user.passwd_expire
      → t < user.passwd_expire + day
      → is_found (db.get (remind db text cfg s now user d).0 t (marker db text cfg user d)) ≡ true
  unfolding remind
  remind-marks works s now t user d sent alive young =
      let key = marker db text cfg user d in
      elim (Bool-cases (is_found (db.get s now key))) [
        | inl marked ↦ absurd (sent (rw (remind, marked) refl))
        | inr unmarked ↦ elim (Bool-cases (cfg.sends user ((user.passwd_expire - now) / day + 1))) [
          | inr unsent ↦ absurd (sent (rw (remind, unmarked, unsent) refl))
          | inl goes_out ↦
              let ttl = user.passwd_expire - now + day in
              let alive_then : in_time ttl now t ≡ true = ground (arith, alive, young) in
              rw
                (
                  remind,
                  unmarked,
                  goes_out,
                  works.get-set s now t key key (text "sent") ttl,
                  eq_refl key,
                  alive_then,
                )
                refl
        ]
      ]

  -- No reminder touches an entry that is there: its own marker it finds, any other key it leaves.
  remind-keeps :
      (works : IsWorking db) (s : db.State) (now t : ℕ) (user : User) (d : ℕ) (k : String)
      → is_found (db.get s now k) ≡ true
      → db.get (remind db text cfg s now user d).0 t k ≡ db.get s t k
  unfolding remind
  remind-keeps works s now t user d k there =
      let key = marker db text cfg user d in
      elim (Bool-cases (is_found (db.get s now key))) [
        | inl marked ↦ rw (remind, marked) refl
        | inr unmarked ↦ elim (Bool-cases (cfg.sends user ((user.passwd_expire - now) / day + 1))) [
          | inr unsent ↦ rw (remind, unmarked, unsent) refl
          | inl goes_out ↦
              let ttl = user.passwd_expire - now + day in
              let apart : (key == k) ≡ false = elim (Bool-cases (key == k)) [
                | inl same ↦
                    let missing_there =
                      subst (λ z. is_found (db.get s now z) ≡ false) ((eq_iff key k).0 same)
                        unmarked in
                    absurd (ground (arith, sym there ∙ missing_there))
                | inr differ ↦ differ
              ] in
              rw (remind, unmarked, goes_out, works.get-set s now t key k (text "sent") ttl, apart)
                refl
        ]
      ]

  sweep_user-keeps :
      (works : IsWorking db) (s : db.State) (now t : ℕ) (user : User) (k : String)
      → is_found (db.get s now k) ≡ true
      → db.get (sweep_user db text cfg s now user).0 t k ≡ db.get s t k
  sweep_user-keeps works s now t user k there = elim (Bool-cases (passes_over now user)) [
    | inl over ↦ ap (λ z. db.get z.0 t k) (sweep_user-passes_over s now user over)
    | inr due ↦ elim (Option-cases (window_of (sort cfg.days) (user.passwd_expire - now))) [
      | inl too_early ↦ ap (λ z. db.get z.0 t k) (sweep_user-none s now user due too_early)
      | inr (d, e) ↦
          ap (λ z. db.get z.0 t k) (sweep_user-remind s now user d due e)
          ∙ remind-keeps works s now t user d k there
    ]
  ]

  -- Nor does a whole sweep.
  pub sweep-keeps :
      (works : IsWorking db) (s : db.State) (now t : ℕ) (users : List User) (k : String)
      → is_found (db.get s now k) ≡ true
      → db.get (expiry_reminder_sweep db text cfg s now users).0 t k ≡ db.get s t k
  unfolding expiry_reminder_sweep
  sweep-keeps works s now t [] k there = refl
  sweep-keeps works s now t (user ∷ users) k there =
      let s' = (sweep_user db text cfg s now user).0 in
      sweep-keeps works s' now t users k
        (ap (λ z. is_found z) (sweep_user-keeps works s now now user k there) ∙ there)
      ∙ sweep_user-keeps works s now t user k there

  -- A sweep over two lists is one sweep after the other.
  pub sweep-append :
      (s : db.State) (now : ℕ) (users more : List User)
      → expiry_reminder_sweep db text cfg s now (users ++ more) ≡ (
        (expiry_reminder_sweep db text cfg
            (expiry_reminder_sweep db text cfg s now users).0
            now
            more).0,
        (expiry_reminder_sweep db text cfg s now users).1
            ++ (expiry_reminder_sweep db text cfg
                (expiry_reminder_sweep db text cfg s now users).0
                now
                more).1,
      )
  unfolding expiry_reminder_sweep
  sweep-append s now [] more = refl
  sweep-append s now (user ∷ users) more =
      let (s', sent) = sweep_user db text cfg s now user in
      rw (sweep-append s' now users more) (simp append_assoc)

  -- A sweep reminds only before the password expires.
  pub sweep_user-young :
      (s : db.State) (now : ℕ) (user : User)
      → (sweep_user db text cfg s now user).1 ≢ []
      → now < user.passwd_expire + day
  sweep_user-young s now user sent = elim (Bool-cases (passes_over now user)) [
    | inl over ↦ absurd (sent (ap (λ z. z.1) (sweep_user-passes_over s now user over)))
    | inr due ↦ ground (arith, due)
  ]

  -- A user that a sweep reminds is marked for as long as the password lives, whoever else it reminds.
  pub sweep_user-marks :
      (works : IsWorking db) (s : db.State) (now t : ℕ) (user : User) (d : ℕ)
      → (sweep_user db text cfg s now user).1 ≢ []
      → window_of (sort cfg.days) (user.passwd_expire - now) ≡ some d
      → t < user.passwd_expire + day
      → is_found (db.get (sweep_user db text cfg s now user).0 t (marker db text cfg user d)) ≡ true
  sweep_user-marks works s now t user d sent e young = elim (Bool-cases (passes_over now user)) [
    | inl over ↦ absurd (sent (ap (λ z. z.1) (sweep_user-passes_over s now user over)))
    | inr due ↦
        let same = sweep_user-remind s now user d due e in
        let alive : now < user.passwd_expire = ground (arith, due) in
        ap (λ z. is_found (db.get z.0 t (marker db text cfg user d))) same
        ∙ remind-marks works s now t user d (λ none_sent. sent (ap (λ z. z.1) same ∙ none_sent))
            (omega (arith, alive)) young
  ]

  -- A user who is marked gets nothing.
  pub sweep_user-marked :
      (s : db.State) (t : ℕ) (user : User) (d : ℕ)
      → window_of (sort cfg.days) (user.passwd_expire - t) ≡ some d
      → (t < user.passwd_expire → is_found (db.get s t (marker db text cfg user d)) ≡ true)
      → sweep_user db text cfg s t user ≡ (s, [])
  sweep_user-marked s t user d e marked = elim (Bool-cases (passes_over t user)) [
    | inl over ↦ sweep_user-passes_over s t user over
    | inr due ↦
        sweep_user-remind s t user d due e ∙ remind-marked s t user d (marked (ground (arith, due)))
  ]
