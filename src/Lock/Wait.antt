-- ===== src/Lock/Wait.antt =====
-- Waiting for the lock comes to an end, and gets it where nobody else takes it.
use mokey.Base.{
  Bool-cases, Option-cases, String, arith, concat, false, inl, inr, ltb, min, none, refl, some, suc,
  true, zero, ℕ, ◌*◌, ◌+◌, ◌<◌, ◌∙◌, ◌≡◌, ◌≢◌, ◌≤◌, ◌⊎◌,
}
use mokey.Lock.Commands.{Redis, IsRedis}
use mokey.Lock.{
  Holder, acquire_loop, attempt, holding, unlocked, store_lock_prefix, store_lock_ttl, waiting,
  acquire, store_lock_wait,
}

-- How long `n` sleeps last, at least.
abbrev pub slept : ℕ → ℕ → ℕ
slept backoff zero = 0
slept backoff (suc n) = backoff + slept (min (backoff * 2) 20) n

module _ (redis : Redis) (wake : ℕ → ℕ → ℕ) (others : redis.State → ℕ → ℕ → redis.State)
    (sleeps : (t d : ℕ) → t + d ≤ wake t d) where
  attempt-cases :
      (s : redis.State) (now : ℕ) (key token : String) (deadline : ℕ)
      → (((attempt redis s now key token deadline).0 ≡ waiting token deadline)
          × (now ≤ deadline)
          × ((redis.set_nx s now (concat store_lock_prefix key) token store_lock_ttl).0
              ≡ some false))
        ⊎ (((attempt redis s now key token deadline).0 ≡ holding token now)
            ⊎ (((attempt redis s now key token deadline).0 ≡ unlocked)
                × (((redis.set_nx s now (concat store_lock_prefix key) token store_lock_ttl).0
                      ≡ none)
                    ⊎ ((deadline < now)
                        × ((redis.set_nx s now
                              (concat store_lock_prefix key)
                              token
                              store_lock_ttl).0
                            ≡ some false)))))
  unfolding attempt
  attempt-cases s now key token deadline =
      elim (Option-cases
        (redis.set_nx s now (concat store_lock_prefix key) token store_lock_ttl).0) [
          | inr (true, e) ↦ rw e (inr (inl refl))
          | inr (false, e) ↦ elim (Bool-cases (ltb deadline now)) [
            | inl late ↦ rw (e, late) (inr (inr (refl, inr (ground (arith, late), refl))))
            | inr early ↦ rw (e, early) (inl (refl, ground (arith, early), refl))
          ]
          | inl e ↦ rw e (inr (inr (refl, inl refl)))
        ]

  acquire_loop-returns :
      (n : ℕ) (s : redis.State) (now : ℕ) (key token : String) (deadline backoff : ℕ)
      → deadline < now + slept backoff n
      → (r : Holder × redis.State) × (acquire_loop redis wake others
            (suc n)
            s
            now
            key
            token
            deadline
            backoff
          ≡ some r)
  unfolding acquire_loop
  acquire_loop-returns zero s now key token deadline backoff late =
      elim (attempt-cases s now key token deadline) [
        | inl (e, early, reply) ↦ absurd (omega (arith, early, late))
        | inr (inl e) ↦ rw e (_, refl)
        | inr (inr (e, why)) ↦ rw e (_, refl)
      ]
  acquire_loop-returns (suc n) s now key token deadline backoff late =
      let woken = wake now backoff in
      let (turn, s') = attempt redis s now key token deadline in
      let again =
        acquire_loop-returns n (others s' now woken) woken key token deadline (min (backoff * 2) 20)
          (omega (arith, late, sleeps now backoff)) in
      elim (attempt-cases s now key token deadline) [
        | inl (e, early, reply) ↦ rw e again
        | inr (inl e) ↦ rw e (_, refl)
        | inr (inr (e, why)) ↦ rw e (_, refl)
      ]

  -- Whatever Redis replies and the others do, where a sleep lasts at least its duration, acquire
  -- returns after at most 304 turns.
  pub acquire_returns :
      (s : redis.State) (now : ℕ) (key token : String)
      → (r : Holder × redis.State) × (acquire redis wake others 304 s now key token ≡ some r)
  unfolding acquire
  acquire_returns s now key token =
      acquire_loop-returns 303 s now key token (now + store_lock_wait) 2 (omega (arith, full))
    where
      full : slept 2 303 ≡ 6010
      full = refl

  module _ (works : IsRedis redis) (key token : String)
      (leave : (s : redis.State) (t t' u : ℕ)
        → redis.get s u (concat store_lock_prefix key) ≡ none
        → redis.get (others s t t') u (concat store_lock_prefix key) ≡ none)
      (up : (s : redis.State) (t ttl : ℕ)
        → (redis.set_nx s t (concat store_lock_prefix key) token ttl).0 ≢ none) where
    -- A failed attempt leaves the key as it is, and was made before the key is free.
    attempt-kept :
        (s : redis.State) (now free : ℕ)
        → ((u : ℕ) → free ≤ u → redis.get s u (concat store_lock_prefix key) ≡ none)
        → (redis.set_nx s now (concat store_lock_prefix key) token store_lock_ttl).0 ≡ some false
        → (now < free)
          × ((u : ℕ)
              → free ≤ u
              → redis.get
                  (redis.set_nx s now (concat store_lock_prefix key) token store_lock_ttl).1
                  u
                  (concat store_lock_prefix key)
                ≡ none)
    attempt-kept s now free frees reply =
        let (taken, kept) =
          works.lost s now (concat store_lock_prefix key) token store_lock_ttl reply in
        (
          elim (Bool-cases (ltb now free)) [
            | inl before ↦ ground (arith, before)
            | inr after ↦ absurd (taken (frees now (ground (arith, after))))
          ],
          λ u le. kept u (concat store_lock_prefix key) ∙ frees u le,
        )

    acquire_loop-gets :
        (n : ℕ) (s : redis.State) (now free deadline backoff : ℕ)
        → ((u : ℕ) → free ≤ u → redis.get s u (concat store_lock_prefix key) ≡ none)
        → free ≤ deadline
        → (r : Holder × redis.State)
        → acquire_loop redis wake others n s now key token deadline backoff ≡ some r
        → (since : ℕ) × (r.0 ≡ holding token since)
    unfolding acquire_loop attempt
    acquire_loop-gets zero s now free deadline backoff frees soon r h = absurd (ground arith)
    acquire_loop-gets (suc n) s now free deadline backoff frees soon r h =
        let go : acquire_loop redis wake others (suc n) s now key token deadline backoff ≡ some r
            → (since : ℕ) × (r.0 ≡ holding token since) =
          elim (attempt-cases s now key token deadline) [
            | inl (e, early, reply) ↦
                let (before, frees') = attempt-kept s now free frees reply in
                rw e (λ h'.
                  acquire_loop-gets n _ (wake now backoff) free deadline (min (backoff * 2) 20)
                    (λ u le. leave _ now (wake now backoff) u (frees' u le)) soon r h')
            | inr (inl e) ↦ rw e (λ h'. (now, ground (arith, h')))
            | inr (inr (e, inl down)) ↦ absurd (up s now store_lock_ttl down)
            | inr (inr (e, inr (late, reply))) ↦
                let (before, frees') = attempt-kept s now free frees reply in
                absurd (omega (arith, before, late, soon))
          ] in
        go h

    -- On a Redis that does what it documents and replies to this caller, where a sleep lasts at
    -- least its duration, what was taken before the call expires, and nobody takes the lock while
    -- it waits, acquire returns with the lock: the lock of a replica that died is no obstacle.
    pub acquire_gets :
        (s : redis.State) (now since : ℕ)
        → since ≤ now
        → ((u : ℕ)
            → since + store_lock_ttl ≤ u
            → redis.get s u (concat store_lock_prefix key) ≡ none)
        → (r : Holder × redis.State) × (from : ℕ) × (acquire redis wake others 304 s now key token
            ≡ some r)
          × (r.0 ≡ holding token from)
    unfolding acquire
    acquire_gets s now since le frees =
        let (r, e) = acquire_returns s now key token in
        let (from, got) =
          acquire_loop-gets 304 s now (since + store_lock_ttl) (now + store_lock_wait) 2 frees
            (omega arith) r e in
        (r, from, e, got)
