-- ===== src/Lock/Sound.antt =====
-- The invariant of the callers of hold, and that an attempt and a release keep it.
use mokey.Base.{
  Bool-cases, Option-cases, String, ap, arith, concat, eq_iff, false, inl, inr, ltb, none, refl,
  some, string_eq, sym, true, ℕ, ◌+◌, ◌<◌, ◌==◌, ◌∙◌, ◌≡◌, ◌≢◌, ◌≤◌, ◌⊎◌,
}
use mokey.Lock.Commands.{Redis, IsRedis, IsKept}
use mokey.Lock.{
  Holder, store_lock_prefix, store_lock_ttl, holding, attempt, waiting, release,
  store_unlock_script, unlocked, idle,
}
use mokey.Lock.System.{World, token_of, update, update-cases}

abbrev pub lock_of : String → String
lock_of key = concat store_lock_prefix key

-- Redis keeps the token of a holder until its time to live ends; tokens are of one caller each.
pub record IsSound (redis : Redis) (key : String) (w : World redis key) : Type 0 where
  pub kept :
      (i : ℕ) (token : String) (since t : ℕ)
      → w.callers i ≡ holding token since
      → w.now ≤ t
      → t < since + store_lock_ttl
      → redis.get w.store t (lock_of key) ≡ some token
  pub distinct :
      (i j : ℕ) (token : String)
      → token_of (w.callers i) ≡ some token
      → token_of (w.callers j) ≡ some token
      → i ≡ j

module _ (redis : Redis) (works : IsRedis redis) (key : String) where
  -- What a step of caller `i` has to show: the lock of the others, its own, and its token.
  turn-IsSound :
      (w : World redis key) (i : ℕ) (s : redis.State) (h : Holder)
      → ((j : ℕ) (token : String) (since t : ℕ)
          → i ≢ j
          → w.callers j ≡ holding token since
          → w.now ≤ t
          → t < since + store_lock_ttl
          → redis.get s t (lock_of key) ≡ some token)
      → ((token : String) (since t : ℕ)
          → h ≡ holding token since
          → w.now ≤ t
          → t < since + store_lock_ttl
          → redis.get s t (lock_of key) ≡ some token)
      → ((j : ℕ) (token : String)
          → token_of h ≡ some token
          → token_of (w.callers j) ≡ some token
          → i ≡ j)
      → IsSound redis key w
      → IsSound redis key (record w { store = s; callers = update w.callers i h })
  turn-IsSound w i s h theirs own fresh sound = record {
    kept = λ j token since t e le lt. elim (update-cases w.callers i h j) [
      | inl (same, u) ↦ own token since t (sym u ∙ e) le lt
      | inr (other, u) ↦ theirs j token since t other (sym u ∙ e) le lt
    ];
    distinct = λ j k token e f. elim (update-cases w.callers i h j) [
      | inl (same, u) ↦ elim (update-cases w.callers i h k) [
        | inl (same', u') ↦ sym same ∙ same'
        | inr (other', u') ↦
            sym same ∙ fresh k token (ap token_of (sym u) ∙ e) (ap token_of (sym u') ∙ f)
      ]
      | inr (other, u) ↦ elim (update-cases w.callers i h k) [
        | inl (same', u') ↦
            sym (fresh j token (ap token_of (sym u') ∙ f) (ap token_of (sym u) ∙ e)) ∙ same'
        | inr (other', u') ↦
            sound.distinct j k token (ap token_of (sym u) ∙ e) (ap token_of (sym u') ∙ f)
      ]
    ];
  }

  -- Where the key is free, nobody holds the lock any more.
  free-none :
      (w : World redis key) (j : ℕ) (token : String) (since t : ℕ)
      → IsSound redis key w
      → redis.get w.store w.now (lock_of key) ≡ none
      → w.callers j ≡ holding token since
      → w.now ≤ t
      → t < since + store_lock_ttl
      → ⊥
  free-none w j token since t sound free e le lt =
      let held = sound.kept j token since w.now e (omega arith) (omega (arith, le, lt)) in
      ground (arith, held, free)

  -- A step of caller `i` after which it does not hold the lock and Redis holds what it held.
  pub kept-IsSound :
      (w : World redis key) (i : ℕ) (s : redis.State) (h : Holder)
      → IsKept redis w.store s
      → ((token : String) (since : ℕ) → h ≢ holding token since)
      → ((j : ℕ) (token : String)
          → token_of h ≡ some token
          → token_of (w.callers j) ≡ some token
          → i ≡ j)
      → IsSound redis key w
      → IsSound redis key (record w { store = s; callers = update w.callers i h })
  kept-IsSound w i s h kept not_held fresh sound =
      turn-IsSound w i s h
        (λ j x since t other e le lt. kept t (lock_of key) ∙ sound.kept j x since t e le lt)
        (λ x since t e le lt. absurd (not_held x since e)) fresh sound

  -- The same where the key was free, whatever Redis holds now.
  free-IsSound :
      (w : World redis key) (i : ℕ) (s : redis.State) (h : Holder)
      → redis.get w.store w.now (lock_of key) ≡ none
      → ((token : String) (since t : ℕ)
          → h ≡ holding token since
          → w.now ≤ t
          → t < since + store_lock_ttl
          → redis.get s t (lock_of key) ≡ some token)
      → ((j : ℕ) (token : String)
          → token_of h ≡ some token
          → token_of (w.callers j) ≡ some token
          → i ≡ j)
      → IsSound redis key w
      → IsSound redis key (record w { store = s; callers = update w.callers i h })
  free-IsSound w i s h free own fresh sound =
      turn-IsSound w i s h
        (λ j x since t other e le lt. absurd (free-none w j x since t sound free e le lt)) own fresh
        sound

  pub attempt-IsSound :
      (w : World redis key) (i : ℕ) (token : String) (deadline : ℕ)
      → IsSound redis key w
      → w.callers i ≡ waiting token deadline
      → IsSound redis key (record w {
        store = (attempt redis w.store w.now key token deadline).1;
        callers = update w.callers i (attempt redis w.store w.now key token deadline).0;
      })
  unfolding attempt
  attempt-IsSound w i token deadline sound mine =
      let s' = (redis.set_nx w.store w.now (lock_of key) token store_lock_ttl).1 in
      let same_token =
        λ (j : ℕ) (x : String) (e : some token ≡ some x) (f : token_of (w.callers j) ≡ some x).
          sound.distinct i j x (ap token_of mine ∙ e) f in
      elim (Option-cases (redis.set_nx w.store w.now (lock_of key) token store_lock_ttl).0) [
        | inr (true, e) ↦
            let (free, set) = works.won w.store w.now (lock_of key) token store_lock_ttl e in
            rw e (
              free-IsSound w i s' (holding token w.now) free
                (λ x since t e' le lt.
                  set t (lock_of key)
                  ∙ ground (arith, e', lt, (eq_iff (lock_of key) (lock_of key)).1 refl))
                same_token sound)
        | inr (false, e) ↦
            let (taken, kept) = works.lost w.store w.now (lock_of key) token store_lock_ttl e in
            elim (Bool-cases (ltb deadline w.now)) [
              | inl late ↦
                  rw (e, late)
                    (kept-IsSound w i s' unlocked kept (λ x since e'. ground (arith, e'))
                      (λ j x e' f. absurd (ground (arith, e'))) sound)
              | inr early ↦
                  rw (e, early)
                    (kept-IsSound w i s' (waiting token deadline) kept
                      (λ x since e'. ground (arith, e')) same_token sound)
            ]
        | inl e ↦ elim (works.fails w.store w.now (lock_of key) token store_lock_ttl e) [
          | inl (free, set) ↦ rw e (
              free-IsSound w i s' unlocked free (λ x since t e'. absurd (ground (arith, e')))
                (λ j x e' f. absurd (ground (arith, e'))) sound)
          | inr kept ↦ rw e (
              kept-IsSound w i s' unlocked kept (λ x since e'. ground (arith, e'))
                (λ j x e' f. absurd (ground (arith, e'))) sound)
        ]
      ]

  -- The script takes nothing from Redis but the caller's own token.
  script-cases :
      (s : redis.State) (now : ℕ) (token : String)
      → IsKept redis s (store_unlock_script redis now (lock_of key) token s)
        ⊎ (redis.get s now (lock_of key) ≡ some token)
  unfolding store_unlock_script
  script-cases s now token = elim (Option-cases (redis.get s now (lock_of key))) [
    | inl e ↦
        let same : store_unlock_script redis now (lock_of key) token s ≡ s =
          rw (e, store_unlock_script) refl in
        inl (λ t j. ap (λ z. redis.get z t j) same)
    | inr (x, e) ↦ elim (Bool-cases (x == token)) [
      | inl same ↦ rw e (inr (ap some ((eq_iff x token).0 same)))
      | inr other ↦
          let same : store_unlock_script redis now (lock_of key) token s ≡ s =
            rw (e, store_unlock_script, other) refl in
          inl (λ t j. ap (λ z. redis.get z t j) same)
    ]
  ]

  release-cases :
      (s : redis.State) (now : ℕ) (token : String)
      → IsKept redis s (release redis s now key token).1
        ⊎ (redis.get s now (lock_of key) ≡ some token)
  unfolding release
  release-cases s now token =
      elim (works.runs s (store_unlock_script redis now (lock_of key) token)) [
        | inl ran ↦ elim (script-cases s now token) [
          | inl kept ↦ inl (λ t j. ap (λ z. redis.get z t j) ran ∙ kept t j)
          | inr own ↦ inr own
        ]
        | inr not_run ↦ inl (λ t j. ap (λ z. redis.get z t j) not_run)
      ]

  pub release-IsSound :
      (w : World redis key) (i : ℕ) (token : String) (since : ℕ)
      → IsSound redis key w
      → w.callers i ≡ holding token since
      → IsSound redis key (record w {
        store = (release redis w.store w.now key token).1;
        callers = update w.callers i idle;
      })
  release-IsSound w i token since sound mine = elim (release-cases w.store w.now token) [
    | inl kept ↦
        kept-IsSound w i _ idle kept (λ x t e. ground (arith, e))
          (λ j x e f. absurd (ground (arith, e))) sound
    | inr own ↦
        turn-IsSound w i _ idle
          (λ j x t u other e le lt. absurd (
            other (
              sound.distinct i j x
                (ap token_of mine
                  ∙ (sym own ∙ sound.kept j x t w.now e (omega arith) (omega (arith, le, lt))))
                (ap token_of e))))
          (λ x t u e. absurd (ground (arith, e))) (λ j x e f. absurd (ground (arith, e))) sound
  ]
