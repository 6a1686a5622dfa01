-- ===== src/Lock/System.antt =====
-- The callers of hold on all replicas, interleaved, over one Redis and one key.
use mokey.Base.{
  Bool-cases, Option, String, arith, concat, if◌then◌else◌, inl, inr, nat_eq, none, refl, some, ℕ,
  ◌+◌, ◌<◌, ◌==◌, ◌≡◌, ◌≢◌, ◌≤◌, ◌⊎◌,
}
use mokey.Lock.Commands.{Redis}
use mokey.Lock.{
  Holder, attempt, release, store_lock_prefix, store_lock_wait, holding, idle, store_lock_ttl,
  unlocked, waiting,
}

abbrev pub update : (ℕ → Holder) → ℕ → Holder → ℕ → Holder
update f i h j = if i == j then h else f j

pub update-cases :
    (f : ℕ → Holder) (i : ℕ) (h : Holder) (j : ℕ)
    → ((i ≡ j) × (update f i h j ≡ h)) ⊎ ((i ≢ j) × (update f i h j ≡ f j))
update-cases f i h j = elim (Bool-cases (i == j)) [
  | inl e ↦ inl (ground (arith, e), rw e refl)
  | inr e ↦ inr (ground (arith, e), rw e refl)
]

-- The token of a caller that has drawn one and may still use it.
abbrev pub token_of : Holder → Option String
token_of idle = none
token_of (waiting token deadline) = some token
token_of (holding token since) = some token
token_of unlocked = none

module _ (redis : Redis) (key : String) where
  pub record World : Type 0 where
    pub store : redis.State
    pub now : ℕ
    pub callers : ℕ → Holder

  -- `pass`: time passes, by itself or in a sleep. `draw`: the token is of 16 random bytes, which
  -- nobody else has. `attempts`: a turn of acquire's loop. `releases` and `ends`: what hold has
  -- returned, with the lock and without it.
  pub data Step (w u : World) : Type 0 where
    pass : (t : ℕ) → w.now ≤ t → u ≡ record w { now = t } → Step w u
    draw :
        (i : ℕ) (token : String)
        → w.callers i ≡ idle
        → ((j : ℕ) → token_of (w.callers j) ≢ some token)
        → redis.get w.store w.now (concat store_lock_prefix key) ≢ some token
        → u ≡ record w { callers = update w.callers i (waiting token (w.now + store_lock_wait)) }
        → Step w u
    attempts :
        (i : ℕ) (token : String) (deadline : ℕ)
        → w.callers i ≡ waiting token deadline
        → u ≡ record w {
          store = (attempt redis w.store w.now key token deadline).1;
          callers = update w.callers i (attempt redis w.store w.now key token deadline).0;
        }
        → Step w u
    releases :
        (i : ℕ) (token : String) (since : ℕ)
        → w.callers i ≡ holding token since
        → u ≡ record w {
          store = (release redis w.store w.now key token).1;
          callers = update w.callers i idle;
        }
        → Step w u
    ends :
        (i : ℕ)
        → w.callers i ≡ unlocked
        → u ≡ record w { callers = update w.callers i idle }
        → Step w u

  -- From any content of Redis, with no caller yet.
  pub data Reach (s : redis.State) : World → Type 0 where
    start : (t : ℕ) → Reach s (record { store = s; now = t; callers = λ i. idle })
    later : {w u : World} → Reach s w → Step w u → Reach s u

  -- The caller holds the lock, and took it less than its time to live ago.
  abbrev pub IsHolding : World → ℕ → String → Type 0
  IsHolding w i token =
      (since : ℕ) × (w.callers i ≡ holding token since) × (w.now < since + store_lock_ttl)
