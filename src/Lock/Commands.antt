-- ===== src/Lock/Commands.antt =====
-- The commands of Redis that server/storelock.go sends, and what their documentation says of them.
use mokey.Base.{
  Bool, Option, String, false, if◌then◌else◌, ltb, none, some, string_eq, true, ℕ, ◌+◌, ◌==◌, ◌≡◌,
  ◌≢◌, ◌≤◌, ◌⊎◌,
}

-- `set_nx` replies whether it has set the key, `eval` runs a script alone; none and false are calls
-- that failed. What a key holds is asked at a time, since it expires.
pub record Redis : Type 1 where
  pub State : Type 0
  pub get : State → ℕ → String → Option String
  pub set_nx : State → ℕ → String → String → ℕ → Option Bool × State
  pub del : State → String → State
  pub eval : State → (State → State) → Bool × State

module _ (redis : Redis) where
  abbrev pub IsKept : redis.State → redis.State → Type 0
  IsKept s s' = (t' : ℕ) (j : String) → redis.get s' t' j ≡ redis.get s t' j

  -- The key was free and is set for as long as its time to live.
  abbrev pub IsTaken : redis.State → redis.State → ℕ → String → String → ℕ → Type 0
  IsTaken s s' t k token ttl =
      (redis.get s t k ≡ none)
      × ((t' : ℕ) (j : String)
          → redis.get s' t' j ≡ (
              if k == j then (if ltb t' (t + ttl) then some token else none) else redis.get s t' j))

  -- A call that failed may have been carried out.
  pub record IsRedis : Type 0 where
    pub expires :
        (s : redis.State) (t t' : ℕ) (k x : String)
        → t ≤ t'
        → redis.get s t' k ≡ some x
        → redis.get s t k ≡ some x
    pub won :
        (s : redis.State) (t : ℕ) (k x : String) (ttl : ℕ)
        → (redis.set_nx s t k x ttl).0 ≡ some true
        → IsTaken s (redis.set_nx s t k x ttl).1 t k x ttl
    pub lost :
        (s : redis.State) (t : ℕ) (k x : String) (ttl : ℕ)
        → (redis.set_nx s t k x ttl).0 ≡ some false
        → (redis.get s t k ≢ none) × IsKept s (redis.set_nx s t k x ttl).1
    pub fails :
        (s : redis.State) (t : ℕ) (k x : String) (ttl : ℕ)
        → (redis.set_nx s t k x ttl).0 ≡ none
        → IsTaken s (redis.set_nx s t k x ttl).1 t k x ttl ⊎ IsKept s (redis.set_nx s t k x ttl).1
    pub get-del :
        (s : redis.State) (t : ℕ) (k j : String)
        → redis.get (redis.del s k) t j ≡ (if k == j then none else redis.get s t j)
    pub runs :
        (s : redis.State) (script : redis.State → redis.State)
        → ((redis.eval s script).1 ≡ script s) ⊎ ((redis.eval s script).1 ≡ s)
