-- ===== src/Lock.antt =====
-- server/storelock.go: the lock that the replicas of mokey share through Redis. Redis, whose
-- commands the file sends, is a parameter. Time is in milliseconds.
pub mod Commands
pub mod Wait
pub mod System
pub mod Sound
pub mod Exclusion
mod Tests
use mokey.Base.{
  Bool, Option, String, concat, if◌then◌else◌, ltb, min, none, some, string_eq, suc, zero, ℕ, ◌*◌,
  ◌+◌, ◌==◌,
}
use mokey.Lock.Commands.{Redis}

abbrev pub store_lock_prefix : String
store_lock_prefix = "lock-"

abbrev pub store_lock_ttl : ℕ
store_lock_ttl = 5000

abbrev pub store_lock_wait : ℕ
store_lock_wait = store_lock_ttl + 1000

-- Where a caller of hold stands: before the call, waiting with its token and its deadline, holding
-- the lock since a time, or going on without it.
pub data Holder : Type 0 where
  idle : Holder
  waiting : String → ℕ → Holder
  holding : String → ℕ → Holder
  unlocked : Holder

module _ (redis : Redis) where
  -- storeUnlockScript: compare and delete.
  unfoldable pub store_unlock_script : ℕ → String → String → redis.State → redis.State
  store_unlock_script now key token s = elim (redis.get s now key) [
    | none ↦ s
    | some kept ↦ if kept == token then redis.del s key else s
  ]

  unfoldable pub release : redis.State → ℕ → String → String → Bool × redis.State
  unfolding store_unlock_script
  release s now key token =
      redis.eval s (store_unlock_script now (concat store_lock_prefix key) token)

  -- A turn of acquire's loop, and what hold makes of its return.
  unfoldable pub attempt : redis.State → ℕ → String → String → ℕ → Holder × redis.State
  attempt s now key token deadline =
      let (reply, s') = redis.set_nx s now (concat store_lock_prefix key) token store_lock_ttl in
      (
        elim reply [
          | none ↦ unlocked
          | some ok ↦
              if ok
              then holding token now
              else if ltb deadline now
              then unlocked
              else waiting token deadline
        ],
        s',
      )

  -- acquire's loop: `wake` is when a sleep ends, `others` is what they do meanwhile; none is out of
  -- fuel.
  unfoldable pub acquire_loop :
      (ℕ → ℕ → ℕ)
      → (redis.State → ℕ → ℕ → redis.State)
      → ℕ
      → redis.State
      → ℕ
      → String
      → String
      → ℕ
      → ℕ
      → Option (Holder × redis.State)
  unfolding attempt
  acquire_loop wake others zero s now key token deadline backoff = none
  acquire_loop wake others (suc fuel) s now key token deadline backoff =
      let (turn, s') = attempt s now key token deadline in
      let woken = wake now backoff in
      elim turn [
        | idle ↦ some (idle, s')
        | waiting t d ↦
            acquire_loop wake others fuel (others s' now woken) woken key token deadline
              (min (backoff * 2) 20)
        | holding t since ↦ some (holding t since, s')
        | unlocked ↦ some (unlocked, s')
      ]

  unfoldable pub acquire :
      (ℕ → ℕ → ℕ)
      → (redis.State → ℕ → ℕ → redis.State)
      → ℕ
      → redis.State
      → ℕ
      → String
      → String
      → Option (Holder × redis.State)
  unfolding acquire_loop
  acquire wake others fuel s now key token =
      acquire_loop wake others fuel s now key token (now + store_lock_wait) 2
