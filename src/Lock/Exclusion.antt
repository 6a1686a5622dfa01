-- ===== src/Lock/Exclusion.antt =====
-- At most one caller holds the lock within its time to live, and nobody else's release frees it.
use mokey.Base.{String, ap, arith, refl, some, string_eq, subst, sym, ℕ, ◌+◌, ◌∙◌, ◌≡◌}
use mokey.Lock.Commands.{Redis, IsRedis}
use mokey.Lock.{waiting, idle, store_lock_wait}
use mokey.Lock.System.{
  World, token_of, IsHolding, Reach, Step, attempts, draw, ends, later, pass, releases, start,
}
use mokey.Lock.Sound.{IsSound, attempt-IsSound, kept-IsSound, lock_of, release-IsSound}

module _ (redis : Redis) (works : IsRedis redis) (key : String) where
  -- The invariant holds after every step.
  Step-IsSound :
      (w u : World redis key) → Step redis key w u → IsSound redis key w → IsSound redis key u
  Step-IsSound w u (pass t le e) sound = subst (IsSound redis key) (sym e) (record {
    kept = λ i x since t' h le' lt. sound.kept i x since t' h (omega (arith, le, le')) lt;
    distinct = sound.distinct;
  })
  Step-IsSound w u (draw i token was fresh new e) sound = subst (IsSound redis key) (sym e) (
      kept-IsSound redis works key w i w.store (waiting token (w.now + store_lock_wait))
        (λ t j. refl) (λ x t e'. ground (arith, e')) (λ j x e' f. absurd (fresh j (f ∙ sym e')))
        sound)
  Step-IsSound w u (attempts i token deadline was e) sound =
      subst (IsSound redis key) (sym e)
        (attempt-IsSound redis works key w i token deadline sound was)
  Step-IsSound w u (releases i token since was e) sound =
      subst (IsSound redis key) (sym e) (release-IsSound redis works key w i token since sound was)
  Step-IsSound w u (ends i was e) sound = subst (IsSound redis key) (sym e) (
      kept-IsSound redis works key w i w.store idle (λ t j. refl) (λ x t e'. ground (arith, e'))
        (λ j x e' f. absurd (ground (arith, e'))) sound)

  Reach-IsSound :
      (s : redis.State) (w : World redis key) → Reach redis key s w → IsSound redis key w
  Reach-IsSound s w (start t) = record {
    kept = λ i x since t' e. absurd (ground (arith, e));
    distinct = λ i j x e. absurd (ground (arith, e));
  }
  Reach-IsSound s w (later {w = v} r step) = Step-IsSound v w step (Reach-IsSound s v r)

  -- On a Redis that does what it documents, however the callers of all replicas interleave, and
  -- whatever of their calls fail, no two of them hold the lock within its time to live.
  pub mutual_exclusion :
      (s : redis.State) (w : World redis key) (i j : ℕ) (x y : String)
      → Reach redis key s w
      → IsHolding redis key w i x
      → IsHolding redis key w j y
      → i ≡ j
  mutual_exclusion s w i j x y reach (since, e, lt) (since', e', lt') =
      let sound = Reach-IsSound s w reach in
      let a = sound.kept i x since w.now e (omega arith) lt in
      let b = sound.kept j y since' w.now e' (omega arith) lt' in
      sound.distinct i j x (ap token_of e) (ap token_of e' ∙ (sym b ∙ a))

  -- On a Redis that does what it documents, it keeps a holder's token until the holder's own
  -- release or the end of the time to live: in no reachable state has a step of somebody else taken
  -- it away, not even the late release of a lock that has expired.
  pub lock_kept :
      (s : redis.State) (w : World redis key) (i : ℕ) (x : String)
      → Reach redis key s w
      → IsHolding redis key w i x
      → redis.get w.store w.now (lock_of key) ≡ some x
  lock_kept s w i x reach (since, e, lt) =
      (Reach-IsSound s w reach).kept i x since w.now e (omega arith) lt
