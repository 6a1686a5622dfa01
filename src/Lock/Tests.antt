-- ===== src/Lock/Tests.antt =====
-- The lock on a small Redis: one table that expires what it holds.
use mokey.Base.{
  Bool, Bool-cases, Option, Option-cases, String, ap, arith, false, if◌then◌else◌, inl, inr, ltb,
  nat_eq, none, refl, some, string_eq, sym, true, ℕ, ◌+◌, ◌==◌, ◌∙◌, ◌≡◌, ◌≢◌, ◌≤◌,
}
use mokey.Lock.Commands.{Redis, IsRedis}
use mokey.Lock.{attempt, Holder, acquire, holding, idle, waiting}
use mokey.Lock.Exclusion.{lock_kept, mutual_exclusion}
use mokey.Lock.System.{World, Reach, attempts, draw, later, start, update}
use mokey.Lock.Wait.{acquire_gets, acquire_returns}

abbrev Table : Type 0
Table = String → Option (String × ℕ)

abbrev read : Option (String × ℕ) → ℕ → Option String
read none t = none
read (some (x, until)) t = if ltb t until then some x else none

abbrev put : Table → String → Option (String × ℕ) → Table
put s k e j = if k == j then e else s j

abbrev set_where : Option String → Table → Table → Option Bool × Table
set_where none s s' = (some true, s')
set_where (some y) s s' = (some false, s)

abbrev table : Redis
table = record {
  State = Table;
  get = λ s t k. read (s k) t;
  set_nx = λ s t k x ttl. set_where (read (s k) t) s (put s k (some (x, t + ttl)));
  del = λ s k. put s k none;
  eval = λ s script. (true, script s);
}

read-put :
    (s : Table) (k j : String) (e : Option (String × ℕ)) (t : ℕ)
    → read (put s k e j) t ≡ (if k == j then read e t else read (s j) t)
read-put s k j e t = elim (Bool-cases (k == j)) [
  | inl same ↦ rw same refl
  | inr other ↦ rw other refl
]

set_nx-free :
    (s : Table) (t : ℕ) (k x : String) (ttl : ℕ)
    → read (s k) t ≡ none
    → table.set_nx s t k x ttl ≡ (some true, put s k (some (x, t + ttl)))
set_nx-free s t k x ttl free = ap (λ o. set_where o s (put s k (some (x, t + ttl)))) free

set_nx-taken :
    (s : Table) (t : ℕ) (k x y : String) (ttl : ℕ)
    → read (s k) t ≡ some y
    → table.set_nx s t k x ttl ≡ (some false, s)
set_nx-taken s t k x y ttl taken = ap (λ o. set_where o s (put s k (some (x, t + ttl)))) taken

read-earlier :
    (e : Option (String × ℕ)) (t t' : ℕ) (x : String)
    → t ≤ t'
    → read e t' ≡ some x
    → read e t ≡ some x
read-earlier none t t' x le h = absurd (ground (arith, h))
read-earlier (some (y, until)) t t' x le h = ground (arith, h, le)

table-IsRedis : IsRedis table
table-IsRedis = record {
  expires = λ s t t' k x le e. read-earlier (s k) t t' x le e;
  won = λ s t k x ttl e. elim (Option-cases (read (s k) t)) [
    | inl free ↦ (
      free,
      λ t' j.
          ap (λ p. read (p.1 j) t') (set_nx-free s t k x ttl free)
          ∙ read-put s k j (some (x, t + ttl)) t',
    )
    | inr (y, taken) ↦
        absurd (ground (arith, sym (ap (λ p. p.0) (set_nx-taken s t k x y ttl taken)) ∙ e))
  ];
  lost = λ s t k x ttl e. elim (Option-cases (read (s k) t)) [
    | inl free ↦ absurd (ground (arith, sym (ap (λ p. p.0) (set_nx-free s t k x ttl free)) ∙ e))
    | inr (y, taken) ↦ (
      λ none_now. ground (arith, none_now, taken),
      λ t' j. ap (λ p. read (p.1 j) t') (set_nx-taken s t k x y ttl taken),
    )
  ];
  fails = λ s t k x ttl e. elim (Option-cases (read (s k) t)) [
    | inl free ↦ absurd (ground (arith, sym (ap (λ p. p.0) (set_nx-free s t k x ttl free)) ∙ e))
    | inr (y, taken) ↦
        absurd (ground (arith, sym (ap (λ p. p.0) (set_nx-taken s t k x y ttl taken)) ∙ e))
  ];
  get-del = λ s t k j. read-put s k j none t;
  runs = λ s script. inl refl;
}

-- The replica that took the lock at the time 0 died with it.
abbrev left_behind : Table
left_behind = put (λ k. none) "lock-audit-seq" (some ("dead", 5000))

-- Nobody else takes it.
abbrev nobody : Table → ℕ → ℕ → Table
nobody s t t' = s

always_replies : (s : Table) (t ttl : ℕ) → (table.set_nx s t "lock-audit-seq" "mine" ttl).0 ≢ none
always_replies s t ttl down = elim (Option-cases (read (s "lock-audit-seq") t)) [
  | inl free ↦
      ground (arith, sym (ap (λ p. p.0) (set_nx-free s t "lock-audit-seq" "mine" ttl free)) ∙ down)
  | inr (y, taken) ↦
      ground
        (arith, sym (ap (λ p. p.0) (set_nx-taken s t "lock-audit-seq" "mine" y ttl taken)) ∙ down)
]

left_behind-expires : (u : ℕ) → 5000 ≤ u → table.get left_behind u "lock-audit-seq" ≡ none
left_behind-expires u le = ground (arith, le)

acquire_returns_example :
    (r : Holder × Table) × (acquire table
        (λ t d. t + d)
        nobody
        304
        left_behind
        1000
        "audit-seq"
        "mine"
      ≡ some r)
acquire_returns_example =
    acquire_returns table (λ t d. t + d) nobody (λ t d. omega arith) left_behind 1000 "audit-seq"
      "mine"

acquire_gets_example :
    (r : Holder × Table) × (from : ℕ) × (acquire table
        (λ t d. t + d)
        nobody
        304
        left_behind
        1000
        "audit-seq"
        "mine"
      ≡ some r)
    × (r.0 ≡ holding "mine" from)
acquire_gets_example =
    acquire_gets table (λ t d. t + d) nobody (λ t d. omega arith) table-IsRedis "audit-seq" "mine"
      (λ s t t' u e. e) always_replies left_behind 1000 0 (omega arith) left_behind-expires

-- Caller 1 draws a token and takes the lock.
abbrev begun : World table "k"
begun = record { store = λ k. none; now = 10; callers = λ i. idle }

abbrev drawn : World table "k"
drawn = record begun { callers = update begun.callers 1 (waiting "t1" 6010) }

abbrev taken : World table "k"
taken = record {
  store = put (λ k. none) "lock-k" (some ("t1", 5010));
  now = 10;
  callers = update drawn.callers 1 (holding "t1" 10);
}

taken_reached : Reach table "k" (λ k. none) taken
unfolding attempt
taken_reached =
    later {w = drawn}
      (later {w = begun} (start 10)
        (draw 1 "t1" refl (λ j e. ground (arith, e)) (λ e. ground (arith, e)) refl))
      (attempts 1 "t1" 6010 refl refl)

mutual_exclusion_example : ◌≡◌ {A = ℕ} 1 1
mutual_exclusion_example =
    mutual_exclusion table table-IsRedis "k" (λ k. none) taken 1 1 "t1" "t1" taken_reached
      (10, refl, omega arith) (10, refl, omega arith)

lock_kept_example : table.get taken.store 10 "lock-k" ≡ some "t1"
lock_kept_example =
    lock_kept table table-IsRedis "k" (λ k. none) taken 1 "t1" taken_reached (10, refl, omega arith)
