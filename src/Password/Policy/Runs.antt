-- ===== src/Password/Policy/Runs.antt =====
-- longestRun against its description: the length of the longest stretch.
use mokey.Base.{
  Bool, Bool-cases, List, [], arith, false, inl, inr, leb, max, nat_eq, refl, subst, suc, true,
  zero, ℕ, ◌&&◌, ◌+◌, ◌-◌, ◌||◌, ◌↔◌, ◌∷◌, ◌≡◌, ◌≤◌,
}
use mokey.Lockout.{ℤ}
use mokey.Password.Policy.Bytes.{follows, run_loop, longest_run}

-- The `n` bytes after `a` go on in the step.
abbrev pub starts_run : ℤ → ℕ → ℕ → List ℕ → Bool
starts_run step a zero bs = true
starts_run step a (suc n) [] = false
starts_run step a (suc n) (b ∷ bs) = follows step a b && starts_run step b n bs

-- Somewhere a byte is followed by `n` more that go on in the step.
abbrev pub has_run : ℤ → ℕ → List ℕ → Bool
has_run step n [] = false
has_run step n (a ∷ bs) = starts_run step a n bs || has_run step n bs

starts_run_shorter :
    (step : ℤ) (a n m : ℕ) (bs : List ℕ)
    → m ≤ n
    → starts_run step a n bs ≡ true
    → starts_run step a m bs ≡ true
starts_run_shorter step a n zero bs le h = refl
starts_run_shorter step a zero (suc m) bs le h = absurd (omega (arith, le))
starts_run_shorter step a (suc n) (suc m) [] le h = absurd (ground arith)
starts_run_shorter step a (suc n) (suc m) (b ∷ bs) le h =
    ground (arith, starts_run_shorter step b n m bs)

run_loop_lem :
    (step : ℤ) (n a longest run : ℕ) (bs : List ℕ)
    → 1 ≤ run
    → run ≤ longest
    → leb (suc n) (run_loop step a longest run bs)
      ≡ (leb (suc n) longest || (starts_run step a (suc n - run) bs || has_run step n bs))
unfolding run_loop
run_loop_lem step n a longest run [] some_run le = elim (Bool-cases (leb (suc n) run)) [
  | inl long ↦ ground arith
  | inr short ↦ let e : suc n - run ≡ suc (n - run) = ground arith in rw e (ground arith)
]
run_loop_lem step n a longest run (b ∷ bs) some_run le = elim (Bool-cases (leb (suc n) run)) [
  | inl long ↦ elim (Bool-cases (follows step a b)) [
    | inl on ↦ rw on (
        ground (
          arith,
          run_loop_lem step n b (max longest (run + 1)) (run + 1) bs (omega arith) (omega arith),
        ))
    | inr off ↦
        rw off
          (ground (arith, run_loop_lem step n b (max longest 1) 1 bs (omega arith) (omega arith)))
  ]
  | inr short ↦
      let e : suc n - run ≡ suc (n - run) = ground arith in
      elim (Bool-cases (follows step a b)) [
        | inl on ↦
            let e' : suc n - (run + 1) ≡ n - run = omega arith in
            rw (e, on)
              (ground (
                arith,
                subst
                    (λ k. leb (suc n) (run_loop step b (max longest (run + 1)) (run + 1) bs) ≡ (
                      leb (suc n) (max longest (run + 1))
                      || (starts_run step b k bs || has_run step n bs)))
                    e'
                    (run_loop_lem step n b (max longest (run + 1)) (run + 1) bs (omega arith)
                      (omega arith)),
                starts_run_shorter step b n (n - run) bs (omega arith),
              ))
        | inr off ↦
            rw (e, off)
              (ground
                (arith, run_loop_lem step n b (max longest 1) 1 bs (omega arith) (omega arith)))
      ]
]

-- longestRun reaches n + 1 exactly where some byte is followed by n more that each are the one
-- before plus the step.
pub longest_run_iff :
    (bs : List ℕ) (step : ℤ) (n : ℕ) → (suc n ≤ longest_run bs step) ↔ (has_run step n bs ≡ true)
unfolding longest_run
longest_run_iff [] step n = ground arith
longest_run_iff (b ∷ bs) step n = ground (
  arith,
  run_loop_lem step n b 1 1 bs (omega arith) (omega arith),
  starts_run_shorter step b n 0 bs (omega arith),
)
