-- ===== src/Password/Policy/Bytes.antt =====
-- server/password.go longestRun, and the comparisons of package bytes that checkPwquality calls.
use mokey.Base.{
  Bool, List, [], false, if◌then◌else◌, max, nat_eq, suc, true, ℕ, ◌%◌, ◌&&◌, ◌+◌, ◌==◌, ◌||◌, ◌∷◌,
}
use mokey.Lockout.{ℤ, negsuc, pos}

-- `int(int8(b))`, moved up by 128.
abbrev pub signed : ℕ → ℕ
signed b = (b + 128) % 256

-- The byte `b` is the byte `a` plus `step`, as signed chars.
unfoldable pub follows : ℤ → ℕ → ℕ → Bool
follows (pos n) a b = signed b == signed a + n
follows (negsuc n) a b = signed b + suc n == signed a

-- The loop of longestRun after the byte `a`.
unfoldable pub run_loop : ℤ → ℕ → ℕ → ℕ → List ℕ → ℕ
unfolding follows
run_loop step a longest run [] = longest
run_loop step a longest run (b ∷ bs) =
    let run' = if follows step a b then run + 1 else 1 in run_loop step b (max longest run') run' bs

unfoldable pub longest_run : List ℕ → ℤ → ℕ
unfolding run_loop
longest_run [] step = 0
longest_run (b ∷ bs) step = run_loop step b 1 1 bs

-- bytes.Equal
unfoldable pub bytes_equal : List ℕ → List ℕ → Bool
bytes_equal [] [] = true
bytes_equal [] (b ∷ bs) = false
bytes_equal (a ∷ xs) [] = false
bytes_equal (a ∷ xs) (b ∷ bs) = a == b && bytes_equal xs bs

unfoldable pub has_prefix : List ℕ → List ℕ → Bool
has_prefix [] bs = true
has_prefix (a ∷ xs) [] = false
has_prefix (a ∷ xs) (b ∷ bs) = a == b && has_prefix xs bs

-- bytes.Contains
unfoldable pub has_infix : List ℕ → List ℕ → Bool
unfolding has_prefix
has_infix xs [] = has_prefix xs []
has_infix xs (b ∷ bs) = has_prefix xs (b ∷ bs) || has_infix xs bs
