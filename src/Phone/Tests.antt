-- ===== src/Phone/Tests.antt =====
-- Numbers that are joined and split, and the round trip at one of them.
use mokey.Text.{codes, trim_space, is_space, rune_len}
use mokey.Phone.{join_phone, split_phone, joined}
use mokey.Phone.Laws.{split-join}
use mokey.Base.{ap, arith, length, refl, ◌≡◌}

joins : join_phone (codes "+44") (codes " 20 7946-0958 ") ≡ joined (codes "+44 20 7946-0958")
unfolding join_phone trim_space is_space rune_len
joins = refl

joins_pasted : join_phone (codes "") (codes "+1 (555) 0100") ≡ joined (codes "+1 5550100")
unfolding join_phone trim_space is_space rune_len
joins_pasted = refl

split-join_example : split_phone (codes "+44 20 7946-0958") ≡ (codes "44", codes "20 7946-0958")
unfolding trim_space is_space
split-join_example =
    split-join (codes "+44") (codes " 20 7946-0958 ") (codes "+44 20 7946-0958")
      (λ e. omega (arith, ap length e)) (λ e. omega (arith, ap length e)) joins
