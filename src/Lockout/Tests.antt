-- ===== src/Lockout/Tests.antt =====
-- A policy that locks after six failures, and two replicas.
use mokey.Base.{
  List, [], any, false, leb, nat_eq, refl, some, string_eq, suc, true, ℕ, ◌↔◌, ◌∷◌, ◌≡◌,
}
use mokey.Lockout.{
  user_locked_out, PwPolicy, PolicyService, pos, pw_policy_show, user_failed_logins,
}
use mokey.Lockout.Laws.{user_locked_out_iff}

abbrev policy : PwPolicy
policy = record {
  min_length = 8;
  min_classes = 0;
  history_size = 0;
  max_life_days = 90;
  min_life_hours = 1;
  max_failure = pos 6;
  max_repeat = pos 0;
  max_sequence = pos 0;
  dict_check = false;
  user_check = false;
  digit_credit = pos 0;
  upper_credit = pos 0;
  lower_credit = pos 0;
  other_credit = pos 0;
}

abbrev service : PolicyService
service = record {
  user_status = λ u. some (2 ∷ 7 ∷ []);
  user_pw_policy = λ u. some policy;
  global_pw_policy = some policy;
}

locked : user_locked_out service "ann" ≡ true
unfolding user_locked_out pw_policy_show user_failed_logins
locked = refl

user_locked_out_example : (user_locked_out service "ann" ≡ true) ↔ (
    (policy : PwPolicy) × (m : ℕ) × (replicas : List ℕ) × (pw_policy_show service "ann"
      ≡ some policy)
    × (policy.max_failure ≡ pos (suc m))
    × (service.user_status "ann" ≡ some replicas)
    × (any (λ r. leb (suc m) r) replicas ≡ true))
user_locked_out_example = user_locked_out_iff service "ann"
