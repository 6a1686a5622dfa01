-- ===== src/Expiry/Tests.antt =====
-- A password that expires in two days, and the theorems at it.
use mokey.Base.{
  String, [], any, arith, false, nat_eq, refl, some, string_eq, true, ℕ, ◌*◌, ◌==◌, ◌∷◌, ◌≡◌, ◌≢◌,
  ◌≤◌,
}
use mokey.Storage.{Storage}
use mokey.Storage.Table.{table, table-IsWorking}
use mokey.Directory.{User, mail}
use mokey.Expiry.{Sweep, day, sort, sweep_user, window_of, expiry_reminder_sweep}
use mokey.Expiry.Laws.{remind_once, window_tightest}

abbrev ann : User
ann = record {
  username = "ann";
  email = "ann@x.org";
  groups = [];
  indirect_groups = [];
  auth_types = [];
  locked = false;
  passwd_expire = 1000000;
}

abbrev cfg : Sweep
cfg = record { days = 14 ∷ 1 ∷ 7 ∷ []; sprint = λ n. "n"; sends = λ u n. true }

abbrev db : Storage String
db = table String

two_days_before : (sweep_user db (λ t. t) cfg [] 827200 ann).1 ≡ mail "password-expiry" "ann" ∷ []
unfolding sweep_user
two_days_before = refl

in_a_week : window_of (sort (14 ∷ 1 ∷ 7 ∷ [])) 172800 ≡ some 7
unfolding window_of sort
in_a_week = refl

window_tightest_example :
    (any (λ (x : ℕ). x == 7) (14 ∷ 1 ∷ 7 ∷ []) ≡ true)
    × (172800 ≤ 7 * day)
    × ((e : ℕ) → any (λ (x : ℕ). x == e) (14 ∷ 1 ∷ 7 ∷ []) ≡ true → 172800 ≤ e * day → 7 ≤ e)
window_tightest_example = window_tightest (14 ∷ 1 ∷ 7 ∷ []) 172800 7 in_a_week

abbrev bob : User
bob = record ann { username = "bob"; email = "bob@x.org" }

-- The store after a sweep over both.
abbrev swept : db.State
swept = (expiry_reminder_sweep db (λ t. t) cfg [] 827200 (bob ∷ ann ∷ [])).0

reminded :
    (sweep_user db
      (λ t. t)
      cfg
      (expiry_reminder_sweep db (λ t. t) cfg [] 827200 (bob ∷ [])).0
      827200
      ann).1
    ≢ []
unfolding expiry_reminder_sweep sweep_user
reminded h = ground (arith, h)

-- Six hours later a third has come.
abbrev zed : User
zed = record ann { username = "zed"; email = "zed@x.org" }

remind_once_example :
    expiry_reminder_sweep db (λ t. t) cfg swept 848800 (zed ∷ ann ∷ bob ∷ [])
    ≡ expiry_reminder_sweep db (λ t. t) cfg swept 848800 (zed ∷ bob ∷ [])
unfolding window_of sort
remind_once_example =
    remind_once db (λ t. t) cfg (table-IsWorking String) [] swept 827200 848800 7 ann ann (bob ∷ [])
      [] (zed ∷ []) (bob ∷ []) reminded refl refl refl refl refl
