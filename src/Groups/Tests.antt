-- ===== src/Groups/Tests.antt =====
-- The group handlers on a small directory: runs, and the theorems at concrete inputs.
use mokey.Base.{
  List, String, [], any, ap, arith, false, filter, if◌then◌else◌, inl, nat_eq, none, not, refl,
  some, string_eq, true, ℕ, ◌+◌, ◌==◌, ◌↔◌, ◌∷◌, ◌≡◌, ◌≢◌, ◌⊎◌,
}
use mokey.Storage.{Storage, Codec}
use mokey.Storage.Table.{table, plain, table-IsWorking}
use mokey.Directory.{User, UserMethods, render, status}
use mokey.Requests.{
  GroupRequest, add_group_request, load_group_requests, load_requests, remove_group_request,
  save_requests,
}
use mokey.Requests.Invariant.{OneEach}
use mokey.Groups.Handlers.{group_approve}
use mokey.Groups.{
  Group, GroupService, World, group_add_member, group_find_managed, group_show, groups_page,
  groups_vars, is_manager_of, live_requests, managed, other, stale,
}
use mokey.Groups.Handlers.{approved, find_request, group_approve, group_decision, mutate, proceed}
use mokey.Directory.Names.{At}
use mokey.Groups.Laws.{
  only_sponsors_change, approval_effects, approve_done, approve_refused, group_decision_iff, places,
}
use mokey.Groups.Page.{stale_dropped, every_group_placed}

abbrev Queue : Type 0
Queue = List GroupRequest

abbrev json : Codec Queue Queue
json = plain Queue

abbrev db : Storage Queue
db = table Queue

abbrev dev : Group
dev = record {
  name = "dev";
  description = "";
  members = "ann" ∷ [];
  manager_users = "eve" ∷ [];
  manager_groups = [];
}

abbrev open_group : Group
open_group = record {
  name = "all";
  description = "";
  members = [];
  manager_users = [];
  manager_groups = [];
}

-- A directory with two groups, that counts its changes and refuses those of the user "zed".
abbrev directory : GroupService
directory = record {
  State = ℕ;
  group_find = λ s. some (dev ∷ open_group ∷ []);
  group_show_raw =
      λ s cn. if cn == "dev" then some dev else if cn == "all" then some open_group else none;
  add_member = λ s sponsor cn uid. if uid == "zed" then (some (other "no"), s) else (none, s + 1);
  remove_member = λ s sponsor cn uid. (none, s + 1);
}

abbrev methods : UserMethods
methods = record { otp_only = λ u. false; has_group = λ u g. any (λ n. n == g) u.groups }

abbrev named : String → List String → User
named name groups = record {
  username = name;
  email = name;
  groups = groups;
  indirect_groups = [];
  auth_types = [];
  locked = false;
  passwd_expire = 0;
}

abbrev empty : World db json directory methods
empty = record { store = []; dir = 0; effects = [] }

-- "bob" and "zed" ask to join "dev", and "ann", who is in it, does so too.
abbrev asked : World db json directory methods
asked = record empty {
  store =
      (add_group_request db json
        (add_group_request db json (add_group_request db json [] 5 "dev" "ann" "join").0 6 "dev"
          "bob" "join").0
        7 "dev" "zed" "join").0;
}

abbrev bob_asks : GroupRequest
bob_asks = record { username = "bob"; kind = "join"; requested_at = 6 }

abbrev zed_asks : GroupRequest
zed_asks = record { username = "zed"; kind = "join"; requested_at = 7 }

approved_run :
    (group_approve db json directory methods asked 8 (named "eve" []) "dev" "bob").0.dir ≡ 1
unfolding group_approve add_group_request remove_group_request load_group_requests load_requests
    save_requests group_decision group_show is_manager_of mutate group_add_member
    mokey.Groups.Handlers.approved mokey.Groups.groups_page groups_vars group_find_managed
approved_run = refl

group_decision_example :
    group_decision db json directory methods asked 8 (named "eve" []) "dev" "bob"
    ≡ proceed dev bob_asks
unfolding group_decision add_group_request load_group_requests load_requests save_requests
    group_show is_manager_of
group_decision_example = refl

group_decision_zed :
    group_decision db json directory methods asked 8 (named "eve" []) "dev" "zed"
    ≡ proceed dev zed_asks
unfolding group_decision add_group_request load_group_requests load_requests save_requests
    group_show is_manager_of
group_decision_zed = refl

group_decision_iff_example :
    (group_decision db json directory methods asked 8 (named "eve" []) "dev" "bob"
      ≡ proceed dev bob_asks)
    ↔ ((group_show db json directory methods asked.dir "dev" ≡ some dev)
        × (is_manager_of "eve" [] dev ≡ true)
        × (find_request "bob" (load_group_requests db json asked.store 8 "dev") ≡ some bob_asks)
        × (bob_asks.username ≡ "bob"))
group_decision_iff_example =
    group_decision_iff db json directory methods asked 8 (named "eve" []) "dev" "bob" dev bob_asks

approves : (group_approve db json directory methods asked 8 (named "eve" []) "dev" "bob").0 ≢ asked
approves same = omega (arith, ap (λ w. w.dir) same, approved_run)

only_sponsors_change_example :
    (g : Group) × (group_show db json directory methods 0 "dev" ≡ some g)
    × (At "eve" g.manager_users ⊎ ((z : String) × At z g.manager_groups × At z []))
only_sponsors_change_example =
    only_sponsors_change db json directory methods asked 8 (named "eve" []) "dev" "bob"
      (inl approves)

approve_refused_example :
    group_approve db json directory methods asked 8 (named "eve" []) "dev" "zed" ≡ (
      record asked { dir = (mutate db json directory methods 0 "eve" dev zed_asks).1 },
      status 403 "groups.approve_failed",
    )
unfolding mutate group_add_member
approve_refused_example =
    approve_refused db json directory methods asked 8 (named "eve" []) "dev" "zed" dev zed_asks
      (other "no") group_decision_zed refl

approve_done_example :
    ((group_approve db json directory methods asked 8 (named "eve" []) "dev" "bob").0.dir
      ≡ (mutate db json directory methods 0 "eve" dev bob_asks).1)
    × ((group_approve db json directory methods asked 8 (named "eve" []) "dev" "bob").0.effects
        ≡ approval_effects dev bob_asks)
    × ((group_approve db json directory methods asked 8 (named "eve" []) "dev" "bob").1
        ≡ render "groups-list.html")
unfolding mutate group_add_member
approve_done_example =
    approve_done db json directory methods asked 8 (named "eve" []) "dev" "bob" dev bob_asks
      group_decision_example refl

every_group_placed_example :
    places (groups_vars db json directory methods asked 8 (named "bob" [])).1 ≡ 1
unfolding group_find_managed managed
every_group_placed_example =
    every_group_placed db json directory methods asked 8 (named "bob" []) (dev ∷ []) refl

asked-OneEach : OneEach (load_group_requests db json asked.store 8 "dev")
unfolding add_group_request load_group_requests load_requests save_requests
asked-OneEach = (refl, (refl, (refl, tt)))

stale_dropped_example :
    ((live_requests db json directory methods asked.store 8 dev
        (load_group_requests db json asked.store 8 "dev")).1
      ≡ filter (λ r. not (stale dev r)) (load_group_requests db json asked.store 8 "dev"))
    × (load_group_requests db json
          (live_requests db json directory methods asked.store 8 dev
            (load_group_requests db json asked.store 8 "dev")).0
          8
          "dev"
        ≡ filter (λ r. not (stale dev r)) (load_group_requests db json asked.store 8 "dev"))
stale_dropped_example =
    stale_dropped db json directory methods (table-IsWorking Queue) asked.store 8 dev asked-OneEach
