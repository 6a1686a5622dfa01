-- ===== src/Requests/Tests.antt =====
-- The request queues on a small storage: runs, and the theorems at concrete inputs.
use mokey.Base.{
  List, [], any, arith, eq_iff, false, filter, if◌then◌else◌, nat_eq, not, refl, string_eq, true,
  ◌++◌, ◌==◌, ◌∷◌, ◌≡◌,
}
use mokey.Storage.{Storage, Codec}
use mokey.Storage.Table.{table, plain, table-IsWorking}
use mokey.Requests.{
  GroupRequest, add_group_request, add_request, load_group_requests, load_requests,
  remove_group_request, remove_request, requester, save_requests,
}
use mokey.Requests.Laws.{add_request_lem, remove-add, remove_request_lem}
use mokey.Requests.Invariant.{run-AllOneEach, AllOneEach, ask, load-add_other, run, settle}

abbrev Queue : Type 0
Queue = List GroupRequest

abbrev json : Codec Queue Queue
json = plain Queue

abbrev db : Storage Queue
db = table Queue

abbrev ann_asks : GroupRequest
ann_asks = record { username = "ann"; kind = "join"; requested_at = 5 }

abbrev bob_asks : GroupRequest
bob_asks = record { username = "bob"; kind = "leave"; requested_at = 6 }

-- One request is queued for the group "dev".
abbrev asked : db.State
asked = (add_group_request db json [] 5 "dev" "ann" "join").0

asked_twice : (add_group_request db json asked 6 "dev" "ann" "leave").1 ≡ false
unfolding add_group_request load_requests save_requests
asked_twice = refl

settled :
    load_group_requests db json (remove_group_request db json asked 7 "dev" "ann").0 8 "dev" ≡ []
unfolding add_group_request remove_group_request load_group_requests load_requests save_requests
settled = refl

add_request_example :
    ((add_request db json requester "q" [] 5 ann_asks).1
      ≡ not (any (λ r. r.username == "ann") (load_requests db json requester "q" [] 5)))
    × (load_requests db json requester "q" (add_request db json requester "q" [] 5 ann_asks).0 9 ≡ (
        if any (λ r. r.username == "ann") (load_requests db json requester "q" [] 5)
        then load_requests db json requester "q" [] 9
        else load_requests db json requester "q" [] 5 ++ ann_asks ∷ []))
add_request_example =
    add_request_lem db json requester "q" (table-IsWorking Queue) [] 5 9 ann_asks (omega arith)

abbrev queued : db.State
queued =
    (add_request db json requester "q" (add_request db json requester "q" [] 5 ann_asks).0 6
      bob_asks).0

remove_request_example :
    ((remove_request db json requester "q" queued 7 "ann").1
      ≡ any (λ r. r.username == "ann") (load_requests db json requester "q" queued 7))
    × (load_requests db json requester "q" (remove_request db json requester "q" queued 7 "ann").0 9
        ≡ (if any (λ r. r.username == "ann") (load_requests db json requester "q" queued 7)
            then filter
                (λ r. not (r.username == "ann"))
                (load_requests db json requester "q" queued 7)
            else load_requests db json requester "q" queued 9))
remove_request_example =
    remove_request_lem db json requester "q" (table-IsWorking Queue) queued 7 9 "ann" (omega arith)

remove-add_example :
    (load_requests db json requester "q"
        (remove_request db json requester "q"
          (add_request db json requester "q" [] 5 ann_asks).0
          5
          "ann").0
        5
      ≡ load_requests db json requester "q" [] 5)
    × ((remove_request db json requester "q"
          (add_request db json requester "q" [] 5 ann_asks).0
          5
          "ann").1
        ≡ true)
unfolding load_requests
remove-add_example = remove-add db json requester "q" (table-IsWorking Queue) [] 5 ann_asks refl

empty-AllOneEach : AllOneEach db json []
unfolding load_group_requests
empty-AllOneEach g t = tt

run-AllOneEach_example : AllOneEach db json (
    run db json []
      ((5, ask "dev" "ann" "join") ∷ (6, ask "dev" "ann" "leave") ∷ (7, settle "dev" "ann") ∷ []))
run-AllOneEach_example =
    run-AllOneEach db json (table-IsWorking Queue) []
      ((5, ask "dev" "ann" "join") ∷ (6, ask "dev" "ann" "leave") ∷ (7, settle "dev" "ann") ∷ [])
      empty-AllOneEach

load-add_other_example :
    load_group_requests db json (add_group_request db json [] 5 "dev" "ann" "join").0 9 "ops"
    ≡ load_group_requests db json [] 9 "ops"
load-add_other_example =
    load-add_other db json (table-IsWorking Queue) [] 5 9 "dev" "ops" "ann" "join"
      (ground (arith, eq_iff "dev" "ops"))
