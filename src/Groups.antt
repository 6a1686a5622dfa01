-- ===== src/Groups.antt =====
-- server/groups.go and server/ipa_group.go: the groups page, of groups that
-- users join and leave through their sponsors; the handlers are in Groups/Handlers.antt.
-- Groups are FreeIPA's; the pending requests are the queues of Requests.antt. `user` is the user
-- of the session.
pub mod Handlers
mod Laws
mod Page
mod Tests
use mokey.Base.{
  Bool, List, Option, String, [], any, false, filter, if◌then◌else◌, length, ltb, nat_eq, none, not,
  some, string_eq, true, ℕ, ◌++◌, ◌==◌, ◌||◌, ◌∷◌,
}
use mokey.Storage.{Storage, Codec}
use mokey.Directory.{meets, User, Effect, Response, UserMethods, render}
use mokey.Requests.{
  GroupRequest, group_request_join, group_request_leave, load_group_requests, remove_group_request,
}

pub record Group : Type 0 where
  pub name : String
  pub description : String
  pub members : List String
  pub manager_users : List String
  pub manager_groups : List String

unfoldable pub managed : Group → Bool
managed g = ltb 0 (length g.manager_users) || ltb 0 (length g.manager_groups)

-- An error of goipa: refusals of single members, or anything else.
pub data IpaFailure : Type 0 where
  refused : List String → IpaFailure
  other : String → IpaFailure

-- The calls of goipa. A call that changes membership runs under the session of a user.
pub record GroupService : Type 1 where
  pub State : Type 0
  pub group_find : State → Option (List Group)
  pub group_show_raw : State → String → Option Group
  pub add_member : State → String → String → String → Option IpaFailure × State
  pub remove_member : State → String → String → String → Option IpaFailure × State

-- Being in the wanted state already is not a failure.
unfoldable pub first_other : String → List String → Option String
first_other already_done [] = none
first_other already_done (f ∷ fs) =
    if f == already_done then first_other already_done fs else some f

unfoldable pub member_refusal : Option IpaFailure → String → Option IpaFailure
unfolding first_other
member_refusal none already_done = none
member_refusal (some (other message)) already_done = some (other message)
member_refusal (some (refused fs)) already_done = elim (first_other already_done fs) [
  | none ↦ none
  | some message ↦ some (other message)
]

unfoldable pub is_manager_of : String → List String → Group → Bool
unfolding meets
is_manager_of username user_groups g =
    any (λ m. m == username) g.manager_users || meets g.manager_groups user_groups

-- A join request of a member and a leave request of a non-member are stale.
unfoldable pub stale : Group → GroupRequest → Bool
stale g req =
    let queued_is_member = any (λ m. m == req.username) g.members in
    if req.kind == group_request_leave then not queued_is_member else queued_is_member

-- The type of the last live request of the user; "" for none.
unfoldable pub pending_of : String → String → List GroupRequest → String
pending_of username mine [] = mine
pending_of username mine (req ∷ reqs) =
    pending_of username (if req.username == username then req.kind else mine) reqs

pub record MyGroupRequest : Type 0 where
  pub group : String
  pub kind : String

pub record ManagedGroup : Type 0 where
  pub group : Group
  pub requests : List GroupRequest

pub record GroupsPage : Type 0 where
  pub my_groups : List String
  pub joinable : List Group
  pub leavable : List Group
  pub my_requests : List MyGroupRequest
  pub managed_groups : List ManagedGroup
  pub groups_error : Bool

abbrev pub empty_page : User → Bool → GroupsPage
empty_page user no_groups = record {
  my_groups = user.groups;
  joinable = [];
  leavable = [];
  my_requests = [];
  managed_groups = [];
  groups_error = no_groups;
}

module _ {Bytes : Type 0} (db : Storage Bytes) (json : Codec Bytes (List GroupRequest))
    (ipa : GroupService) (methods : UserMethods) where
  pub record World : Type 0 where
    pub store : db.State
    pub dir : ipa.State
    pub effects : List Effect

  abbrev pub emit : World → Effect → World
  emit w e = record w { effects = w.effects ++ e ∷ [] }

  -- groupFindManaged
  unfoldable pub group_find_managed : ipa.State → Option (List Group)
  group_find_managed s = elim (ipa.group_find s) [
    | none ↦ none
    | some all_groups ↦ some (filter managed all_groups)
  ]

  unfoldable pub group_show : ipa.State → String → Option Group
  group_show s cn = ipa.group_show_raw s cn

  unfoldable pub group_add_member :
      ipa.State → String → String → String → Option IpaFailure × ipa.State
  unfolding member_refusal
  group_add_member s sponsor cn uid =
      let (e, s') = ipa.add_member s sponsor cn uid in
      (member_refusal e "This entry is already a member", s')

  unfoldable pub group_remove_member :
      ipa.State → String → String → String → Option IpaFailure × ipa.State
  unfolding member_refusal
  group_remove_member s sponsor cn uid =
      let (e, s') = ipa.remove_member s sponsor cn uid in
      (member_refusal e "This entry is not a member", s')

  -- The loop over one group's queue: stale requests are removed from the storage.
  unfoldable pub live_requests :
      db.State → ℕ → Group → List GroupRequest → db.State × List GroupRequest
  unfolding stale
  live_requests s now g [] = (s, [])
  live_requests s now g (req ∷ reqs) =
      let (dropped, kept) =
        live_requests
          (if stale g req then (remove_group_request db json s now g.name req.username).0 else s)
          now g reqs in
      (dropped, (if stale g req then kept else req ∷ kept))

  -- One group's place on the page.
  unfoldable pub place : User → Group → List GroupRequest → GroupsPage → GroupsPage
  unfolding is_manager_of pending_of
  place user g reqs page =
      let mine = pending_of user.username "" reqs in
      let page' =
        (if is_manager_of user.username user.groups g
          then record page {
            managed_groups = page.managed_groups ++ record { group = g; requests = reqs } ∷ [];
          }
          else page) in
      if methods.has_group user g.name
      then (if mine == group_request_leave
          then record page' {
            my_requests =
                page'.my_requests ++ record { group = g.name; kind = group_request_leave } ∷ [];
          }
          else record page' { leavable = page'.leavable ++ g ∷ [] })
      else (if mine == group_request_join
          then record page' {
            my_requests =
                page'.my_requests ++ record { group = g.name; kind = group_request_join } ∷ [];
          }
          else record page' { joinable = page'.joinable ++ g ∷ [] })

  unfoldable pub groups_loop : db.State → ℕ → User → List Group → GroupsPage → db.State × GroupsPage
  groups_loop s now user [] page = (s, page)
  groups_loop s now user (g ∷ gs) page =
      let (s', reqs) = live_requests s now g (load_group_requests db json s now g.name) in
      groups_loop s' now user gs (place user g reqs page)

  unfoldable pub groups_vars : World → ℕ → User → World × GroupsPage
  groups_vars w now user = elim (group_find_managed w.dir) [
    | none ↦ (w, empty_page user true)
    | some groups ↦
        let (s', page) = groups_loop w.store now user groups (empty_page user false) in
        (record w { store = s' }, page)
  ]

  -- The page that the group handlers end with.
  unfoldable pub groups_page : World → ℕ → User → World × Response
  groups_page w now user = ((groups_vars w now user).0, render "groups-list.html")
