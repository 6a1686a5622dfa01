-- ===== src/Groups/Handlers.antt =====
-- server/groups.go: the handlers of requests to join and leave, and of their decision.
use mokey.Base.{
  List, Option, String, [], if◌then◌else◌, nat_eq, none, not, some, string_eq, ℕ, ◌==◌, ◌∷◌,
}
use mokey.Storage.{Storage, Codec}
use mokey.Directory.{User, Response, UserMethods, audit, background, status}
use mokey.Requests.{
  GroupRequest, add_group_request, group_request_join, group_request_leave, load_group_requests,
  remove_group_request,
}
use mokey.Groups.{
  Group, World, GroupService, IpaFailure, emit, group_add_member, group_remove_member, group_show,
  groups_page, is_manager_of, managed,
}

unfoldable pub find_request : String → List GroupRequest → Option GroupRequest
find_request target [] = none
find_request target (req ∷ reqs) =
    if req.username == target then some req else find_request target reqs

pub data Decision : Type 0 where
  decline : Response → Decision
  proceed : Group → GroupRequest → Decision

module _ {Bytes : Type 0} (db : Storage Bytes) (json : Codec Bytes (List GroupRequest))
    (ipa : GroupService) (methods : UserMethods) where
  -- requestJoin: an error, or the request is queued, if it was not.
  unfoldable pub request_join :
      World db json ipa methods → ℕ → User → String → World db json ipa methods × Option Response
  request_join w now user group_name = elim (group_show db json ipa methods w.dir group_name) [
    | none ↦ (w, some (status 400 "groups.not_joinable"))
    | some g ↦
        let (s', queued) =
          add_group_request db json w.store now g.name user.username group_request_join in
        let w' =
          emit db json ipa methods
            (emit db json ipa methods (record w { store = s' })
              (audit "AUDIT group join requested" user.username))
            (background "notifyGroupSponsors" g.name user.username) in
        if not (managed g)
        then (w, some (status 400 "groups.not_joinable"))
        else if methods.has_group user g.name
        then (w, some (status 400 "groups.already_member"))
        else ((if queued then w' else record w { store = s' }), none)
  ]

  unfoldable pub group_request_join_page :
      World db json ipa methods → ℕ → User → String → World db json ipa methods × Response
  group_request_join_page w now user group_name =
      let (w', e) = request_join w now user group_name in
      elim e [ some r ↦ (w', r) | none ↦ groups_page db json ipa methods w' now user ]

  unfoldable pub group_request_leave_page :
      World db json ipa methods → ℕ → User → String → World db json ipa methods × Response
  group_request_leave_page w now user group_name =
      elim (group_show db json ipa methods w.dir group_name) [
        | none ↦ (w, status 400 "groups.not_joinable")
        | some g ↦
            let (s', queued) =
              add_group_request db json w.store now g.name user.username group_request_leave in
            let w' =
              emit db json ipa methods
                (emit db json ipa methods (record w { store = s' })
                  (audit "AUDIT group leave requested" user.username))
                (background "notifyGroupSponsors" g.name user.username) in
            if not (managed g)
            then (w, status 400 "groups.not_joinable")
            else if not (methods.has_group user g.name)
            then (w, status 400 "groups.not_a_member")
            else groups_page db json ipa methods (if queued then w' else record w { store = s' })
                now user
      ]

  -- groupDecision: the caller sponsors the group and the target is queued.
  unfoldable pub group_decision : World db json ipa methods → ℕ → User → String → String → Decision
  unfolding find_request
  group_decision w now user group_name target =
      elim (group_show db json ipa methods w.dir group_name) [
        | none ↦ decline (status 400 "groups.not_joinable")
        | some g ↦
            if not (is_manager_of user.username user.groups g)
            then decline (status 403 "groups.not_a_manager")
            else elim (find_request target (load_group_requests db json w.store now g.name)) [
              | none ↦ decline (status 400 "groups.no_such_request")
              | some req ↦ proceed g req
            ]
      ]

  -- The membership change that an approved request asks for, under the sponsor's session.
  unfoldable pub mutate : ipa.State → String → Group → GroupRequest → Option IpaFailure × ipa.State
  mutate s sponsor g req =
      if req.kind == group_request_leave
      then group_remove_member db json ipa methods s sponsor g.name req.username
      else group_add_member db json ipa methods s sponsor g.name req.username

  -- After the change: the request leaves the queue, and the requester is told.
  unfoldable pub approved :
      World db json ipa methods
      → ℕ
      → User
      → Group
      → GroupRequest
      → World db json ipa methods × Response
  approved w now user g req =
      let leaving = req.kind == group_request_leave in
      let w1 = record w {
        store = (remove_group_request db json w.store now g.name req.username).0;
      } in
      let w2 =
        emit db json ipa methods
          (emit db json ipa methods w1 (
            audit (if leaving then "AUDIT group leave approved" else "AUDIT group join approved")
              req.username))
          (background "sendGroupDecision" req.username g.name) in
      groups_page db json ipa methods
        (if leaving
          then emit db json ipa methods w2 (background "revokeConsentsOf" req.username g.name)
          else w2)
        now user

  unfoldable pub group_approve :
      World db json ipa methods → ℕ → User → String → String → World db json ipa methods × Response
  group_approve w now user group_name target = elim (group_decision w now user group_name target) [
    | decline r ↦ (w, r)
    | proceed g req ↦
        let (failure, dir') = mutate w.dir user.username g req in
        let w' = record w { dir = dir' } in
        elim failure [
          | some e ↦ (w', status 403 "groups.approve_failed")
          | none ↦ approved w' now user g req
        ]
  ]

  unfoldable pub group_deny :
      World db json ipa methods → ℕ → User → String → String → World db json ipa methods × Response
  group_deny w now user group_name target = elim (group_decision w now user group_name target) [
    | decline r ↦ (w, r)
    | proceed g req ↦
        let leaving = req.kind == group_request_leave in
        let w1 = record w {
          store = (remove_group_request db json w.store now g.name req.username).0;
        } in
        groups_page db json ipa methods
          (emit db json ipa methods
            (emit db json ipa methods w1 (
              audit (if leaving then "AUDIT group leave denied" else "AUDIT group join denied")
                req.username))
            (background "sendGroupDecision" req.username g.name))
          now user
  ]

  -- GroupRemoveMember: the sponsor removes a member outright.
  unfoldable pub group_remove_member_page :
      World db json ipa methods → ℕ → User → String → String → World db json ipa methods × Response
  group_remove_member_page w now user group_name target =
      elim (group_show db json ipa methods w.dir group_name) [
        | none ↦ (w, status 400 "groups.not_joinable")
        | some g ↦
            let (failure, dir') =
              group_remove_member db json ipa methods w.dir user.username g.name target in
            let w1 = record w {
              dir = dir';
              store = (remove_group_request db json w.store now g.name target).0;
            } in
            let w2 =
              emit db json ipa methods
                (emit db json ipa methods
                  (emit db json ipa methods w1 (audit "AUDIT group member removed" target))
                  (background "notifyGroupRemoved" target g.name))
                (background "revokeConsentsOf" target g.name) in
            if not (is_manager_of user.username user.groups g)
            then (w, status 403 "groups.not_a_manager")
            else elim failure [
              | some e ↦ (record w { dir = dir' }, status 403 "groups.remove_failed")
              | none ↦ groups_page db json ipa methods w2 now user
            ]
      ]
