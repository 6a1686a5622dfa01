-- ===== src/Groups/Laws.antt =====
-- What a sponsor may do, and what nobody else may.
use mokey.Base.{
  Bool-cases, List, Option-cases, String, [], any, ap, append_assoc, arith, eq_iff, false,
  if◌then◌else◌, inl, inr, length, length-append, nat_eq, none, refl, some, string_eq, true, ℕ,
  ◌++◌, ◌+◌, ◌==◌, ◌↔◌, ◌∷◌, ◌≡◌, ◌≢◌, ◌⊎◌,
}
use mokey.Storage.{Storage, Codec}
use mokey.Directory.{User, UserMethods, status, audit, background, render, Effect}
use mokey.Directory.Names.{At, contains_iff, meets_iff}
use mokey.Requests.{GroupRequest, load_group_requests, group_request_join, group_request_leave}
use mokey.Groups.Handlers.{group_approve}
use mokey.Groups.{
  Group, GroupService, World, group_show, is_manager_of, GroupsPage, IpaFailure, groups_page,
  groups_vars, place,
}
use mokey.Groups.Handlers.{
  find_request, group_approve, group_decision, group_deny, group_remove_member_page, proceed,
  approved, mutate,
}

find_request-username :
    (target : String) (reqs : List GroupRequest) (req : GroupRequest)
    → find_request target reqs ≡ some req
    → req.username ≡ target
unfolding find_request
find_request-username target [] req h = cc
find_request-username target (r ∷ reqs) req h =
    ground (arith, eq_iff r.username target, find_request-username target reqs req)

-- Who counts as a sponsor: a managing user, or a member of a managing group.
is_manager_of-true :
    (username : String) (user_groups : List String) (g : Group)
    → is_manager_of username user_groups g ≡ true
    → At username g.manager_users ⊎ ((z : String) × At z g.manager_groups × At z user_groups)
unfolding is_manager_of
is_manager_of-true username user_groups g h =
    elim (Bool-cases (any (λ m. m == username) g.manager_users)) [
      | inl named ↦ inl ((contains_iff username g.manager_users).0 named)
      | inr unnamed ↦ inr ((meets_iff g.manager_groups user_groups).0 (ground (arith, h, unnamed)))
    ]

-- What an approval sets off: the line of the trail, the mail, and for a leave the check of consents.
abbrev pub approval_effects : Group → GroupRequest → List Effect
approval_effects g req =
    if req.kind == group_request_leave
    then audit "AUDIT group leave approved" req.username
      ∷ background "sendGroupDecision" req.username g.name
      ∷ background "revokeConsentsOf" req.username g.name
      ∷ []
    else audit "AUDIT group join approved" req.username
      ∷ background "sendGroupDecision" req.username g.name
      ∷ []

-- How many places the page gives.
abbrev pub places : GroupsPage → ℕ
places page = length page.joinable + length page.leavable + length page.my_requests

module _ {Bytes : Type 0} (db : Storage Bytes) (json : Codec Bytes (List GroupRequest))
    (ipa : GroupService) (methods : UserMethods) where
  -- A decision is made exactly when the group exists, the caller manages it, and the request is
  -- the first one queued for it under the target's name; the request is then the target's.
  pub group_decision_iff :
      (w : World db json ipa methods) (now : ℕ) (user : User) (group_name target : String)
      (g : Group) (req : GroupRequest)
      → (group_decision db json ipa methods w now user group_name target ≡ proceed g req) ↔ (
          (group_show db json ipa methods w.dir group_name ≡ some g)
          × (is_manager_of user.username user.groups g ≡ true)
          × (find_request target (load_group_requests db json w.store now g.name) ≡ some req)
          × (req.username ≡ target))
  unfolding group_decision
  group_decision_iff w now user group_name target g req = (
    λ h. elim (Option-cases (group_show db json ipa methods w.dir group_name)) [
      | inl gone ↦ absurd (ground arith)
      | inr (g', shown) ↦
          let queue = load_group_requests db json w.store now g'.name in
          elim (Option-cases (find_request target queue)) [
            | inl none_queued ↦ absurd (ground arith)
            | inr (req', queued) ↦
                let username = find_request-username target queue req' queued in
                (ground arith, ground arith, ground arith, ground arith)
          ]
    ],
    λ held. ground arith,
  )

  not_a_manager :
      (w : World db json ipa methods) (now : ℕ) (user : User) (group_name target : String)
      (g : Group)
      → group_show db json ipa methods w.dir group_name ≡ some g
      → is_manager_of user.username user.groups g ≡ false
      → (group_approve db json ipa methods w now user group_name target
          ≡ (w, status 403 "groups.not_a_manager"))
        × (group_deny db json ipa methods w now user group_name target
            ≡ (w, status 403 "groups.not_a_manager"))
        × (group_remove_member_page db json ipa methods w now user group_name target
            ≡ (w, status 403 "groups.not_a_manager"))
  unfolding group_approve group_deny group_remove_member_page group_decision
  not_a_manager w now user group_name target g shown outsider =
      (ground arith, ground arith, ground arith)

  -- Where a call to approve or deny a request, or to remove a member, changes anything, in FreeIPA,
  -- in the queues or in what is sent, the group exists and the caller is one of its managing users,
  -- or is in one of its managing groups.
  pub only_sponsors_change :
      (w : World db json ipa methods) (now : ℕ) (user : User) (group_name target : String)
      → ((group_approve db json ipa methods w now user group_name target).0 ≢ w)
        ⊎ ((group_deny db json ipa methods w now user group_name target).0 ≢ w)
        ⊎ ((group_remove_member_page db json ipa methods w now user group_name target).0 ≢ w)
      → (g : Group) × (group_show db json ipa methods w.dir group_name ≡ some g)
        × (At user.username g.manager_users
            ⊎ ((z : String) × At z g.manager_groups × At z user.groups))
  unfolding group_approve group_deny group_remove_member_page group_decision
  only_sponsors_change w now user group_name target altered =
      elim (Option-cases (group_show db json ipa methods w.dir group_name)) [
        | inl gone ↦ absurd (elim altered [
          | inl h ↦ h (rw (group_approve, group_decision, gone) refl)
          | inr (inl h) ↦ h (rw (group_deny, group_decision, gone) refl)
          | inr (inr h) ↦ h (rw (group_remove_member_page, gone) refl)
        ])
        | inr (g, shown) ↦ elim (Bool-cases (is_manager_of user.username user.groups g)) [
          | inl manages ↦ (g, shown, is_manager_of-true user.username user.groups g manages)
          | inr outsider ↦
              let (approve, deny, remove) =
                not_a_manager w now user group_name target g shown outsider in
              absurd (elim altered [
                | inl h ↦ h (ap (λ z. z.0) approve)
                | inr (inl h) ↦ h (ap (λ z. z.0) deny)
                | inr (inr h) ↦ h (ap (λ z. z.0) remove)
              ])
        ]
      ]

  -- The final page changes the queues at most.
  groups_page_keeps :
      (w : World db json ipa methods) (now : ℕ) (user : User)
      → ((groups_page db json ipa methods w now user).0.dir ≡ w.dir)
        × ((groups_page db json ipa methods w now user).0.effects ≡ w.effects)
        × ((groups_page db json ipa methods w now user).1 ≡ render "groups-list.html")
  unfolding groups_page groups_vars
  groups_page_keeps w now user = (ground arith, ground arith, ground arith)

  -- Where FreeIPA refuses an approved change, the sponsor is told so, the request stays queued,
  -- and nobody is notified.
  pub approve_refused :
      (w : World db json ipa methods) (now : ℕ) (user : User) (group_name target : String)
      (g : Group) (req : GroupRequest) (e : IpaFailure)
      → group_decision db json ipa methods w now user group_name target ≡ proceed g req
      → (mutate db json ipa methods w.dir user.username g req).0 ≡ some e
      → group_approve db json ipa methods w now user group_name target ≡ (
        record w { dir = (mutate db json ipa methods w.dir user.username g req).1 },
        status 403 "groups.approve_failed",
      )
  unfolding group_approve
  approve_refused w now user group_name target g req e decided refusal = ground arith

  approve-approved :
      (w : World db json ipa methods) (now : ℕ) (user : User) (group_name target : String)
      (g : Group) (req : GroupRequest)
      → group_decision db json ipa methods w now user group_name target ≡ proceed g req
      → (mutate db json ipa methods w.dir user.username g req).0 ≡ none
      → group_approve db json ipa methods w now user group_name target
        ≡ approved db json ipa methods
            (record w { dir = (mutate db json ipa methods w.dir user.username g req).1 })
            now
            user
            g
            req
  unfolding group_approve
  approve-approved w now user group_name target g req decided done = ground arith

  approved_lem :
      (w : World db json ipa methods) (now : ℕ) (user : User) (g : Group) (req : GroupRequest)
      → ((approved db json ipa methods w now user g req).0.dir ≡ w.dir)
        × ((approved db json ipa methods w now user g req).0.effects
            ≡ w.effects ++ approval_effects g req)
        × ((approved db json ipa methods w now user g req).1 ≡ render "groups-list.html")
  unfolding approved
  approved_lem w now user g req = elim (Bool-cases (req.kind == group_request_leave)) [
    | inl leaving ↦
        rw
          (
            leaving,
            (groups_page_keeps _ now user).0,
            (groups_page_keeps _ now user).1,
            (groups_page_keeps _ now user).2,
          )
          (refl, simp append_assoc, refl)
    | inr joining ↦
        rw
          (
            joining,
            (groups_page_keeps _ now user).0,
            (groups_page_keeps _ now user).1,
            (groups_page_keeps _ now user).2,
          )
          (refl, simp append_assoc, refl)
  ]

  -- Where it does the change, that change, under the sponsor's session, is the only one made to
  -- FreeIPA; the trail names the requester, the decision is mailed, and after a leave the
  -- requester's consents are looked at again.
  pub approve_done :
      (w : World db json ipa methods) (now : ℕ) (user : User) (group_name target : String)
      (g : Group) (req : GroupRequest)
      → group_decision db json ipa methods w now user group_name target ≡ proceed g req
      → (mutate db json ipa methods w.dir user.username g req).0 ≡ none
      → ((group_approve db json ipa methods w now user group_name target).0.dir
          ≡ (mutate db json ipa methods w.dir user.username g req).1)
        × ((group_approve db json ipa methods w now user group_name target).0.effects
            ≡ w.effects ++ approval_effects g req)
        × ((group_approve db json ipa methods w now user group_name target).1
            ≡ render "groups-list.html")
  approve_done w now user group_name target g req decided done =
      let w' : World db json ipa methods = record w {
        dir = (mutate db json ipa methods w.dir user.username g req).1;
      } in
      let (d, e, r) = approved_lem w' now user g req in
      rw (approve-approved w now user group_name target g req decided done) (d, e, r)

  pub place-places :
      (user : User) (g : Group) (reqs : List GroupRequest) (page : GroupsPage)
      → places (place db json ipa methods user g reqs page) ≡ places page + 1
  unfolding place
  place-places user g reqs page = ground (
    arith,
    length-append page.joinable (g ∷ []),
    length-append page.leavable (g ∷ []),
    length-append page.my_requests (record { group = g.name; kind = group_request_leave } ∷ []),
    length-append page.my_requests (record { group = g.name; kind = group_request_join } ∷ []),
  )
