-- ===== src/Groups/Page.antt =====
-- The groups page: every managed group gets one place, and stale requests leave the queue.
use mokey.Base.{
  Bool, Bool-cases, List, String, [], any, ap, append_assoc, arith, eq_iff, eq_refl, false, filter,
  filter-append, inl, inr, length, nat_eq, not, refl, some, string_eq, sym, true, ℕ, ◌++◌, ◌+◌,
  ◌==◌, ◌||◌, ◌∙◌, ◌∷◌, ◌≡◌,
}
use mokey.Storage.{Storage, Codec, IsWorking}
use mokey.Directory.{User, UserMethods}
use mokey.Requests.{GroupRequest, group_key, load_group_requests, remove_group_request, requester}
use mokey.Requests.Laws.{remove_request_lem}
use mokey.Requests.Invariant.{OneEach}
use mokey.Groups.{
  empty_page, Group, GroupService, GroupsPage, World, group_find_managed, groups_loop, groups_vars,
  live_requests, place, stale,
}
use mokey.Groups.Laws.{places, place-places}

any-middle :
    (u : String) (pre : List GroupRequest) (x : GroupRequest) (ys : List GroupRequest)
    → any (λ r. r.username == u) (pre ++ x ∷ ys) ≡ false
    → (any (λ r. r.username == u) (pre ++ ys) ≡ false) × ((x.username == u) ≡ false)
any-middle u [] x ys h = ground arith
any-middle u (p ∷ pre) x ys h = ground (arith, any-middle u pre x ys)

any-append :
    (u : String) (pre ys : List GroupRequest)
    → any (λ r. r.username == u) (pre ++ ys)
      ≡ any (λ r. r.username == u) pre || any (λ r. r.username == u) ys
any-append u [] ys = refl
any-append u (p ∷ pre) ys = ground (arith, any-append u pre ys)

-- In a queue with one request each, the others are of other users.
OneEach-middle :
    (pre : List GroupRequest) (x : GroupRequest) (ys : List GroupRequest)
    → OneEach (pre ++ x ∷ ys)
    → (any (λ r. r.username == x.username) (pre ++ ys) ≡ false) × OneEach (pre ++ ys)
OneEach-middle [] x ys (fresh, h) = (fresh, h)
OneEach-middle (p ∷ pre) x ys (fresh, h) =
    let (apart, rest) = OneEach-middle pre x ys h in
    let (fresh', ne) = any-middle p.username pre x ys fresh in
    let each : OneEach (p ∷ (pre ++ ys)) = (fresh', rest) in
    (ground (arith, eq_iff p.username x.username, eq_iff x.username p.username), each)

filter-apart :
    (u : String) (xs : List GroupRequest)
    → any (λ r. r.username == u) xs ≡ false
    → filter (λ r. not (r.username == u)) xs ≡ xs
filter-apart u [] h = refl
filter-apart u (x ∷ xs) h = ground (arith, filter-apart u xs)

filter-middle :
    (pre : List GroupRequest) (x : GroupRequest) (ys : List GroupRequest)
    → any (λ r. r.username == x.username) (pre ++ ys) ≡ false
    → filter (λ r. not (r.username == x.username)) (pre ++ x ∷ ys) ≡ pre ++ ys
filter-middle pre x ys h =
    let q : GroupRequest → Bool = λ r. not (r.username == x.username) in
    filter-append q pre (x ∷ ys)
    ∙ ap (λ l. filter q pre ++ l) (rw (eq_refl x.username) refl)
    ∙ sym (filter-append q pre ys)
    ∙ filter-apart x.username (pre ++ ys) h

any_self :
    (pre : List GroupRequest) (x : GroupRequest) (ys : List GroupRequest)
    → any (λ r. r.username == x.username) (pre ++ x ∷ ys) ≡ true
any_self [] x ys = rw (eq_refl x.username)
any_self (p ∷ pre) x ys = ground (arith, any_self pre x ys)

module _ {Bytes : Type 0} (db : Storage Bytes) (json : Codec Bytes (List GroupRequest))
    (ipa : GroupService) (methods : UserMethods) where
  loop-places :
      (s : db.State) (now : ℕ) (user : User) (gs : List Group) (page : GroupsPage)
      → places (groups_loop db json ipa methods s now user gs page).1 ≡ places page + length gs
  unfolding groups_loop
  loop-places s now user [] page = omega arith
  loop-places s now user (g ∷ gs) page =
      let (s', reqs) =
        live_requests db json ipa methods s now g (load_group_requests db json s now g.name) in
      loop-places s' now user gs (place db json ipa methods user g reqs page)
      ∙ omega (arith, place-places db json ipa methods user g reqs page)

  -- Every managed group stands in exactly one place of the page: among those to join, those to
  -- leave, or the user's own requests.
  pub every_group_placed :
      (w : World db json ipa methods) (now : ℕ) (user : User) (gs : List Group)
      → group_find_managed db json ipa methods w.dir ≡ some gs
      → places (groups_vars db json ipa methods w now user).1 ≡ length gs
  unfolding groups_vars
  every_group_placed w now user gs listed =
      rw (listed, groups_vars)
        (loop-places w.store now user gs (empty_page user false) ∙ omega arith)

  removed :
      (wk : IsWorking db) (s : db.State) (t : ℕ) (g : Group) (pre : List GroupRequest)
      (x : GroupRequest) (ys : List GroupRequest)
      → load_group_requests db json s t g.name ≡ pre ++ x ∷ ys
      → any (λ r. r.username == x.username) (pre ++ ys) ≡ false
      → load_group_requests db json (remove_group_request db json s t g.name x.username).0 t g.name
        ≡ pre ++ ys
  unfolding load_group_requests remove_group_request
  removed wk s t g pre x ys at_first apart =
      (remove_request_lem db json requester (group_key g.name) wk s t t x.username (omega arith)).1
      ∙ rw (at_first, any_self pre x ys) (filter-middle pre x ys apart)

  -- The loop keeps the live requests, and drops the stale ones from the storage.
  live_requests_lem :
      (wk : IsWorking db) (s : db.State) (t : ℕ) (g : Group) (pre reqs : List GroupRequest)
      → load_group_requests db json s t g.name ≡ pre ++ reqs
      → OneEach (pre ++ reqs)
      → ((live_requests db json ipa methods s t g reqs).1 ≡ filter (λ r. not (stale g r)) reqs)
        × (load_group_requests db json (live_requests db json ipa methods s t g reqs).0 t g.name
            ≡ pre ++ filter (λ r. not (stale g r)) reqs)
  unfolding live_requests
  live_requests_lem wk s t g pre [] at_first each = (refl, at_first)
  live_requests_lem wk s t g pre (x ∷ reqs) at_first each = elim (Bool-cases (stale g x)) [
    | inl out ↦
        let (apart, rest) = OneEach-middle pre x reqs each in
        rw out (
          live_requests_lem wk (remove_group_request db json s t g.name x.username).0 t g pre reqs
            (removed wk s t g pre x reqs at_first apart) rest)
    | inr live ↦
        let again = append_assoc pre (x ∷ []) reqs in
        let (kept, left) =
          live_requests_lem wk s t g (pre ++ x ∷ []) reqs (at_first ∙ sym again) (rw again each) in
        rw live (ap (λ l. x ∷ l) kept, left ∙ append_assoc pre (x ∷ []) _)
  ]

  -- Where no user is queued twice, showing a group leaves exactly its live requests in its queue,
  -- and shows those.
  pub stale_dropped :
      (wk : IsWorking db) (s : db.State) (t : ℕ) (g : Group)
      → OneEach (load_group_requests db json s t g.name)
      → ((live_requests db json ipa methods s t g (load_group_requests db json s t g.name)).1
          ≡ filter (λ r. not (stale g r)) (load_group_requests db json s t g.name))
        × (load_group_requests db json
              (live_requests db json ipa methods s t g (load_group_requests db json s t g.name)).0
              t
              g.name
            ≡ filter (λ r. not (stale g r)) (load_group_requests db json s t g.name))
  stale_dropped wk s t g each = live_requests_lem wk s t g [] _ refl each
