-- ===== src/Requests/Laws.antt =====
-- What a request queue does, for the backends that answer.
use mokey.Base.{
  Bool-cases, List, String, [], any, arith, eq_iff, eq_refl, false, filter, if◌then◌else◌, inl, inr,
  length, length-filter, lt→ltb, nat_eq, not, refl, string_eq, true, ℕ, ◌++◌, ◌+◌, ◌<◌, ◌==◌, ◌∙◌,
  ◌∷◌, ◌≡◌,
}
use text.Mathlib.TextLemmas.{append_cancel_left}
use mokey.Storage.{Storage, Codec, IsWorking}
use mokey.Requests.{
  requests_ttl, add_request, group_key, group_requests_prefix, load_requests, remove_request,
  save_requests,
}

module _ {Bytes A : Type 0} (db : Storage Bytes) (json : Codec Bytes (List A)) (name : A → String)
    (key : String) (w : IsWorking db) where
  abbrev load_now : db.State → ℕ → List A
  load_now = load_requests db json name key

  load-save :
      (s : db.State) (t t' : ℕ) (xs : List A)
      → t' < t + requests_ttl
      → load_requests db json name key (save_requests db json name key s t xs) t' ≡ xs
  unfolding load_requests save_requests
  load-save s t t' [] h = rw (w.get-delete s t t' key key, eq_refl key)
  load-save s t t' (x ∷ xs) h =
      let (raw, m, um) = json.roundtrip (x ∷ xs) in
      rw (
        m,
        w.get-set s t t' key key raw requests_ttl,
        eq_refl key,
        lt→ltb t' (t + requests_ttl) h,
        um,
      )

  pub load-save_other :
      (s : db.State) (t t' : ℕ) (j : String) (xs : List A)
      → (key == j) ≡ false
      → load_requests db json name j (save_requests db json name key s t xs) t'
        ≡ load_requests db json name j s t'
  unfolding load_requests save_requests
  load-save_other s t t' j [] h = rw (w.get-delete s t t' key j, h)
  load-save_other s t t' j (x ∷ xs) h =
      let (raw, m, um) = json.roundtrip (x ∷ xs) in
      rw (m, w.get-set s t t' key j raw requests_ttl, h)

  any-append_self : (xs : List A) (x : A) → any (λ r. name r == name x) (xs ++ x ∷ []) ≡ true
  any-append_self [] x = rw (eq_refl (name x))
  any-append_self (y ∷ xs) x = ground (arith, any-append_self xs x)

  filter-none :
      (xs : List A) (u : String)
      → any (λ r. name r == u) xs ≡ false
      → filter (λ r. not (name r == u)) xs ≡ xs
  filter-none [] u h = refl
  filter-none (x ∷ xs) u h = ground (arith, filter-none xs u)

  filter-shorter :
      (xs : List A) (u : String)
      → any (λ r. name r == u) xs ≡ true
      → length (filter (λ r. not (name r == u)) xs) < length xs
  filter-shorter [] u h = cc
  filter-shorter (x ∷ xs) u h =
      ground (arith, filter-shorter xs u, length-filter (λ r. not (name r == u)) xs)

  -- Adding a request answers whether the user was not queued; then, and only then, the request
  -- stands at the end of the queue.
  pub add_request_lem :
      (s : db.State) (t t' : ℕ) (x : A)
      → t' < t + requests_ttl
      → ((add_request db json name key s t x).1
          ≡ not (any (λ r. name r == name x) (load_requests db json name key s t)))
        × (load_requests db json name key (add_request db json name key s t x).0 t' ≡ (
            if any (λ r. name r == name x) (load_requests db json name key s t)
            then load_requests db json name key s t'
            else load_requests db json name key s t ++ x ∷ []))
  unfolding add_request
  add_request_lem s t t' x soon =
      elim (Bool-cases (any (λ r. name r == name x) (load_requests db json name key s t))) [
        | inl queued ↦ rw queued (refl, refl)
        | inr fresh ↦ rw fresh (refl, load-save s t t' _ soon)
      ]

  -- Removing answers whether the user was queued, and leaves the requests of the other users, in
  -- their order.
  pub remove_request_lem :
      (s : db.State) (t t' : ℕ) (u : String)
      → t' < t + requests_ttl
      → ((remove_request db json name key s t u).1
          ≡ any (λ r. name r == u) (load_requests db json name key s t))
        × (load_requests db json name key (remove_request db json name key s t u).0 t' ≡ (
            if any (λ r. name r == u) (load_requests db json name key s t)
            then filter (λ r. not (name r == u)) (load_requests db json name key s t)
            else load_requests db json name key s t'))
  unfolding remove_request
  remove_request_lem s t t' u soon =
      let reqs = load_requests db json name key s t in
      elim (Bool-cases (any (λ r. name r == u) reqs)) [
        | inl queued ↦
            let shorter : (length (filter (λ r. not (name r == u)) reqs) == length reqs) ≡ false =
              ground (arith, filter-shorter reqs u queued) in
            rw (shorter, queued) (refl, load-save s t t' _ soon)
        | inr absent ↦
            let same : (length (filter (λ r. not (name r == u)) reqs) == length reqs) ≡ true =
              rw (filter-none reqs u absent) (ground arith) in
            rw (same, absent) (refl, refl)
      ]

  filter-append_self :
      (xs : List A) (x : A)
      → any (λ r. name r == name x) xs ≡ false
      → filter (λ r. not (name r == name x)) (xs ++ x ∷ []) ≡ xs
  filter-append_self [] x h = rw (eq_refl (name x))
  filter-append_self (y ∷ xs) x h = ground (arith, filter-append_self xs x)

  -- A request that is added and removed again leaves the queue as it was.
  pub remove-add :
      (s : db.State) (t : ℕ) (x : A)
      → any (λ r. name r == name x) (load_requests db json name key s t) ≡ false
      → (load_requests db json name key
            (remove_request db json name key (add_request db json name key s t x).0 t (name x)).0
            t
          ≡ load_requests db json name key s t)
        × ((remove_request db json name key (add_request db json name key s t x).0 t (name x)).1
            ≡ true)
  remove-add s t x fresh =
      let s' = (add_request db json name key s t x).0 in
      let after : load_requests db json name key s' t
          ≡ load_requests db json name key s t ++ x ∷ [] =
        (add_request_lem s t t x (omega arith)).1 ∙ rw fresh refl in
      let queued : any (λ r. name r == name x) (load_requests db json name key s' t) ≡ true =
        rw after (any-append_self _ x) in
      let (answer, left) = remove_request_lem s' t t (name x) (omega arith) in
      (left ∙ rw queued (rw after (filter-append_self _ x fresh)), answer ∙ queued)

-- Keys of two groups are equal only if the groups are.
pub group_key-injective : (g h : String) → (group_key g == group_key h) ≡ true → g ≡ h
group_key-injective g h e = append_cancel_left group_requests_prefix g h ((eq_iff _ _).0 e)
