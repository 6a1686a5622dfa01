-- ===== src/Requests/Invariant.antt =====
-- No user is queued twice for a group, whatever sequence of requests and decisions runs.
use mokey.Base.{
  Bool, Bool-cases, List, String, [], any, arith, eq_iff, false, filter, inl, inr, length, nat_eq,
  not, refl, string_eq, ℕ, ◌++◌, ◌==◌, ◌∷◌, ◌≡◌, ◌≢◌,
}
use mokey.Storage.{Storage, Codec, IsWorking, in_time}
use mokey.Requests.{
  GroupRequest, add_group_request, group_key, load_group_requests, load_requests,
  remove_group_request, requester, requests_ttl, save_requests,
}
use mokey.Requests.Laws.{load-save_other, group_key-injective}

abbrev pub OneEach : List GroupRequest → Type 0
OneEach [] = Unit
OneEach (x ∷ xs) = (any (λ r. r.username == x.username) xs ≡ false) × OneEach xs

any-filter-false :
    (p q : GroupRequest → Bool) (xs : List GroupRequest)
    → any q xs ≡ false
    → any q (filter p xs) ≡ false
any-filter-false p q [] h = refl
any-filter-false p q (x ∷ xs) h = ground (arith, any-filter-false p q xs)

OneEach-filter :
    (p : GroupRequest → Bool) (xs : List GroupRequest) → OneEach xs → OneEach (filter p xs)
OneEach-filter p [] h = tt
OneEach-filter p (x ∷ xs) (fresh, h) = elim (Bool-cases (p x)) [
  | inl keep ↦
      rw keep (any-filter-false p (λ r. r.username == x.username) xs fresh, OneEach-filter p xs h)
  | inr out ↦ rw out (OneEach-filter p xs h)
]

any-append_new :
    (u : String) (xs : List GroupRequest) (x : GroupRequest)
    → any (λ r. r.username == u) xs ≡ false
    → (x.username == u) ≡ false
    → any (λ r. r.username == u) (xs ++ x ∷ []) ≡ false
any-append_new u [] x h k = rw k
any-append_new u (y ∷ xs) x h k = ground (arith, any-append_new u xs x)

OneEach-append :
    (xs : List GroupRequest) (x : GroupRequest)
    → OneEach xs
    → any (λ r. r.username == x.username) xs ≡ false
    → OneEach (xs ++ x ∷ [])
OneEach-append [] x h k = (refl, tt)
OneEach-append (y ∷ xs) x (fresh, h) k = (
  any-append_new y.username xs x fresh
      (ground (arith, eq_iff y.username x.username, eq_iff x.username y.username)),
  OneEach-append xs x h (ground arith),
)

-- One operation on a group's queue.
pub data Operation : Type 0 where
  ask : String → String → String → Operation
  settle : String → String → Operation

module _ {Bytes : Type 0} (db : Storage Bytes) (json : Codec Bytes (List GroupRequest)) where
  unfoldable pub apply : db.State → ℕ → Operation → db.State
  apply s now (ask group username kind) = (add_group_request db json s now group username kind).0
  apply s now (settle group username) = (remove_group_request db json s now group username).0

  unfoldable pub run : db.State → List (ℕ × Operation) → db.State
  run s [] = s
  run s ((now, op) ∷ ops) = run (apply s now op) ops

  abbrev pub AllOneEach : db.State → Type 0
  AllOneEach s = (group : String) (t : ℕ) → OneEach (load_group_requests db json s t group)

module _ {Bytes : Type 0} (db : Storage Bytes) (json : Codec Bytes (List GroupRequest))
    (w : IsWorking db) where
  AllOneEach-save :
      (s : db.State) (t : ℕ) (group : String) (xs : List GroupRequest)
      → AllOneEach db json s
      → OneEach xs
      → AllOneEach db json (save_requests db json requester (group_key group) s t xs)
  unfolding save_requests load_group_requests
  AllOneEach-save s t group [] h k g t' = elim (Bool-cases (group_key group == group_key g)) [
    | inl same ↦ rw (w.get-delete s t t' (group_key group) (group_key g), same) tt
    | inr other ↦ rw (w.get-delete s t t' (group_key group) (group_key g), other) (h g t')
  ]
  AllOneEach-save s t group (x ∷ xs) h k g t' =
      let (raw, m, um) = json.roundtrip (x ∷ xs) in
      rw (m, w.get-set s t t' (group_key group) (group_key g) raw requests_ttl)
        (elim (Bool-cases (group_key group == group_key g)) [
          | inr other ↦ rw other (h g t')
          | inl same ↦ elim (Bool-cases (in_time requests_ttl t t')) [
            | inl soon ↦ rw (same, soon, um) k
            | inr late ↦ rw (same, late) tt
          ]
        ])

  apply-AllOneEach :
      (s : db.State) (now : ℕ) (op : Operation)
      → AllOneEach db json s
      → AllOneEach db json (apply db json s now op)
  unfolding apply add_group_request remove_group_request load_group_requests
  apply-AllOneEach s now (ask group u kind) h =
      let reqs = load_requests db json requester (group_key group) s now in
      elim (Bool-cases (any (λ r. r.username == u) reqs)) [
        | inl queued ↦ rw (queued, apply) h
        | inr fresh ↦
            rw (fresh, apply)
              (AllOneEach-save s now group _ h (OneEach-append reqs _ (h group now) fresh))
      ]
  apply-AllOneEach s now (settle group u) h =
      let reqs = load_requests db json requester (group_key group) s now in
      elim (Bool-cases (length (filter (λ r. not (r.username == u)) reqs) == length reqs)) [
        | inl same ↦ rw (same, apply) h
        | inr dropped ↦
            rw (dropped, apply)
              (AllOneEach-save s now group _ h (OneEach-filter _ reqs (h group now)))
      ]

  -- Whatever requests are made and settled, for whatever groups and at whatever times, on a storage
  -- that answers, no queue holds two requests of one user, if none did before.
  pub run-AllOneEach :
      (s : db.State) (ops : List (ℕ × Operation))
      → AllOneEach db json s
      → AllOneEach db json (run db json s ops)
  unfolding run
  run-AllOneEach s [] h = h
  run-AllOneEach s ((now, op) ∷ ops) h =
      run-AllOneEach (apply db json s now op) ops (apply-AllOneEach s now op h)

  -- A request for one group leaves the queue of every other group as it was.
  pub load-add_other :
      (s : db.State) (t t' : ℕ) (group other u kind : String)
      → group ≢ other
      → load_group_requests db json (add_group_request db json s t group u kind).0 t' other
        ≡ load_group_requests db json s t' other
  unfolding load_group_requests add_group_request
  load-add_other s t t' group other u kind ne =
      let apart : (group_key group == group_key other) ≡ false =
        elim (Bool-cases (group_key group == group_key other)) [
          | inl same ↦ absurd (ne (group_key-injective group other same))
          | inr differ ↦ differ
        ] in
      elim (Bool-cases
        (any (λ r. r.username == u) (load_requests db json requester (group_key group) s t))) [
          | inl queued ↦ rw queued refl
          | inr fresh ↦ rw fresh (
              load-save_other db json requester (group_key group) w s t t' (group_key other) _
                apart)
        ]
