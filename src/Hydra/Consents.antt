-- ===== src/Hydra/Consents.antt =====
-- The consents that are revoked: those of the clients that no longer admit the user.
use mokey.Base.{
  Bool, Bool-cases, List, String, [], arith, false, filter, if◌then◌else◌, inl, inr, length, nat_eq,
  not, refl, some, string_eq, suc, true, zero, ℕ, ◌+◌, ◌==◌, ◌||◌, ◌∷◌, ◌≡◌, ◌≤◌,
}
use mokey.Directory.{User}
use mokey.Hydra.{
  HydraService, HydraConfig, ConsentSession, client_allowed, revoke_loop, add_clients,
  consent_client_ids,
}

module _ (equal_fold : String → String → Bool) (oauth : HydraService) (cfg : HydraConfig) where
  -- Revoking each client of a list in order, whatever the answers, and how many were revoked.
  abbrev pub revoke_each : oauth.State → User → List String → ℕ → oauth.State × ℕ
  revoke_each s user [] n = (s, n)
  revoke_each s user (id ∷ ids) n =
      let (done, s') = oauth.revoke_consents s user.username id in
      revoke_each s' user ids (if done then n + 1 else n)

  -- The loop makes exactly the calls that revoke the clients which do not admit the user, each once
  -- and in order, goes on after one that fails, and counts those that succeed.
  pub revoke_loop_lem :
      (s : oauth.State) (user : User) (ids : List String) (n : ℕ)
      → revoke_loop equal_fold oauth cfg s user ids n
        ≡ revoke_each s user (filter (λ id. not (client_allowed equal_fold cfg id user)) ids) n
  unfolding revoke_loop
  revoke_loop_lem s user [] n = refl
  revoke_loop_lem s user (id ∷ ids) n = elim (Bool-cases (client_allowed equal_fold cfg id user)) [
    | inl admitted ↦ rw (admitted, revoke_loop) (revoke_loop_lem s user ids n)
    | inr out ↦ elim (Bool-cases (oauth.revoke_consents s user.username id).0) [
      | inl done ↦
          rw (out, revoke_loop, done)
            (revoke_loop_lem (oauth.revoke_consents s user.username id).1 user ids (n + 1))
      | inr undone ↦
          rw (out, revoke_loop, undone)
            (revoke_loop_lem (oauth.revoke_consents s user.username id).1 user ids n)
    ]
  ]

  -- The pages that hydra lists from a token on, up to one without a next page.
  pub data Pages (s : oauth.State) (username : String)
      : String → List (List ConsentSession) → Type 0 where
    last :
        (token next : String) (sessions : List ConsentSession)
        → oauth.list_consents s username token ≡ some (sessions, next)
        → (next == "" || next == token) ≡ true
        → Pages s username token (sessions ∷ [])
    more :
        (token next : String) (sessions : List ConsentSession) (pages : List (List ConsentSession))
        → oauth.list_consents s username token ≡ some (sessions, next)
        → (next == "" || next == token) ≡ false
        → Pages s username next pages
        → Pages s username token (sessions ∷ pages)

  abbrev pub add_pages : List String → List (List ConsentSession) → List String
  add_pages ids [] = ids
  add_pages ids (sessions ∷ pages) = add_pages (add_clients ids sessions) pages

  -- Where hydra's pages come to an end, fuel for their number lists the clients of all of them.
  pub consent_client_ids_lem :
      (s : oauth.State) (username token : String) (pages : List (List ConsentSession)) (fuel : ℕ)
      (ids : List String)
      → Pages s username token pages
      → length pages ≤ fuel
      → consent_client_ids equal_fold oauth cfg fuel s username ids token
        ≡ some (add_pages ids pages)
  unfolding consent_client_ids
  consent_client_ids_lem s username token pages zero ids (last tok next sessions got end) enough =
      absurd (omega (arith, enough))
  consent_client_ids_lem s username token pages zero ids
        (more tok next sessions rest got onward others) enough =
      absurd (omega (arith, enough))
  consent_client_ids_lem s username token pages (suc fuel) ids (last tok next sessions got end)
        enough =
      ground arith
  consent_client_ids_lem s username token pages (suc fuel) ids
        (more tok next sessions rest got onward others) enough =
      ground (
        arith,
        consent_client_ids_lem s username next rest fuel (add_clients ids sessions) others
            (omega (arith, enough)),
      )
