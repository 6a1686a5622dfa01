-- ===== src/Hydra/Clients.antt =====
-- Which OAuth clients the configuration opens to a user.
use mokey.Base.{
  Bool, List, String, [], any, arith, eq_iff, false, inl, inr, nat_eq, none, not, refl, some,
  string_eq, true, ◌++◌, ◌==◌, ◌||◌, ◌∷◌, ◌≡◌, ◌⊎◌,
}
use mokey.Directory.{User, member_of}
use mokey.Hydra.{
  HydraConfig, HydraClientPolicy, client_allowed, admits, client_groups_enforced, first_policy,
}

-- No entry lacks its client, and none is for this one.
abbrev pub silent_on : String → List HydraClientPolicy → Bool
silent_on client_id ps = not (any (λ p. p.client_id == "" || p.client_id == client_id) ps)

module _ (equal_fold : String → String → Bool) where
  first_policy-silent :
      (ps : List HydraClientPolicy) (default_deny : Bool) (client_id : String) (user : User)
      → silent_on client_id ps ≡ true
      → first_policy equal_fold ps default_deny client_id user ≡ not default_deny
  unfolding first_policy
  first_policy-silent [] default_deny client_id user h = refl
  first_policy-silent (p ∷ ps) default_deny client_id user h =
      ground (arith, first_policy-silent ps default_deny client_id user)

  first_policy-match :
      (pre : List HydraClientPolicy) (p : HydraClientPolicy) (ps : List HydraClientPolicy)
      (default_deny : Bool) (client_id : String) (user : User)
      → silent_on client_id pre ≡ true
      → (client_id == "") ≡ false
      → p.client_id ≡ client_id
      → first_policy equal_fold (pre ++ p ∷ ps) default_deny client_id user
        ≡ admits equal_fold p.groups (member_of user)
  unfolding first_policy
  first_policy-match [] p ps default_deny client_id user h named same =
      ground (arith, eq_iff p.client_id client_id, eq_iff p.client_id "", eq_iff client_id "")
  first_policy-match (q ∷ pre) p ps default_deny client_id user h named same =
      ground (arith, first_policy-match pre p ps default_deny client_id user)

  -- The first entry for a client decides: the user is allowed exactly if one of the entry's groups
  -- is, up to case, one of the user's direct or nested groups.
  pub client_allowed_entry :
      (cfg : HydraConfig) (pre : List HydraClientPolicy) (p : HydraClientPolicy)
      (ps : List HydraClientPolicy) (user : User)
      → cfg.policies ≡ some (pre ++ p ∷ ps)
      → silent_on p.client_id pre ≡ true
      → (p.client_id == "") ≡ false
      → client_allowed equal_fold cfg p.client_id user ≡ admits equal_fold p.groups (member_of user)
  unfolding client_allowed
  client_allowed_entry cfg pre p ps user parsed silent named =
      ground
        (arith, first_policy-match pre p ps cfg.default_deny p.client_id user silent named refl)

  -- A client without an entry is open to everybody unless `default_deny` is set.
  pub client_allowed_default :
      (cfg : HydraConfig) (ps : List HydraClientPolicy) (client_id : String) (user : User)
      → cfg.policies ≡ some ps
      → silent_on client_id ps ≡ true
      → client_allowed equal_fold cfg client_id user ≡ not cfg.default_deny
  unfolding client_allowed
  client_allowed_default cfg ps client_id user parsed silent =
      ground (arith, first_policy-silent ps cfg.default_deny client_id user silent)

  -- A configuration that does not parse admits nobody, and is not enforced on earlier consents; one
  -- that parses without entries, `default_deny` unset, admits everybody and is not enforced either.
  pub unenforced :
      (cfg : HydraConfig) (client_id : String) (user : User)
      → (cfg.policies ≡ none) ⊎ ((cfg.policies ≡ some []) × (cfg.default_deny ≡ false))
      → (client_groups_enforced cfg ≡ false)
        × (client_allowed equal_fold cfg client_id user
            ≡ (elim cfg.policies [ none ↦ false | some ps ↦ true ]))
  unfolding client_allowed client_groups_enforced first_policy
  unenforced cfg client_id user (inl broken) = (ground arith, ground arith)
  unenforced cfg client_id user (inr (empty, open_to_all)) = (ground arith, ground arith)
