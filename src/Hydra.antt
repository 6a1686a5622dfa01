-- ===== src/Hydra.antt =====
-- server/hydra.go and server/hydra_consent.go: which
-- OAuth clients a user may sign in to, the consent and login endpoints, and the revocation of
-- consents that a user's groups no longer admit. hydra and FreeIPA are parameters.
pub mod Clients
pub mod Consents
pub mod Flow
mod Tests
use mokey.Base.{
  Bool, List, Option, String, [], any, contains, false, if◌then◌else◌, length, ltb, map, nat_eq,
  none, not, some, string_eq, suc, zero, ℕ, ◌++◌, ◌+◌, ◌==◌, ◌||◌, ◌∷◌,
}
use mokey.Directory.{User, member_of}

-- A client that a user has consented to, of a consent session.
pub record ConnectedApp : Type 0 where
  pub client_id : String
  pub name : String
  pub scope : List String
  pub granted_at : ℕ

-- An entry of [[hydra.clients]].
pub record HydraClientPolicy : Type 0 where
  pub client_id : String
  pub groups : List String

-- `policies` is none where the configuration does not parse.
pub record HydraConfig : Type 0 where
  pub policies : Option (List HydraClientPolicy)
  pub default_deny : Bool

-- strings.EqualFold, by Unicode's folding tables.
module _ (equal_fold : String → String → Bool) where
  abbrev pub admits : List String → List String → Bool
  admits [] have = false
  admits (want ∷ wanted) have = any (λ h. equal_fold want h) have || admits wanted have

  unfoldable pub first_policy : List HydraClientPolicy → Bool → String → User → Bool
  unfolding member_of
  first_policy [] default_deny client_id user = not default_deny
  first_policy (p ∷ ps) default_deny client_id user =
      let rest = first_policy ps default_deny client_id user in
      if p.client_id == ""
      then false
      else if not (p.client_id == client_id)
      then rest
      else admits p.groups (member_of user)

  -- clientAllowed
  unfoldable pub client_allowed : HydraConfig → String → User → Bool
  unfolding first_policy
  client_allowed cfg client_id user = elim cfg.policies [
    | none ↦ false
    | some ps ↦ first_policy ps cfg.default_deny client_id user
  ]

-- clientGroupsEnforced
unfoldable pub client_groups_enforced : HydraConfig → Bool
client_groups_enforced cfg = elim cfg.policies [
  | none ↦ false
  | some ps ↦
      if any (λ p. p.client_id == "") ps then false else ltb 0 (length ps) || cfg.default_deny
]

-- A consent session as hydra lists it, by its client's id, name and so on; "" is no name, none a
-- session without its request or client. A page comes with the token of the next, "" on the last.
pub record ConsentSession : Type 0 where
  pub client : Option (String × String)
  pub grant_scope : List String
  pub handled_at : ℕ

pub record HydraService : Type 1 where
  pub State : Type 0
  pub list_consents : State → String → String → Option (List ConsentSession × String)
  pub revoke_consents : State → String → String → Bool × State

abbrev pub app_of : ConsentSession → ConnectedApp
app_of s = elim s.client [
  | none ↦ record { client_id = ""; name = ""; scope = s.grant_scope; granted_at = s.handled_at }
  | some (id, name) ↦ record {
    client_id = id;
    name = (if name == "" then id else name);
    scope = s.grant_scope;
    granted_at = s.handled_at;
  }
]

-- The inner loop of consentClientIDs: the clients that are not listed yet.
abbrev pub add_client : List String → Option (String × String) → List String
add_client ids none = ids
add_client ids (some (id, name)) = if contains ids id then ids else ids ++ id ∷ []

unfoldable pub add_clients : List String → List ConsentSession → List String
add_clients ids [] = ids
add_clients ids (s ∷ sessions) = add_clients (add_client ids s.client) sessions

module _ (equal_fold : String → String → Bool) (oauth : HydraService) (cfg : HydraConfig) where
  -- listConnectedApps
  unfoldable pub list_connected_apps : oauth.State → String → Option (List ConnectedApp)
  list_connected_apps s username = elim (oauth.list_consents s username "") [
    | none ↦ none
    | some (sessions, next) ↦ some (map app_of sessions)
  ]

  -- The pages of consentClientIDs, from the one that `token` names; the fuel bounds their number.
  -- none is an error, or no fuel.
  unfoldable pub consent_client_ids :
      ℕ → oauth.State → String → List String → String → Option (List String)
  unfolding add_clients
  consent_client_ids zero s username ids token = none
  consent_client_ids (suc fuel) s username ids token = elim (oauth.list_consents s username token) [
    | none ↦ none
    | some (sessions, next) ↦
        let rest = consent_client_ids fuel s username (add_clients ids sessions) next in
        if next == "" || next == token then some (add_clients ids sessions) else rest
  ]

  -- The loop of revokeDisallowedConsents.
  unfoldable pub revoke_loop : oauth.State → User → List String → ℕ → oauth.State × ℕ
  unfolding client_allowed
  revoke_loop s user [] revoked = (s, revoked)
  revoke_loop s user (id ∷ ids) revoked =
      let (done, s') = oauth.revoke_consents s user.username id in
      let allowed = client_allowed equal_fold cfg id user in
      revoke_loop (if allowed then s else s') user ids
        (if allowed || not done then revoked else revoked + 1)

  unfoldable pub revoke_disallowed_consents : ℕ → oauth.State → User → oauth.State × ℕ
  unfolding consent_client_ids revoke_loop
  revoke_disallowed_consents fuel s user = elim (consent_client_ids fuel s user.username [] "") [
    | none ↦ (s, 0)
    | some ids ↦ revoke_loop s user ids 0
  ]

  -- revokeConsentsOf; `configured` is `r.hydraClient != nil`.
  unfoldable pub revoke_consents_of :
      ℕ → Bool → (String → Option User) → oauth.State → String → oauth.State
  unfolding client_groups_enforced revoke_disallowed_consents
  revoke_consents_of fuel configured user_show s username =
      if not configured || not (client_groups_enforced cfg) then s else elim (user_show username) [
        | none ↦ s
        | some user ↦ (revoke_disallowed_consents fuel s user).0
      ]

  -- consentSweep, over the users that `user_find` lists.
  unfoldable pub consent_sweep : ℕ → oauth.State → List User → ℕ → oauth.State × ℕ
  unfolding revoke_disallowed_consents
  consent_sweep fuel s [] revoked = (s, revoked)
  consent_sweep fuel s (user ∷ users) revoked =
      let (s', n) = revoke_disallowed_consents fuel s user in
      consent_sweep fuel s' users (revoked + n)
