-- ===== src/Hydra/Tests.antt =====
-- A configuration with one restricted client: the theorems at concrete inputs.
use mokey.Base.{
  Bool, Option, String, [], arith, false, filter, if◌then◌else◌, inr, nat_eq, none, not, refl, some,
  string_eq, true, ℕ, ◌+◌, ◌==◌, ◌∷◌, ◌≡◌, ◌⊎◌,
}
use mokey.Directory.{User, UserMethods, audit, hydra, member_of, status}
use mokey.Hydra.{
  consent_client_ids, HydraClientPolicy, client_groups_enforced, ConsentSession, HydraService,
  HydraConfig, revoke_disallowed_consents, client_allowed, add_clients, admits, first_policy,
  revoke_loop,
}
use mokey.Hydra.Flow.{
  consent_get, ConsentRequest, passes_mfa, login_oauth_get, FlowService, LoginRequest, grant,
  skip_login,
}
use mokey.Hydra.Consents.{
  revoke_each, add_pages, consent_client_ids_lem, last, more, revoke_loop_lem,
}
use mokey.Hydra.Clients.{client_allowed_entry, unenforced, client_allowed_default}
use mokey.Hydra.Flow.Laws.{consent_get_guarded, login_oauth_get_guarded, consent_get_denied}

abbrev same : String → String → Bool
same a b = a == b

abbrev wiki : HydraClientPolicy
wiki = record { client_id = "wiki"; groups = "ops" ∷ [] }

abbrev chat : HydraClientPolicy
chat = record { client_id = "chat"; groups = [] }

abbrev cfg : HydraConfig
cfg = record { policies = some (chat ∷ wiki ∷ []); default_deny = false }

abbrev open_cfg : HydraConfig
open_cfg = record { policies = some []; default_deny = false }

abbrev ann : User
ann = record {
  username = "ann";
  email = "ann@example.com";
  groups = "dev" ∷ [];
  indirect_groups = "ops" ∷ [];
  auth_types = [];
  locked = false;
  passwd_expire = 0;
}

client_allowed_entry_example :
    client_allowed same cfg "wiki" ann ≡ admits same ("ops" ∷ []) (member_of ann)
client_allowed_entry_example = client_allowed_entry same cfg (chat ∷ []) wiki [] ann refl refl refl

client_allowed_default_example : client_allowed same cfg "blog" ann ≡ true
client_allowed_default_example =
    client_allowed_default same cfg (chat ∷ wiki ∷ []) "blog" ann refl refl

unenforced_example :
    (client_groups_enforced open_cfg ≡ false) × (client_allowed same open_cfg "wiki" ann ≡ true)
unenforced_example = unenforced same open_cfg "wiki" ann (inr (refl, refl))

abbrev session_of : String → ConsentSession
session_of id = record { client = some (id, ""); grant_scope = []; handled_at = 0 }

-- Two pages of consents; a revocation is counted, and that of "blog" fails.
abbrev oauth : HydraService
oauth = record {
  State = ℕ;
  list_consents = λ s u token.
      if token == ""
      then some (session_of "wiki" ∷ session_of "chat" ∷ [], "2")
      else some (session_of "blog" ∷ [], "");
  revoke_consents = λ s u id. if id == "blog" then (false, s) else (true, s + 1);
}

revoke_run : revoke_disallowed_consents same oauth cfg 2 0 ann ≡ (1, 1)
unfolding revoke_disallowed_consents consent_client_ids add_clients mokey.Hydra.revoke_loop
    client_allowed first_policy member_of
revoke_run = refl

revoke_loop_example :
    mokey.Hydra.revoke_loop same oauth cfg 0 ann ("wiki" ∷ "chat" ∷ []) 0
    ≡ revoke_each same oauth cfg 0 ann
        (filter (λ id. not (client_allowed same cfg id ann)) ("wiki" ∷ "chat" ∷ []))
        0
revoke_loop_example = revoke_loop_lem same oauth cfg 0 ann ("wiki" ∷ "chat" ∷ []) 0

consent_client_ids_example :
    consent_client_ids same oauth cfg 5 0 "ann" [] ""
    ≡ some (
        add_pages same oauth cfg []
          ((session_of "wiki" ∷ session_of "chat" ∷ []) ∷ (session_of "blog" ∷ []) ∷ []))
consent_client_ids_example =
    consent_client_ids_lem same oauth cfg 0 "ann" ""
      ((session_of "wiki" ∷ session_of "chat" ∷ []) ∷ (session_of "blog" ∷ []) ∷ []) 5 []
      (more "" "2" (session_of "wiki" ∷ session_of "chat" ∷ []) ((session_of "blog" ∷ []) ∷ []) refl
        refl (last "2" "" (session_of "blog" ∷ []) refl refl))
      (omega arith)

abbrev methods : UserMethods
methods = record { otp_only = λ u. false; has_group = λ u g. false }

abbrev wants_wiki : ConsentRequest
wants_wiki = record { subject = "ann"; client = "wiki"; requested_scope = "openid" ∷ [] }

abbrev flow : FlowService
flow = record {
  get_consent =
      λ c. some (if c == "chat" then record wants_wiki { client = "chat" } else wants_wiki);
  accept_consent = λ c scope u. some "https://wiki";
  get_login = λ c. some (record { skip = true; subject = "ann" });
  accept_skipped = λ u c. some "https://wiki";
  accept_login = λ u c. some "https://wiki";
  get_logout = λ c. true;
  accept_logout = λ c. some "https://wiki";
  user_show = λ u. some ann;
}

consent_get_guarded_example :
    (consent : ConsentRequest) × (user : User) × (flow.get_consent "c" ≡ some consent)
    × (flow.user_show consent.subject ≡ some user)
    × (passes_mfa same methods flow cfg false user ≡ true)
    × (client_allowed same cfg consent.client user ≡ true)
    × (flow.accept_consent "c" consent.requested_scope user ≡ some "https://wiki")
unfolding consent_get grant passes_mfa client_allowed first_policy member_of
consent_get_guarded_example =
    consent_get_guarded same methods flow cfg false "c" "https://wiki" refl

consent_get_denied_example : consent_get same methods flow cfg false "chat" ≡ (
  hydra "reject_consent" "ann" "chat"
      ∷ hydra "revoke_disallowed_consents" "ann" ""
      ∷ audit "AUDIT OAuth2 client denied, user not in an allowed group" "ann"
      ∷ [],
  status 403 "hydra.client_not_allowed",
)
unfolding passes_mfa client_allowed first_policy client_groups_enforced member_of
consent_get_denied_example =
    consent_get_denied same methods flow cfg false "chat" (record wants_wiki { client = "chat" })
      ann refl refl refl refl refl

login_oauth_get_guarded_example :
    (login : LoginRequest) × (flow.get_login "c" ≡ some login)
    × (((user : User) × (login.skip ≡ true)
          × (flow.user_show login.subject ≡ some user)
          × (passes_mfa same methods flow cfg false user ≡ true)
          × (flow.accept_skipped login.subject "c" ≡ some "https://wiki"))
        ⊎ ((username : String) × (login.skip ≡ false)
            × (◌≡◌ {A = Option String} none (some username))
            × (flow.accept_login username "c" ≡ some "https://wiki")))
unfolding login_oauth_get skip_login passes_mfa
login_oauth_get_guarded_example =
    login_oauth_get_guarded same methods flow cfg false none "c" "https://wiki" false refl
