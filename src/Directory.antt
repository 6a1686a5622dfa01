-- ===== src/Directory.antt =====
-- What the handlers see of FreeIPA through goipa, a third-party client: the fields of `ipa.User`
-- that they read, its errors, and its methods as parameters.
pub mod Names
use mokey.Base.{Bool, List, String, [], any, false, nat_eq, string_eq, ℕ, ◌++◌, ◌==◌, ◌||◌, ◌∷◌}

pub record User : Type 0 where
  pub username : String
  pub email : String
  pub groups : List String
  pub indirect_groups : List String
  pub auth_types : List String
  pub locked : Bool
  -- Seconds; 0 is the zero time.
  pub passwd_expire : ℕ

-- Methods of `ipa.User`.
pub record UserMethods : Type 0 where
  pub otp_only : User → Bool
  pub has_group : User → String → Bool

-- What a handler answers: a status with a text, a rendered page, or a redirect.
pub data Response : Type 0 where
  status : ℕ → String → Response
  render : String → Response
  redirect : String → Response

-- What a handler sets off beside its answer, in order: lines of the audit trail, mails, and jobs
-- that run after the response.
pub data Effect : Type 0 where
  audit : String → String → Effect
  mail : String → String → Effect
  background : String → String → String → Effect
  -- A call of the OAuth server hydra (operation, subject, client or challenge).
  hydra : String → String → String → Effect

-- server/ipa_access.go memberOf
unfoldable pub member_of : User → List String
member_of user = user.groups ++ user.indirect_groups

-- Some entry of `xs` stands in `ys`: the two nested loops of `isManagerOf` (server/groups.go) and
-- of `ruleAppliesToUser` (server/ipa_access.go).
unfoldable pub meets : List String → List String → Bool
meets [] ys = false
meets (x ∷ xs) ys = any (λ y. x == y) ys || meets xs ys
